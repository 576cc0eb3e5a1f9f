-- ===== src/Server/Content/Tables.antt =====
-- An upload keeps the file table and the version table in agreement (`uploadFile` of
-- internal/server/file_manager.go): also one that stops half-way, or panics.
use constelfs.Prelude.{
  ℕ, zero, suc, String, Bool, List, [], ◌∷◌, lookup, refl, arith, ℤ, pos, length, take, drop,
  Bool-cases, Option-cases, inl, inr, ◌==◌, ◌⊎◌,
}
use constelfs.Prelude.Sort.{IsSort}
use constelfs.Prelude.Text.{concat, decimal}
use constelfs.Client.Chunker.{calculate_chunk_size, rounds_up}
use constelfs.Server.State.{
  Time, Node, Server, save, WriteRequest, WriteResponse, prepared, refused, Response, manager_nodes,
  Write,
}
use constelfs.Server.Scheduler.{Floats, Sort, select_nodes}
use constelfs.Server.Storage.{
  Task, Confirmation, prepare_on, prepare_write, confirm_write, unknown_chunk, confirmed, or_three,
}
use constelfs.Server.Versions.{VersionSort}
use constelfs.Server.Files.{new_file, or_new}
use constelfs.Server.Files.Deletion.{SameFiles, SameFiles-refl, SameFiles-trans}
use constelfs.Server.Files.Invariant.{
  Histories, add_version-Histories, created-Extends, or_new-IsHistory,
}
use constelfs.Server.Content.{
  Send, Received, no_temp_file, bad_form, copy_failed, received, Round, stopped, stored, Uploaded,
  upload_to_node, send_chunk, upload_chunk, upload_loop, save_chunks, after_confirm, after_prepare,
  after_round, on_bytes, after_loop, store_upload, upload_file, store_content, replicas_of,
}

save-SameFiles : (w : Write) (s : Server) → SameFiles s (save w s)
unfolding save
save-SameFiles w s = record {
  files = ground arith;
  versions = ground arith;
  nodes = ground arith;
  persist = ground arith;
}

pub prepare_on-SameFiles :
    (s : Server) (now : Time) (req : WriteRequest) (ns : List Node)
    → SameFiles s (prepare_on s now req ns).0
unfolding prepare_on save
prepare_on-SameFiles s now req [] = SameFiles-refl s
prepare_on-SameFiles s now req (n ∷ ns) = record {
  files = ground arith;
  versions = ground arith;
  nodes = ground arith;
  persist = ground arith;
}

pub confirm_write-SameFiles :
    (s : Server) (id hash : String) → SameFiles s (confirm_write s id hash).0
unfolding confirm_write save
confirm_write-SameFiles s id hash = elim (Option-cases (lookup id s.chunks)) [
  | inl e ↦ rw (e, confirm_write) (SameFiles-refl s)
  | inr (c, e) ↦
      rw (e, confirm_write)
        (record {
          files = ground arith;
          versions = ground arith;
          nodes = ground arith;
          persist = ground arith;
        })
]

SameFiles-Histories : {s t : Server} → SameFiles s t → Histories s → Histories t
SameFiles-Histories same h id = rw (same.files, same.versions) (h id)

module _ {W : Type 0} (f : Floats) (sort : Sort) (sha256 : List ℕ → String) (send : Send W) where
  after_confirm-SameFiles :
      (s : Server) (w : W) (id : String) (rest : List String) (r : Server × Confirmation)
      → SameFiles s r.0
      → SameFiles s (after_confirm id rest w r).server
  after_confirm-SameFiles s w id rest (t, unknown_chunk e) same = same
  after_confirm-SameFiles s w id rest (t, confirmed task) same = same

  send_chunk-SameFiles :
      (s : Server) (w : W) (i : ℕ) (id : String) (addrs : List String) (bytes : List ℕ)
      → SameFiles s (send_chunk f sort sha256 send s w i id addrs bytes).server
  unfolding send_chunk
  send_chunk-SameFiles s w i id [] bytes = SameFiles-refl s
  send_chunk-SameFiles s w i id (first ∷ rest) bytes =
      let w' = (upload_to_node send w first id bytes).0 in
      elim (Bool-cases (upload_to_node send w first id bytes).1) [
        | inl e ↦
            rw e
              (after_confirm-SameFiles s w' id rest _ (confirm_write-SameFiles s id (sha256 bytes)))
        | inr e ↦ rw e (SameFiles-refl s)
      ]

  after_prepare-SameFiles :
      (s : Server) (w : W) (i : ℕ) (bytes : List ℕ) (r : Server × WriteResponse)
      → SameFiles s r.0
      → SameFiles s (after_prepare f sort sha256 send w i bytes r).server
  after_prepare-SameFiles s w i bytes (t, prepared id ids nodes addrs) same =
      SameFiles-trans same (send_chunk-SameFiles t w i id addrs bytes)
  after_prepare-SameFiles s w i bytes (t, refused e) same = same

  prepare_write-SameFiles :
      (s : Server) (now : Time) (req : WriteRequest)
      → SameFiles s (prepare_write f sort s (manager_nodes s) now req).0
  unfolding prepare_write
  prepare_write-SameFiles s now req =
      let n = or_three req.replicas in
      prepare_on-SameFiles s now (record req { replicas = n })
        (select_nodes f sort (manager_nodes s) n [])

  upload_chunk-SameFiles :
      (s : Server) (w : W) (now : Time) (file_id : String) (i : ℕ) (replicas : ℤ) (bytes : List ℕ)
      → SameFiles s (upload_chunk f sort sha256 send s w now file_id i replicas bytes).server
  unfolding upload_chunk
  upload_chunk-SameFiles s w now file_id i replicas bytes =
      let req : WriteRequest = record {
        file_id = file_id;
        file_name = concat "chunk_" (decimal i);
        file_size = pos (length bytes);
        replicas = replicas;
      } in
      after_prepare-SameFiles s w i bytes (prepare_write f sort s (manager_nodes s) now req)
        (prepare_write-SameFiles s now req)

  after_round-SameFiles :
      (s t : Server) (w : W) (tasks : List Task) (round : Round) (next : Server → W → Uploaded W)
      → SameFiles s t
      → ((u : Server) (v : W) → SameFiles u (next u v).server)
      → SameFiles s (after_round t w tasks round next).server
  after_round-SameFiles s t w tasks (stopped e) next same later = same
  after_round-SameFiles s t w tasks (stored id addrs) next same later =
      SameFiles-trans same (later t w)

  on_bytes-SameFiles :
      (bytes : List ℕ) (s : Server) (w : W) (next : List ℕ → Uploaded W)
      → ((bs : List ℕ) → SameFiles s (next bs).server)
      → SameFiles s (on_bytes bytes s w next).server
  on_bytes-SameFiles [] s w next later = SameFiles-refl s
  on_bytes-SameFiles (b ∷ bs) s w next later = later (b ∷ bs)

  pub upload_loop-SameFiles :
      (clock : ℕ → Time) (unreadable : ℕ → Bool) (file_id : String) (replicas : ℤ)
      (chunk left i : ℕ) (unread : List ℕ) (s : Server) (w : W)
      → SameFiles s
          (upload_loop f sort sha256 send clock unreadable file_id replicas chunk left i unread s
            w).server
  unfolding upload_loop
  upload_loop-SameFiles clock unreadable file_id replicas chunk zero i unread s w = SameFiles-refl s
  upload_loop-SameFiles clock unreadable file_id replicas chunk (suc left) i unread s w =
      elim (Bool-cases (unreadable i)) [
        | inl e ↦ rw e (SameFiles-refl s)
        | inr e ↦ rw e (
            on_bytes-SameFiles (take chunk unread) s w _ (λ bytes.
              after_round-SameFiles s _ _ _ _ _
                (upload_chunk-SameFiles s w (clock i) file_id i replicas bytes)
                (upload_loop-SameFiles clock unreadable file_id replicas chunk left (suc i)
                  (drop chunk unread))))
      ]

  save_chunks-SameFiles :
      (file_id : String) (size : ℤ) (replicas ids : List String) (s : Server)
      → SameFiles s (save_chunks f sort sha256 send file_id size replicas ids s)
  unfolding save_chunks
  save_chunks-SameFiles file_id size replicas [] s = SameFiles-refl s
  save_chunks-SameFiles file_id size replicas (id ∷ ids) s =
      SameFiles-trans (save-SameFiles _ s) (save_chunks-SameFiles file_id size replicas ids _)

  module _ (order : VersionSort) (contract : IsSort order) where
    store_upload-Histories :
        (s : Server) (now : Time) (id name path : String) (bytes : List ℕ)
        (chunk_ids addrs : List String)
        → Histories s
        → Histories
            (store_upload f sort sha256 send order s now id name path bytes chunk_ids addrs).0
    unfolding store_upload
    store_upload-Histories s now id name path bytes chunk_ids addrs h =
        let made = new_file now id name path (pos (length bytes)) 0 in
        SameFiles-Histories (save_chunks-SameFiles id _ addrs chunk_ids _) (
          add_version-Histories order contract s id (or_new (lookup id s.files) made) _ _
            (created-Extends now _ chunk_ids addrs _ (sha256 bytes))
            (or_new-IsHistory (lookup id s.files) made _ refl (h id)) h)

    after_loop-Histories :
        (ended : Time) (id name path : String) (bytes : List ℕ) (tasks : List Task) (s : Server)
        (w : W) (r : Response ⊎ (List String × List String))
        → Histories s
        → Histories (after_loop f sort sha256 send order ended id name path bytes tasks s w r).0
    after_loop-Histories ended id name path bytes tasks s w (inl e) h = h
    after_loop-Histories ended id name path bytes tasks s w (inr (chunk_ids, addrs)) h =
        store_upload-Histories s ended id name path bytes chunk_ids addrs h

    store_content-Histories :
        (id : String) (ended : Time) (clock : ℕ → Time) (unreadable : ℕ → Bool)
        (query name path : String) (bytes : List ℕ) (s : Server) (w : W)
        → Histories s
        → Histories
            (store_content f sort sha256 send order id ended clock unreadable query name path bytes
              s w).0
    unfolding store_content
    store_content-Histories id ended clock unreadable query name path bytes s w h =
        let chunk = calculate_chunk_size (length bytes) in
        let u =
          upload_loop f sort sha256 send clock unreadable id (replicas_of query) chunk
            (rounds_up (length bytes) chunk) 0 bytes s w in
        elim (Bool-cases (chunk == 0)) [
          | inl e ↦ rw e h
          | inr e ↦ rw e (
              after_loop-Histories ended id name path bytes u.tasks u.server u.nodes u.result (
                SameFiles-Histories
                  (upload_loop-SameFiles clock unreadable id (replicas_of query) chunk
                    (rounds_up (length bytes) chunk) 0 bytes s w)
                  h))
        ]

    -- Let the tables of files and versions agree. Then they agree after any upload, whatever the nodes
    -- answer and wherever it stops.
    pub upload_file-Histories :
        (now ended : Time) (clock : ℕ → Time) (unreadable : ℕ → Bool) (query : String)
        (body : Received) (s : Server) (w : W)
        → Histories s
        → Histories
            (upload_file f sort sha256 send order now ended clock unreadable query body s w).0
    unfolding upload_file
    upload_file-Histories now ended clock unreadable query no_temp_file s w h = h
    upload_file-Histories now ended clock unreadable query (bad_form e) s w h = h
    upload_file-Histories now ended clock unreadable query copy_failed s w h = h
    upload_file-Histories now ended clock unreadable query (received given given_path bytes) s w h =
        store_content-Histories _ ended clock unreadable query _ _ bytes s w h
