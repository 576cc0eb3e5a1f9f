-- ===== src/Server/Content.antt =====
-- Uploads of files through the server: `uploadFile` of internal/server/file_manager.go, and
-- `UploadToNode` of storage.go. What nodes do and answer, SHA-256 and the clock are parameters. The
-- rounds of an upload follow one another without another request between them. An error's text ends
-- before the text of its cause in the network or the file system.
pub mod Tables
pub mod Delivery
pub mod Loop
pub mod Reading
pub mod Roundtrip
use constelfs.Prelude.{
  ℕ, zero, suc, String, Bool, false, List, [], ◌∷◌, ◌++◌, Option, none, some, lookup, ℤ, pos, inl,
  inr, ◌⊎◌, length, take, drop, str_eq, ltb_ℤ, if◌then◌else◌, ◌==◌,
}
use constelfs.Prelude.Text.{concat, decimal, atoi}
use constelfs.Client.Chunker.{calculate_chunk_size, rounds_up}
use constelfs.Prelude.Text.Urls.{is_url}
use constelfs.Server.State.{
  Time, Server, save, save_chunk, WriteResponse, prepared, refused, Response, error, uploaded,
  aborted, manager_nodes,
}
use constelfs.Server.Scheduler.{Floats, Sort}
use constelfs.Server.Storage.{
  prepare_write, confirm_write, Task, unknown_chunk, confirmed, Confirmation,
}
use constelfs.Server.Versions.{VersionSort, create_new_version}
use constelfs.Server.Files.{new_file, or_new, add_version}

-- What a PUT of a chunk to the address of a node gives: no response, or a status.
pub data Sent : Type 0 where
  not_sent : Sent
  answered : ℕ → Sent

-- The nodes, in a state of type `W`: a PUT of a chunk to an address.
abbrev pub Send : Type 0 → Type 0
Send W = W → String → String → List ℕ → W × Sent

abbrev pub is_ok : Sent → Bool
is_ok not_sent = false
is_ok (answered code) = code == 200

-- `UploadToNode`: whether it returns nil. `http.NewRequest` refuses an id that is no URL; `send` stands for the request
-- itself, whose path ends with the id as it is, and is `not_sent` for an address that is none.
unfoldable pub upload_to_node : {W : Type 0} → Send W → W → String → String → List ℕ → W × Bool
upload_to_node send w addr chunk_id bytes =
    let (w', answer) = send w addr chunk_id bytes in
    if is_url chunk_id then (w', is_ok answer) else (w, false)

-- The body of an upload, as far as it arrives.
pub data Received : Type 0 where
  no_temp_file : Received
  bad_form : String → Received
  copy_failed : Received
  received : String → String → List ℕ → Received

-- `?replicas=`, if it is a positive number.
abbrev pub positive_or : ℤ → Option ℤ → ℤ
positive_or n none = n
positive_or n (some v) = if ltb_ℤ (pos 0) v then v else n

unfoldable pub replicas_of : String → ℤ
replicas_of query = if str_eq query "" then pos 3 else positive_or (pos 3) (atoi query)

-- How a round of the upload ends: with an answer, or with the chunk's id and further addresses.
pub data Round : Type 0 where
  stopped : Response → Round
  stored : String → List String → Round

pub record Upload (W : Type 0) : Type 0 where
  pub server : Server
  pub nodes : W
  pub tasks : List Task
  pub round : Round

-- The chunks and the addresses that are gathered so far.
pub record Uploaded (W : Type 0) : Type 0 where
  pub server : Server
  pub nodes : W
  pub tasks : List Task
  pub result : Response ⊎ (List String × List String)

abbrev pub started : Option Task → List Task
started none = []
started (some t) = t ∷ []

abbrev pub with_result :
    String
    → List String
    → Response ⊎ (List String × List String)
    → Response ⊎ (List String × List String)
with_result id addrs (inl e) = inl e
with_result id addrs (inr (ids, more)) = inr (id ∷ ids, addrs ++ more)

module _ {W : Type 0} where
  abbrev stop : Server → W → String → Upload W
  stop s w text = record { server = s; nodes = w; tasks = []; round = stopped (error 500 text) }

  -- The round behind `ConfirmWrite`.
  abbrev pub after_confirm : String → List String → W → Server × Confirmation → Upload W
  after_confirm id rest w (s, unknown_chunk e) = stop s w (concat "Confirm write failed: " e)
  after_confirm id rest w (s, confirmed task) = record {
    server = s;
    nodes = w;
    tasks = started task;
    round = stored id rest;
  }

  abbrev with_chunk : List Task → String → List String → Uploaded W → Uploaded W
  with_chunk tasks id addrs u = record {
    server = u.server;
    nodes = u.nodes;
    tasks = tasks ++ u.tasks;
    result = with_result id addrs u.result;
  }

  -- The rounds behind one that has ended.
  abbrev pub after_round : Server → W → List Task → Round → (Server → W → Uploaded W) → Uploaded W
  after_round s w tasks (stopped e) next = record {
    server = s;
    nodes = w;
    tasks = tasks;
    result = inl e;
  }
  after_round s w tasks (stored id addrs) next = with_chunk tasks id addrs (next s w)

  -- `if n == 0 { break }`.
  abbrev pub on_bytes : List ℕ → Server → W → (List ℕ → Uploaded W) → Uploaded W
  on_bytes [] s w next = record { server = s; nodes = w; tasks = []; result = inr ([], []) }
  on_bytes (b ∷ bs) s w next = next (b ∷ bs)

module _ {W : Type 0} (f : Floats) (sort : Sort) (sha256 : List ℕ → String) (send : Send W) where
  -- The round behind `PrepareWrite`, for a chunk whose replicas have these addresses.
  unfoldable pub send_chunk : Server → W → ℕ → String → List String → List ℕ → Upload W
  unfolding upload_to_node confirm_write
  send_chunk s w i id [] bytes = record { server = s; nodes = w; tasks = []; round = stored id [] }
  send_chunk s w i id (first ∷ rest) bytes =
      let (w', ok) = upload_to_node send w first id bytes in
      if ok
      then after_confirm id rest w' (confirm_write s id (sha256 bytes))
      else stop s w' (concat (concat "Upload chunk " (decimal i)) " to node failed")

  abbrev pub after_prepare : W → ℕ → List ℕ → Server × WriteResponse → Upload W
  after_prepare w i bytes (s, prepared id ids nodes addrs) = send_chunk s w i id addrs bytes
  after_prepare w i bytes (s, refused e) = stop s w (concat "Prepare write failed: " e)

  unfoldable pub upload_chunk : Server → W → Time → String → ℕ → ℤ → List ℕ → Upload W
  unfolding prepare_write send_chunk
  upload_chunk s w now file_id i replicas bytes = after_prepare w i bytes (
      prepare_write f sort s (manager_nodes s) now (record {
        file_id = file_id;
        file_name = concat "chunk_" (decimal i);
        file_size = pos (length bytes);
        replicas = replicas;
      }))

  -- The rounds that are left, and the number of the next: `clock` gives the time of each, and
  -- `unreadable` tells which find the temporary file unreadable.
  unfoldable pub upload_loop :
      (ℕ → Time) → (ℕ → Bool) → String → ℤ → ℕ → ℕ → ℕ → List ℕ → Server → W → Uploaded W
  unfolding upload_chunk
  upload_loop clock unreadable file_id replicas chunk zero i unread s w = record {
    server = s;
    nodes = w;
    tasks = [];
    result = inr ([], []);
  }
  upload_loop clock unreadable file_id replicas chunk (suc left) i unread s w =
      if unreadable i
      then record {
        server = s;
        nodes = w;
        tasks = [];
        result = inl (error 500 (concat (concat "Read chunk " (decimal i)) " failed"));
      }
      else on_bytes (take chunk unread) s w (λ bytes.
        let u = upload_chunk s w (clock i) file_id i replicas bytes in
        after_round u.server u.nodes u.tasks u.round
          (upload_loop clock unreadable file_id replicas chunk left (suc i) (drop chunk unread)))

  -- The chunks as the end of `uploadFile` saves them: the fields that its literal does not name
  -- are zero.
  unfoldable pub save_chunks : String → ℤ → List String → List String → Server → Server
  unfolding save
  save_chunks file_id size replicas [] s = s
  save_chunks file_id size replicas (id ∷ ids) s = save_chunks file_id size replicas ids (
      save
        (save_chunk (record {
          chunk_id = id;
          file_id = file_id;
          index = 0;
          size = size;
          hash = "";
          replicas = replicas;
          status = "";
          created_at = 0;
        }))
        s)

  -- The end of `uploadFile`, for the chunks and the addresses that the loop gives.
  unfoldable pub store_upload :
      VersionSort
      → Server
      → Time
      → String
      → String
      → String
      → List ℕ
      → List String
      → List String
      → Server × Response
  unfolding create_new_version add_version save_chunks
  store_upload order s now id name path bytes chunk_ids addrs =
      let size = pos (length bytes) in
      let made = new_file now id name path size 0 in
      let (file, v) =
        create_new_version now (or_new (lookup id s.files) made) chunk_ids addrs size
          (sha256 bytes) in
      let t = add_version order s id file v in
      (
        save_chunks id (pos (calculate_chunk_size (length bytes))) addrs chunk_ids t,
        uploaded id name size (length chunk_ids) v,
      )

  abbrev pub after_loop :
      VersionSort
      → Time
      → String
      → String
      → String
      → List ℕ
      → List Task
      → Server
      → W
      → Response ⊎ (List String × List String)
      → Server × W × Response × List Task
  after_loop order ended id name path bytes tasks s w (inl e) = (s, w, e, tasks)
  after_loop order ended id name path bytes tasks s w (inr (chunk_ids, addrs)) =
      let (t, resp) = store_upload order s ended id name path bytes chunk_ids addrs in
      (t, w, resp, tasks)

  -- `uploadFile` behind the file's id. A division by zero panics.
  unfoldable pub store_content :
      VersionSort
      → String
      → Time
      → (ℕ → Time)
      → (ℕ → Bool)
      → String
      → String
      → String
      → List ℕ
      → Server
      → W
      → Server × W × Response × List Task
  unfolding upload_loop store_upload calculate_chunk_size rounds_up replicas_of
  store_content order id ended clock unreadable query name path bytes s w =
      let chunk = calculate_chunk_size (length bytes) in
      let u =
        upload_loop clock unreadable id (replicas_of query) chunk (rounds_up (length bytes) chunk) 0
          bytes s w in
      if chunk == 0
      then (s, w, aborted, [])
      else after_loop order ended id name path bytes u.tasks u.server u.nodes u.result

  -- `uploadFile`, with the replications that it leaves running: `now` names the file, and at `ended`
  -- the version is created.
  unfoldable pub upload_file :
      VersionSort
      → Time
      → Time
      → (ℕ → Time)
      → (ℕ → Bool)
      → String
      → Received
      → Server
      → W
      → Server × W × Response × List Task
  unfolding store_content
  upload_file order now ended clock unreadable query no_temp_file s w =
      (s, w, error 500 "Create temp file failed", [])
  upload_file order now ended clock unreadable query (bad_form e) s w =
      (s, w, error 400 (concat "Parse form failed: " e), [])
  upload_file order now ended clock unreadable query copy_failed s w =
      (s, w, error 500 "Read file failed", [])
  upload_file order now ended clock unreadable query (received given given_path bytes) s w =
      let path = if str_eq given_path "" then concat "/" given else given_path in
      let name = if str_eq given "" then "unnamed" else given in
      store_content order (concat (concat name "_") (decimal now)) ended clock unreadable query name
        path bytes s w
