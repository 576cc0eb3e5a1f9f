-- ===== src/Client/World/Stored.antt =====
-- An upload by the client against the server and its nodes, and the server's download of the file
-- (internal/client/uploader.go, internal/server/file_manager.go).
use mathlib.Core.Path.{subst}
use constelfs.Prelude.{
  ℕ, suc, ◌-◌, ◌<◌, ◌≤◌, ◌^◌, String, true, false, List, [], ◌∷◌, ◌++◌, Option, none, some, lookup,
  insert, ◌≡◌, refl, ap, ◌∙◌, ℤ, pos, inr, Map, length, All, lookup-insert_self, get_or_nil,
}
use constelfs.Prelude.Sort.{IsSort}
use constelfs.Prelude.Text.Urls.{is_plain}
use constelfs.Server.State.{
  Time, Node, FileInfo, FileVersion, Server, version_created, content, manager_nodes,
}
use constelfs.Server.Nodes.{post}
use constelfs.Server.Scheduler.{Floats, Sort, available}
use constelfs.Server.Scheduler.Known.{IsRegistry, IsKnown, select_nodes-IsKnown, select_nodes-some}
use constelfs.Server.Transfer.{Network}
use constelfs.Server.Versions.{VersionSort, create_new_version}
use constelfs.Server.Files.{CreateVersionRequest, versions_of, new_file, handle_create_version}
use constelfs.Server.Downloads.{gather, download_file}
use constelfs.Server.Encryption.{Crypto}
use constelfs.Server.Content.{Send}
use constelfs.Server.Content.Delivery.{IsNetwork, IsApart}
use constelfs.Server.Content.Reading.{
  gather-same, download-save, download-listed, add_version-first,
}
use constelfs.Client.Chunker.{rounds_up}
use constelfs.Client.Requests.{Call, create, lost, LocalFile, ChunkUploader, UploadResult, opened}
use constelfs.Client.Uploader.{
  upload, upload_rounds, upload_data, upload_key, create_version, after_create, after_rounds,
  result_of, upload_id, save_encryption_key,
}
use constelfs.Client.Uploader.Calls.{version_request}
use constelfs.Client.Uploader.Rounds.{pieces_of_file}
use constelfs.Client.World.{World, call, calls, create_answer, on_create, served}
use constelfs.Client.World.Calls.{calls-snoc, at_last-snoc}
use constelfs.Client.World.Rounds.{upload_rounds-Gathers}

same_tables :
    (s : Server) (files : Map FileInfo) (versions : Map (List FileVersion))
    → manager_nodes (record s { files = files; versions = versions }) ≡ manager_nodes s
unfolding manager_nodes
same_tables s files versions = refl

-- The first version of a file, made of chunks that the server can read.
handle_create_version-download :
    (order : VersionSort) (net : Network) (s : Server) (now : Time) (req : CreateVersionRequest)
    (bytes : List ℕ)
    → lookup req.file_id s.files ≡ none
    → versions_of s req.file_id ≡ []
    → gather net s req.chunk_ids ≡ inr bytes
    → let (t, resp) = handle_create_version order s now post (some req) in
      (v : FileVersion) × (resp ≡ version_created v)
      × (download_file net t req.file_id (pos 0) ≡ content req.file_name bytes)
unfolding handle_create_version create_new_version
handle_create_version-download order net s now req bytes absent empty e =
    let id = req.file_id in
    let made = new_file now id req.file_name req.file_path (pos 0) 0 in
    let (file, v) = create_new_version now made req.chunk_ids req.node_ids req.file_size req.hash in
    let t : Server = record s {
      files = insert id file s.files;
      versions = insert id (v ∷ []) s.versions;
    } in
    let first = add_version-first order s id file v empty refl in
    let listed : lookup id t.files ≡ some file = lookup-insert_self id file s.files in
    let versions : versions_of t id ≡ v ∷ [] =
      ap get_or_nil (lookup-insert_self id (v ∷ []) s.versions) in
    let same : gather net t v.chunk_ids ≡ inr bytes =
      gather-same net s t req.chunk_ids refl (same_tables s _ _) ∙ e in
    rw (absent, handle_create_version)
      (
        v,
        refl,
        ap (λ (u : Server). download_file net u id (pos 0)) first
            ∙ download-save net _ _ id (pos 0)
            ∙ download-save net _ _ id (pos 0)
            ∙ download-listed net t id file v bytes listed versions same,
      )

module _ {W : Type 0} (f : Floats) (sort : Sort) (order : VersionSort) (send : Send W)
    (clock : ℕ → Time) (fetch : W → Network) (start : World W) (crypto : Crypto String)
    (sha256 : List ℕ → String) (u : ChunkUploader) (file : LocalFile) where
  abbrev here : List Call → World W
  here cs = calls f sort order send clock start cs

  abbrev file_id : String
  file_id = upload_id (served f sort order send clock start) crypto sha256 u file

  -- The version that ends the upload.
  create_version-download :
      (cs : List Call) (hash : String) (ids : List String)
      → let s = (here cs).server in
        lookup file_id s.files ≡ none
        → versions_of s file_id ≡ []
        → gather (fetch (here cs).nodes) s ids ≡ inr file.content
        → (cs' : List Call) × (create_version
              (served f sort order send clock start)
              cs
              file_id
              file
              hash
              ids
              ""
            ≡ (cs', none))
          × (download_file (fetch (here cs').nodes) (here cs').server file_id (pos 0)
              ≡ content file.base file.content)
  unfolding create_version served call save_encryption_key
  create_version-download cs hash ids absent empty e =
      let v = here cs in
      let req = version_request file file_id hash ids in
      let (made, answered, whole) =
        handle_create_version-download order (fetch v.nodes) v.server (clock v.made) req
          file.content absent empty e in
      let reply =
        at_last-snoc f sort order send clock lost (on_create f sort order send clock) cs
          (create req) start
        ∙ ap create_answer answered in
      let cs' = cs ++ (create req ∷ []) in
      (
        cs',
        ap (after_create (served f sort order send clock start) cs' file_id "") reply,
        rw calls-snoc whole,
      )

  upload-plain :
      (random : Option (List ℕ)) (nonces : ℕ → Option (List ℕ)) (replicas : ℤ)
      → u.encrypt ≡ false
      → let peer = served f sort order send clock start in
        upload peer crypto sha256 u (opened file) random nonces replicas
        ≡ after_rounds peer crypto sha256 u file "" (
            upload_rounds peer crypto sha256 u file file_id "" nonces replicas
              (rounds_up file.size u.chunk_size)
              0
              ""
              [])
  unfolding upload upload_key
  upload-plain random nonces replicas plain =
      let empty : upload_key crypto u.encrypt random ≡ some "" = rw plain refl in
      rw (empty, upload) refl

  upload_data-plain :
      (iv : Option (List ℕ)) (piece : List ℕ)
      → u.encrypt ≡ false
      → upload_data crypto u.encrypt "" iv piece ≡ some piece
  unfolding upload_data
  upload_data-plain iv piece plain = rw plain refl

  -- Let each PUT to a node of a chunk, its name without slashes and URL characters, be answered with 200, each GET give what was put last, and no PUT touch
  -- another node. Let the clock give each call its own time, some node be usable, and the file's id be new to the
  -- server, and made of characters that mean nothing in a URL and are no slash. Then the client's upload of a readable file below 2^63 - 2^28 bytes, not encrypted, for one or more replicas,
  -- succeeds, and a download from the server then gives the file's content under its name.
  pub client_upload-download :
      IsSort sort
      → IsNetwork send fetch
      → IsApart send fetch
      → ((a b : ℕ) → clock a ≡ clock b → a ≡ b)
      → (k : ℕ) (random : Option (List ℕ)) (nonces : ℕ → Option (List ℕ)) (a : Node)
        (others : List Node)
      → start.server.synced ≡ true
      → IsRegistry start.server.nodes
      → available start.server.nodes [] ≡ a ∷ others
      → lookup file_id start.server.files ≡ none
      → versions_of start.server file_id ≡ []
      → is_plain file_id ≡ true
      → u.encrypt ≡ false
      → 0 < u.chunk_size
      → u.chunk_size ≤ 2 ^ 27
      → length file.content ≡ file.size
      → file.size < 2 ^ 63 - 2 ^ 28
      → ((i : ℕ) → file.unreadable i ≡ false)
      → let (cs, result) =
          upload
            (served f sort order send clock start)
            crypto
            sha256
            u
            (opened file)
            random
            nonces
            (pos (suc k)) in
        let v = here cs in
        (r : UploadResult) × (result ≡ inr r)
        × (r.file_id ≡ file_id)
        × (download_file (fetch v.nodes) v.server file_id (pos 0) ≡ content file.base file.content)
  unfolding manager_nodes calls
  client_upload-download contract up apart inj k random nonces a others synced registry e absent
        empty safe plain positive high size low readable =
      let peer = served f sort order send clock start in
      let nodes = start.server.nodes in
      let managed : manager_nodes start.server ≡ nodes = rw synced refl in
      let (n, ns, sel) = select_nodes-some f sort contract nodes k [] a others e in
      let all_known : All (IsKnown nodes) (n ∷ ns) =
        subst (λ ms. All (IsKnown nodes) ms) sel
          (select_nodes-IsKnown f sort contract nodes (pos (suc k)) [] registry) in
      let rounds = rounds_up file.size u.chunk_size in
      let (cs, ids, hash, sent, g) =
        upload_rounds-Gathers f sort order send clock fetch up apart start k nodes n ns sel
          all_known.0 file_id inj crypto sha256 u file "" nonces safe readable
          (λ i piece. upload_data-plain (nonces i) piece plain) rounds 0 "" [] refl managed in
      let whole = g.gathered ∙ ap inr (pieces_of_file u file size low positive high) in
      let (cs', created, downloaded) =
        create_version-download cs hash ids (rw g.same_files.files absent)
          (rw g.same_files.versions empty) whole in
      let result : UploadResult = record { file_id = file_id; chunks = ids; encryption_key = "" } in
      let run : upload peer crypto sha256 u (opened file) random nonces (pos (suc k))
          ≡ (cs', inr result) =
        upload-plain random nonces (pos (suc k)) plain
        ∙ ap (after_rounds peer crypto sha256 u file "") sent
        ∙ ap (result_of peer crypto sha256 u file "" ids) created in
      rw run (result, refl, refl, downloaded)
