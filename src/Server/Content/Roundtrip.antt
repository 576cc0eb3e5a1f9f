-- ===== src/Server/Content/Roundtrip.antt =====
-- What a download gives of a file that was uploaded (`uploadFile` and `downloadFile` of
-- internal/server/file_manager.go).
use mathlib.Core.Path.{subst}
use constelfs.Prelude.{
  true, ℕ, zero, suc, String, Bool, false, List, [], ◌∷◌, Option, none, some, lookup, insert, ◌≡◌,
  ◌<◌, ◌*◌, ◌^◌, ◌-◌, ◌==◌, refl, ap, ◌∙◌, arith, ℤ, pos, negsuc, inl, inr, Map, length, take_all,
  str_eq, if◌then◌else◌, Bool-cases, lookup-insert_self, get_or_nil, All,
}
use constelfs.Prelude.Sort.{IsSort}
use constelfs.Prelude.Text.{concat, decimal, atoi}
use constelfs.Client.Chunker.{calculate_chunk_size, rounds_up}
use constelfs.Client.Chunker.Pieces.{rounds_cover}
use constelfs.Prelude.Text.Urls.{is_plain, is_plain-concat, decimal-is_plain}
use constelfs.Server.State.{
  Time, Node, FileInfo, FileVersion, Server, manager_nodes, uploaded, content,
}
use constelfs.Server.Scheduler.{Floats, Sort, select_nodes, available}
use constelfs.Server.Scheduler.Known.{IsRegistry, IsKnown, select_nodes-IsKnown, select_nodes-some}
use constelfs.Server.Storage.{or_three}
use constelfs.Server.Transfer.{Network}
use constelfs.Server.Versions.{VersionSort, create_new_version}
use constelfs.Server.Files.{versions_of, new_file}
use constelfs.Server.Downloads.{gather, download_file}
use constelfs.Server.Content.{
  Send, received, replicas_of, positive_or, upload_loop, save_chunks, store_upload, store_content,
  upload_file,
}
use constelfs.Server.Content.Delivery.{IsNetwork}
use constelfs.Server.Content.Tables.{upload_loop-SameFiles}
use constelfs.Server.Content.Reading.{
  gather-same, download-save, download-listed, add_version-first,
}
use constelfs.Server.Content.Loop.{upload_loop-Gathers}

-- An upload asks for a positive number of replicas.
replicas_of-positive : (query : String) → (k : ℕ) × (or_three (replicas_of query) ≡ pos (suc k))
unfolding replicas_of
replicas_of-positive query = elim (Bool-cases (str_eq query "")) [
  | inl e ↦ (2, rw e refl)
  | inr e ↦ rw e (given (atoi query))
]
  where
    given : (o : Option ℤ) → (k : ℕ) × (or_three (positive_or (pos 3) o) ≡ pos (suc k))
    given none = (2, refl)
    given (some (pos zero)) = (2, refl)
    given (some (pos (suc n))) = (n, ground arith)
    given (some (negsuc n)) = (2, ground arith)

module _ {W : Type 0} (f : Floats) (sort : Sort) (sha256 : List ℕ → String) (send : Send W)
    (order : VersionSort) where
  download-save_chunks :
      (net : Network) (file_id : String) (size : ℤ) (replicas ids : List String) (s : Server)
      (id : String) (n : ℤ)
      → download_file net (save_chunks f sort sha256 send file_id size replicas ids s) id n
        ≡ download_file net s id n
  unfolding save_chunks
  download-save_chunks net file_id size replicas [] s id n = refl
  download-save_chunks net file_id size replicas (c ∷ ids) s id n =
      download-save_chunks net file_id size replicas ids _ id n ∙ download-save net s _ id n

  same_tables :
      (s : Server) (files : Map FileInfo) (versions : Map (List FileVersion))
      → manager_nodes (record s { files = files; versions = versions }) ≡ manager_nodes s
  unfolding manager_nodes
  same_tables s files versions = refl

  -- The file and the version that the first upload makes.
  first_upload :
      Time → String → String → String → List ℕ → List String → List String → FileInfo × FileVersion
  unfolding create_new_version
  first_upload now id name path bytes ids addrs =
      let size = pos (length bytes) in
      create_new_version now (new_file now id name path size 0) ids addrs size (sha256 bytes)

  store_upload-download :
      (net : Network) (s : Server) (now : Time) (id name path : String) (bytes : List ℕ)
      (ids addrs : List String)
      → lookup id s.files ≡ none
      → versions_of s id ≡ []
      → gather net s ids ≡ inr bytes
      → let (t, resp) = store_upload f sort sha256 send order s now id name path bytes ids addrs in
        let v = (first_upload now id name path bytes ids addrs).1 in
        (resp ≡ uploaded id name (pos (length bytes)) (length ids) v)
        × (download_file net t id (pos 0) ≡ content name bytes)
  unfolding store_upload first_upload create_new_version
  store_upload-download net s now id name path bytes ids addrs absent empty e =
      let (file, v) = first_upload now id name path bytes ids addrs in
      let t : Server = record s {
        files = insert id file s.files;
        versions = insert id (v ∷ []) s.versions;
      } in
      let first = add_version-first order s id file v empty refl in
      let listed : lookup id t.files ≡ some file = lookup-insert_self id file s.files in
      let versions : versions_of t id ≡ v ∷ [] =
        ap get_or_nil (lookup-insert_self id (v ∷ []) s.versions) in
      let same : gather net t v.chunk_ids ≡ inr bytes =
        gather-same net s t ids refl (same_tables s _ _) ∙ e in
      rw (absent, store_upload)
        (
          refl,
          download-save_chunks net id _ addrs ids _ id (pos 0)
              ∙ ap (λ (u : Server). download_file net u id (pos 0)) first
              ∙ download-save net _ _ id (pos 0)
              ∙ download-save net _ _ id (pos 0)
              ∙ download-listed net t id file v bytes listed versions same,
        )

  store_content-run :
      (id : String) (ended : Time) (clock : ℕ → Time) (unreadable : ℕ → Bool)
      (query name path : String) (bytes : List ℕ) (s : Server) (w : W) (ids addrs : List String)
      → let chunk = calculate_chunk_size (length bytes) in
        let u =
          upload_loop f sort sha256 send clock unreadable id
            (replicas_of query)
            chunk
            (rounds_up (length bytes) chunk)
            0
            bytes
            s
            w in
        let stored =
          store_upload f sort sha256 send order u.server ended id name path bytes ids addrs in
        0 < chunk
        → u.result ≡ inr (ids, addrs)
        → store_content f sort sha256 send order id ended clock unreadable query name path bytes s w
          ≡ (stored.0, u.nodes, stored.1, u.tasks)
  unfolding store_content
  store_content-run id ended clock unreadable query name path bytes s w ids addrs positive gives =
      let nonzero : (calculate_chunk_size (length bytes) == 0) ≡ false = ground arith in
      rw (gives, store_content) (rw (nonzero, store_content) refl)

  stamped-is_plain :
      (name : String) (now : Time)
      → is_plain name ≡ true
      → is_plain (concat (concat name "_") (decimal now)) ≡ true
  unfolding is_plain
  stamped-is_plain name now plain = ground (
    arith,
    is_plain-concat (concat name "_") (decimal now),
    is_plain-concat name "_",
    decimal-is_plain now,
    plain,
  )

  store_content-download :
      (fetch : W → Network)
      → IsSort sort
      → IsNetwork send fetch
      → (id : String) (ended : Time) (clock : ℕ → Time) (unreadable : ℕ → Bool)
        (query name path : String) (bytes : List ℕ) (s : Server) (w : W) (a : Node)
        (others : List Node)
      → is_plain id ≡ true
      → ((i j : ℕ) → clock i ≡ clock j → i ≡ j)
      → ((i : ℕ) → unreadable i ≡ false)
      → IsRegistry (manager_nodes s)
      → available (manager_nodes s) [] ≡ a ∷ others
      → lookup id s.files ≡ none
      → versions_of s id ≡ []
      → 0 < length bytes
      → length bytes < 2 ^ 63 - 2 ^ 28
      → let (t, w', resp, tasks) =
          store_content f sort sha256 send order id ended clock unreadable query name path bytes s
            w in
        (v : FileVersion) × (resp ≡ uploaded id name (pos (length bytes)) (length v.chunk_ids) v)
        × (v.hash ≡ sha256 bytes)
        × (download_file (fetch w') t id (pos 0) ≡ content name bytes)
  unfolding first_upload create_new_version
  store_content-download fetch contract up id ended clock unreadable query name path bytes s w a
        others plain inj readable registry e absent empty positive bounded =
      let chunk = calculate_chunk_size (length bytes) in
      let (size, cover) = rounds_cover (length bytes) bounded positive in
      let (k, wanted) = replicas_of-positive query in
      let (n, ns, sel) = select_nodes-some f sort contract (manager_nodes s) k [] a others e in
      let chosen : select_nodes f sort (manager_nodes s) (or_three (replicas_of query)) []
          ≡ n ∷ ns =
        rw wanted sel in
      let all_known : All (IsKnown (manager_nodes s)) (n ∷ ns) =
        subst (λ ms. All (IsKnown (manager_nodes s)) ms) sel
          (select_nodes-IsKnown f sort contract (manager_nodes s) (pos (suc k)) [] registry) in
      let rounds = rounds_up (length bytes) chunk in
      let u =
        upload_loop f sort sha256 send clock unreadable id (replicas_of query) chunk rounds 0 bytes
          s w in
      let g =
        upload_loop-Gathers f sort sha256 send fetch up clock unreadable id (replicas_of query)
          (manager_nodes s) plain inj readable n ns chosen all_known.0 chunk rounds bytes s w refl
          size in
      let same =
        upload_loop-SameFiles f sort sha256 send clock unreadable id (replicas_of query) chunk
          rounds 0 bytes s w in
      let whole = g.gathered ∙ ap inr (take_all (rounds * chunk) bytes cover) in
      let stored =
        store_upload-download (fetch u.nodes) u.server ended id name path bytes g.ids g.addrs
          (rw same.files absent) (rw same.versions empty) whole in
      rw
        (store_content-run id ended clock unreadable query name path bytes s w g.ids g.addrs size
          g.gives)
        ((first_upload ended id name path bytes g.ids g.addrs).1, stored.0, refl, stored.1)

  -- Let each PUT to a node of a chunk, its name without slashes and URL characters, be answered with 200 and each GET give what was put last, let some
  -- node be usable, the rounds of the upload have different times, its temporary file be readable, its id be
  -- new, and its name have no slash and no character that means something in a URL. Then the upload of at least one byte and fewer than 2^63 - 2^28 is answered as uploaded, with a
  -- version of the content's hash, and a download of the file's latest version gives the content.
  pub upload_file-download :
      (fetch : W → Network)
      → IsSort sort
      → IsNetwork send fetch
      → (now ended : Time) (clock : ℕ → Time) (unreadable : ℕ → Bool) (query given path : String)
        (bytes : List ℕ) (s : Server) (w : W) (a : Node) (others : List Node)
      → let name = if str_eq given "" then "unnamed" else given in
        let id = concat (concat name "_") (decimal now) in
        is_plain name ≡ true
        → ((i j : ℕ) → clock i ≡ clock j → i ≡ j)
        → ((i : ℕ) → unreadable i ≡ false)
        → IsRegistry (manager_nodes s)
        → available (manager_nodes s) [] ≡ a ∷ others
        → lookup id s.files ≡ none
        → versions_of s id ≡ []
        → 0 < length bytes
        → length bytes < 2 ^ 63 - 2 ^ 28
        → let (t, w', resp, tasks) =
            upload_file f sort sha256 send order now ended clock unreadable query
              (received given path bytes)
              s
              w in
          (v : FileVersion) × (resp ≡ uploaded id name (pos (length bytes)) (length v.chunk_ids) v)
          × (v.hash ≡ sha256 bytes)
          × (download_file (fetch w') t id (pos 0) ≡ content name bytes)
  unfolding upload_file
  upload_file-download fetch contract up now ended clock unreadable query given path bytes s w a
        others plain =
      let name = if str_eq given "" then "unnamed" else given in
      store_content-download fetch contract up (concat (concat name "_") (decimal now)) ended clock
        unreadable query name (if str_eq path "" then concat "/" given else path) bytes s w a others
        (stamped-is_plain name now plain)
