-- ===== src/Server/Files/Invariant.antt =====
-- The file table and the version table of the file manager (internal/server/file_manager.go) agree
-- after any requests but those to `createFileMeta`; uploads are in `Server.Content.Tables`.
use constelfs.Prelude.{
  String, List, [], ◌∷◌, ◌++◌, Option, none, some, lookup, insert, remove, ◌≡◌, refl, ap, arith, ℤ,
  pos, Bool-cases, Option-cases, inl, inr, lookup-insert, lookup-remove, str_eq,
}
use mathlib.Core.Path.{subst}
use constelfs.Prelude.Sort.{IsSort}
use constelfs.Server.State.{Time, FileInfo, FileVersion, Server, save, Write}
use constelfs.Server.Nodes.{Method, post}
use constelfs.Server.Versions.{VersionSort, create_new_version, rollback_to_version}
use constelfs.Server.Files.{
  CreateVersionRequest, versions_of, or_new, new_file, add_version, handle_create_version,
  rollback_file, find_version, drop_file, drop_version, delete_file_by_id, delete_version_of,
}
use constelfs.Server.Files.Shortened.{without-IsHistory}
use constelfs.Server.Files.Histories.{IsHistory}
use constelfs.Server.Files.Deletion.{delete_all-SameFiles, delete_version-SameFiles}
use constelfs.Server.Files.Retention.{
  Extends, Extends-IsHistory, cleanup-IsHistory, cleanup-SameFiles,
}

abbrev pub HistoryOf : Option FileInfo → List FileVersion → Type 0
HistoryOf none vs = vs ≡ []
HistoryOf (some file) vs = IsHistory file vs

-- Every file has a history, and there are versions of no other id.
abbrev pub Histories : Server → Type 0
Histories s = (id : String) → HistoryOf (lookup id s.files) (versions_of s id)

-- One entry of both tables is written, the others stay.
Histories-insert :
    (s t : Server) (id : String) (file : FileInfo) (vs : List FileVersion)
    → t.files ≡ insert id file s.files
    → t.versions ≡ insert id vs s.versions
    → IsHistory file vs
    → Histories s
    → Histories t
Histories-insert s t id file vs ef ev new h j = elim (Bool-cases (str_eq id j)) [
  | inl e ↦ rw (ef, ev, lookup-insert id j file s.files, lookup-insert id j vs s.versions, e) new
  | inr e ↦ rw (ef, ev, lookup-insert id j file s.files, lookup-insert id j vs s.versions, e) (h j)
]

Histories-remove :
    (s t : Server) (id : String)
    → t.files ≡ remove id s.files
    → t.versions ≡ remove id s.versions
    → Histories s
    → Histories t
Histories-remove s t id ef ev h j = elim (Bool-cases (str_eq id j)) [
  | inl e ↦ rw (ef, ev, lookup-remove id j s.files, lookup-remove id j s.versions, e) refl
  | inr e ↦ rw (ef, ev, lookup-remove id j s.files, lookup-remove id j s.versions, e) (h j)
]

pub files-save : (w : Write) (s : Server) → (save w s).files ≡ s.files
unfolding save
files-save w s = ground arith

pub versions-save : (w : Write) (s : Server) → (save w s).versions ≡ s.versions
unfolding save
versions-save w s = ground arith

pub created-Extends :
    (now : Time) (file : FileInfo) (chunk_ids node_ids : List String) (size : ℤ) (hash : String)
    → let made = create_new_version now file chunk_ids node_ids size hash in
      Extends file made.0 made.1
unfolding create_new_version
created-Extends now file chunk_ids node_ids size hash = record {
  number = refl;
  latest = refl;
  count = refl;
  limit = refl;
}

pub rolled_back-Extends :
    (now : Time) (file : FileInfo) (target : FileVersion)
    → let made = rollback_to_version now file target in Extends file made.0 made.1
unfolding rollback_to_version
rolled_back-Extends now file target = record {
  number = refl;
  latest = refl;
  count = refl;
  limit = refl;
}

-- A file that is not known starts with an empty history.
pub or_new-IsHistory :
    (o : Option FileInfo) (made : FileInfo) (vs : List FileVersion)
    → made.version_count ≡ pos 0
    → HistoryOf o vs
    → IsHistory (or_new o made) vs
or_new-IsHistory none made vs zero_count h =
    rw h (record { ascending = tt; bounded = tt; counted = zero_count })
or_new-IsHistory (some file) made vs zero_count h = h

drop_file-Histories : (s : Server) (id : String) → Histories s → Histories (drop_file s id)
unfolding drop_file
drop_file-Histories s id h =
    let same = delete_all-SameFiles s (versions_of s id) in
    Histories-remove s (drop_file s id) id (rw files-save (ap (remove id) same.files))
      (rw versions-save (ap (remove id) same.versions)) h

delete_file-Histories :
    (s : Server) (id : String) → Histories s → Histories (delete_file_by_id s id).0
unfolding delete_file_by_id
delete_file-Histories s id h = elim (Option-cases (lookup id s.files)) [
  | inl e ↦ rw (e, delete_file_by_id) h
  | inr (file, e) ↦ rw (e, delete_file_by_id) (drop_file-Histories s id h)
]

drop_version-Histories :
    (s : Server) (id : String) (file : FileInfo) (n : ℤ) (v : FileVersion)
    → find_version n (versions_of s id) ≡ some v
    → IsHistory file (versions_of s id)
    → Histories s
    → Histories (drop_version s id file n v)
unfolding drop_version
drop_version-Histories s id file n v f old h =
    let same = delete_version-SameFiles s v in
    Histories-insert s (drop_version s id file n v) id _ _
      (rw files-save (ap (insert id _) same.files))
      (rw versions-save (ap (insert id _) same.versions))
      (without-IsHistory file n (versions_of s id) f old) h

-- The history of a file that is known.
lookup-IsHistory :
    (s : Server) (id : String) {file : FileInfo}
    → Histories s
    → lookup id s.files ≡ some file
    → IsHistory file (versions_of s id)
lookup-IsHistory s id h e = subst (λ (o : Option FileInfo). HistoryOf o (versions_of s id)) e (h id)

delete_version-Histories :
    (s : Server) (id : String) (n : ℤ) → Histories s → Histories (delete_version_of s id n).0
unfolding delete_version_of
delete_version-Histories s id n h = elim (Option-cases (lookup id s.files)) [
  | inl e ↦ rw (e, delete_version_of) h
  | inr (file, e) ↦ elim (Option-cases (find_version n (versions_of s id))) [
    | inl f ↦ rw (e, delete_version_of) (rw (f, delete_version_of) h)
    | inr (v, f) ↦
        rw (e, delete_version_of)
          (rw (f, delete_version_of)
            (drop_version-Histories s id file n v f (lookup-IsHistory s id h e) h))
  ]
]

module _ (sort : VersionSort) (contract : IsSort sort) where
  pub add_version-Histories :
      (s : Server) (id : String) (file file' : FileInfo) (v : FileVersion)
      → Extends file file' v
      → IsHistory file (versions_of s id)
      → Histories s
      → Histories (add_version sort s id file' v)
  unfolding add_version
  add_version-Histories s id file file' v e new h =
      let vs = versions_of s id ++ (v ∷ []) in
      let same = cleanup-SameFiles sort contract s file' vs in
      Histories-insert s (add_version sort s id file' v) id _ _
        (rw (files-save, files-save) (ap (insert id _) same.files))
        (rw (versions-save, versions-save) (ap (insert id _) same.versions))
        (cleanup-IsHistory sort contract s file' vs (Extends-IsHistory file file' v _ e new)) h

  create-Histories :
      (s : Server) (now : Time) (m : Method) (req : Option CreateVersionRequest)
      → Histories s
      → Histories (handle_create_version sort s now m req).0
  unfolding handle_create_version
  create-Histories s now post none h = h
  create-Histories s now post (some req) h =
      let made = new_file now req.file_id req.file_name req.file_path (pos 0) 0 in
      let file = or_new (lookup req.file_id s.files) made in
      add_version-Histories s req.file_id file _ _
        (created-Extends now file req.chunk_ids req.node_ids req.file_size req.hash)
        (or_new-IsHistory (lookup req.file_id s.files) made _ refl (h req.file_id)) h
  create-Histories s now _ req h = h

  rollback-Histories :
      (s : Server) (now : Time) (id : String) (req : Option ℤ)
      → Histories s
      → Histories (rollback_file sort s now id req).0
  unfolding rollback_file
  rollback-Histories s now id req h = elim (Option-cases (lookup id s.files)) [
    | inl e ↦ rw (e, rollback_file) h
    | inr (file, e) ↦ elim (Option-cases req) [
      | inl r ↦ rw (e, rollback_file) (rw (r, rollback_file) h)
      | inr (n, r) ↦ elim (Option-cases (find_version n (versions_of s id))) [
        | inl f ↦ rw (e, rollback_file) (rw (r, rollback_file) (rw (f, rollback_file) h))
        | inr (target, f) ↦
            rw (e, rollback_file)
              (rw (r, rollback_file)
                (rw (f, rollback_file)
                  (add_version-Histories s id file _ _ (rolled_back-Extends now file target)
                    (lookup-IsHistory s id h e) h)))
      ]
    ]
  ]

-- The requests that change files and versions, but for `createFileMeta` and uploads.
pub data Request : Type 0 where
  create : Method → Option CreateVersionRequest → Request
  rollback : String → Option ℤ → Request
  delete_file : String → Request
  delete_version : String → ℤ → Request

module _ (sort : VersionSort) where
  unfoldable pub serve : Server → Time × Request → Server
  serve s (now, create m req) = (handle_create_version sort s now m req).0
  serve s (now, rollback id n) = (rollback_file sort s now id n).0
  serve s (now, delete_file id) = (delete_file_by_id s id).0
  serve s (now, delete_version id n) = (delete_version_of s id n).0

  unfoldable pub serve_all : Server → List (Time × Request) → Server
  unfolding serve
  serve_all s [] = s
  serve_all s (r ∷ rs) = serve_all (serve s r) rs

  module _ (contract : IsSort sort) where
    serve-Histories : (s : Server) (r : Time × Request) → Histories s → Histories (serve s r)
    unfolding serve
    serve-Histories s (now, create m req) h = create-Histories sort contract s now m req h
    serve-Histories s (now, rollback id n) h = rollback-Histories sort contract s now id n h
    serve-Histories s (now, delete_file id) h = delete_file-Histories s id h
    serve-Histories s (now, delete_version id n) h = delete_version-Histories s id n h

    -- Let the tables agree at first. Then after any sequence of these requests, valid or not, every
    -- file's versions ascend, none is above its latest version, and the file counts them right.
    pub serve_all-Histories :
        (s : Server) (rs : List (Time × Request)) → Histories s → Histories (serve_all s rs)
    unfolding serve_all
    serve_all-Histories s [] h = h
    serve_all-Histories s (r ∷ rs) h = serve_all-Histories (serve s r) rs (serve-Histories s r h)
