-- ===== src/Server/Files.antt =====
-- The file manager, internal/server/file_manager.go: metadata, versions and deletion. Upload and
-- download are in `Server.Content`. The handlers take no lock; each is modelled as one step.
pub mod Histories
pub mod Deletion
pub mod Retention
pub mod Shortened
pub mod Invariant
pub mod Rollback
pub mod Removal
use constelfs.Prelude.{
  String, false, ◌||◌, List, [], ◌∷◌, ◌++◌, Option, none, some, Map, lookup, insert, remove, values,
  ℤ, pos, ◌-ℤ◌, length, select, str_eq, eq_ℤ, if◌then◌else◌, get_or_nil,
}
use constelfs.Prelude.Text.{has_prefix}
use constelfs.Server.State.{
  Time, FileInfo, FileVersion, ChunkInfo, Server, save, save_file, save_version, delete_file,
  Response, error, success, file_list, file_info, version_created, rolled_back, file_created,
}
use constelfs.Server.Nodes.{Method, post}
use constelfs.Server.Versions.{
  VersionSort, create_new_version, rollback_to_version, cleanup_old_versions, delete_version,
}

-- The body of a request to create a version.
pub record CreateVersionRequest : Type 0 where
  pub file_id : String
  pub file_name : String
  pub file_path : String
  pub file_size : ℤ
  pub hash : String
  pub chunk_ids : List String
  pub node_ids : List String

-- `fm.versions[id]`, nil where there is none.
abbrev pub versions_of : Server → String → List FileVersion
versions_of s id = get_or_nil (lookup id s.versions)

-- A FileInfo literal: the fields that it does not name are zero.
abbrev pub new_file : Time → String → String → String → ℤ → Time → FileInfo
new_file created id name path size updated = record {
  file_id = id;
  file_name = name;
  file_path = path;
  is_directory = false;
  latest_version = 0;
  version_count = pos 0;
  max_versions = 3;
  encryption_key = "";
  size = size;
  created_at = created;
  updated_at = updated;
}

abbrev pub or_new : Option FileInfo → FileInfo → FileInfo
or_new none f = f
or_new (some file) f = file

-- `listFiles`: `HasPrefix` on the path, unless the directory is the root or not given.
unfoldable pub list_files : Server → String → Response
list_files s dir =
    let dir_path = if str_eq dir "" then "/" else dir in
    file_list
      (select (λ (f : FileInfo). str_eq dir_path "/" || has_prefix f.file_path dir_path)
        (values s.files))
      dir_path

unfoldable pub get_file : Server → String → Response
get_file s id = elim (lookup id s.files) [
  | none ↦ error 404 "{\"error\":\"File not found\"}"
  | some file ↦ file_info file (versions_of s id)
]

-- The first version of a number: the search loop of `rollbackFile` and `downloadFile`.
unfoldable pub find_version : ℤ → List FileVersion → Option FileVersion
find_version n [] = none
find_version n (v ∷ vs) =
    let rest = find_version n vs in if eq_ℤ (pos v.version) n then some v else rest

-- The loops of `deleteFile` over the versions and their chunks.
unfoldable pub delete_all : Server → List FileVersion → Server
delete_all s [] = s
delete_all s (v ∷ vs) = delete_all (delete_version s v) vs

-- `deleteFile` behind its test.
unfoldable pub drop_file : Server → String → Server
unfolding delete_all save
drop_file s id =
    let t = delete_all s (versions_of s id) in
    save (delete_file id) (record t { files = remove id t.files; versions = remove id t.versions })

unfoldable pub delete_file_by_id : Server → String → Server × Response
unfolding drop_file
delete_file_by_id s id = elim (lookup id s.files) [
  | none ↦ (s, error 404 "{\"error\":\"File not found\"}")
  | some file ↦ (drop_file s id, success)
]

-- The list without its first version of a number: `append(versions[:i], versions[i+1:]...)`.
unfoldable pub without_version : ℤ → List FileVersion → List FileVersion
without_version n [] = []
without_version n (v ∷ vs) =
    let rest = without_version n vs in if eq_ℤ (pos v.version) n then vs else v ∷ rest

-- The branch of `deleteVersion` that finds the version `v`.
unfoldable pub drop_version : Server → String → FileInfo → ℤ → FileVersion → Server
unfolding without_version save
drop_version s id file n v =
    let t = delete_version s v in
    let file' = record file { version_count = file.version_count -ℤ pos 1 } in
    save (save_file file') (record t {
      files = insert id file' t.files;
      versions = insert id (without_version n (versions_of s id)) t.versions;
    })

unfoldable pub delete_version_of : Server → String → ℤ → Server × Response
unfolding find_version drop_version
delete_version_of s id n = elim (lookup id s.files) [
  | none ↦ (s, error 404 "{\"error\":\"File not found\"}")
  | some file ↦ elim (find_version n (versions_of s id)) [
    | none ↦ (s, error 404 "{\"error\":\"Version not found\"}")
    | some v ↦ (drop_version s id file n v, success)
  ]
]

module _ (sort : VersionSort) where
  -- What `HandleCreateVersion`, `uploadFile` and `rollbackFile` do with a new version: append it,
  -- clean up, and save. `file` is the file with the version counted.
  unfoldable pub add_version : Server → String → FileInfo → FileVersion → Server
  unfolding save
  add_version s id file v =
      let (t, file', kept) = cleanup_old_versions sort s file (versions_of s id ++ (v ∷ [])) in
      save (save_version id v) (
        save (save_file file')
          (record t { files = insert id file' t.files; versions = insert id kept t.versions }))

  unfoldable pub handle_create_version :
      Server → Time → Method → Option CreateVersionRequest → Server × Response
  unfolding create_new_version add_version
  handle_create_version s now post none = (s, error 400 "Invalid request")
  handle_create_version s now post (some req) =
      let made = new_file now req.file_id req.file_name req.file_path (pos 0) 0 in
      let file = or_new (lookup req.file_id s.files) made in
      let (file', v) =
        create_new_version now file req.chunk_ids req.node_ids req.file_size req.hash in
      (add_version s req.file_id file' v, version_created v)
  handle_create_version s now _ req = (s, error 405 "Method not allowed")

  unfoldable pub rollback_file : Server → Time → String → Option ℤ → Server × Response
  unfolding find_version rollback_to_version add_version
  rollback_file s now id req = elim (lookup id s.files) [
    | none ↦ (s, error 404 "{\"error\":\"File not found\"}")
    | some file ↦ elim req [
      | none ↦ (s, error 400 "Invalid request")
      | some n ↦ elim (find_version n (versions_of s id)) [
        | none ↦ (s, error 404 "{\"error\":\"Version not found\"}")
        | some target ↦
            let (file', v) = rollback_to_version now file target in
            (add_version s id file' v, rolled_back v)
      ]
    ]
  ]

-- The replicas of the first chunk that the storage manager knows.
unfoldable pub first_replicas : Map ChunkInfo → List String → List String
first_replicas chunks [] = []
first_replicas chunks (id ∷ ids) = elim (lookup id chunks) [
  | none ↦ first_replicas chunks ids
  | some c ↦ c.replicas
]

-- `createFileMeta`: the body is a CreateVersionRequest without hash and node ids.
unfoldable pub create_file_meta : Server → Time → Option CreateVersionRequest → Server × Response
unfolding create_new_version first_replicas save
create_file_meta s now none = (s, error 400 "Invalid request")
create_file_meta s now (some req) =
    let file = new_file now req.file_id req.file_name req.file_path req.file_size now in
    let node_ids = first_replicas s.chunks req.chunk_ids in
    let (file', v) = create_new_version now file req.chunk_ids node_ids req.file_size "" in
    if str_eq req.file_id "" || str_eq req.file_name ""
    then (s, error 400 "file_id and file_name are required")
    else (
      save (save_version req.file_id v) (
          save (save_file file') (record s {
            files = insert req.file_id file' s.files;
            versions = insert req.file_id (versions_of s req.file_id ++ (v ∷ [])) s.versions;
          })),
      file_created req.file_id req.file_name req.file_size (length req.chunk_ids),
    )
