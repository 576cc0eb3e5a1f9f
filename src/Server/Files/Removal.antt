-- ===== src/Server/Files/Removal.antt =====
-- What deleting a file leaves behind (`deleteFile` in internal/server/file_manager.go).
use constelfs.Prelude.{String, none, some, lookup, ◌≡◌, lookup-remove, str_eq, if◌then◌else◌}
use constelfs.Server.State.{FileInfo, Server}
use constelfs.Server.Files.{versions_of, drop_file, delete_file_by_id}
use constelfs.Server.Files.Deletion.{is_chunk_of, unless, lookup-delete_all, delete_all-SameFiles}
use constelfs.Server.Files.Invariant.{files-save, versions-save}
use constelfs.Server.Files.Rollback.{chunks-save}

-- Deleting a file that is known removes it and its versions, and of the chunks exactly those of its versions;
-- all other files, versions and chunks stay as they are.
pub delete_file_by_id-exact :
    (s : Server) (id : String) (file : FileInfo)
    → lookup id s.files ≡ some file
    → let t = (delete_file_by_id s id).0 in
      ((j : String) → lookup j t.files ≡ (if str_eq id j then none else lookup j s.files))
      × ((j : String) → lookup j t.versions ≡ (if str_eq id j then none else lookup j s.versions))
      × ((c : String)
          → lookup c t.chunks ≡ unless (is_chunk_of (versions_of s id) c) (lookup c s.chunks))
unfolding delete_file_by_id drop_file
delete_file_by_id-exact s id file e =
    let same = delete_all-SameFiles s (versions_of s id) in
    rw (e, delete_file_by_id)
      (
        λ j. rw (files-save, same.files) (lookup-remove id j s.files),
        λ j. rw (versions-save, same.versions) (lookup-remove id j s.versions),
        λ c. rw chunks-save (lookup-delete_all s (versions_of s id) c),
      )
