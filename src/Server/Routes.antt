-- ===== src/Server/Routes.antt =====
-- The routes of the file manager: `HandleFile` and `HandleFiles` of internal/server/file_manager.go.
use constelfs.Prelude.{
  String, Bool, true, false, List, [], ◌∷◌, Option, none, some, ℤ, str_eq, ◌&&◌, if◌then◌else◌, pos,
}
use constelfs.Prelude.Text.{atoi, trim_prefix, split}
use constelfs.Server.State.{Time, Server, Response, error}
use constelfs.Server.Nodes.{Method, get, post, delete}
use constelfs.Server.Transfer.{Network}
use constelfs.Server.Versions.{VersionSort}
use constelfs.Server.Files.{
  list_files, get_file, delete_file_by_id, delete_version_of, rollback_file, create_file_meta,
  CreateVersionRequest,
}
use constelfs.Server.Downloads.{download_file}

-- `HandleFiles`; `dir` is the query's `dir`.
unfoldable pub handle_files :
    Server → Time → Method → String → Option CreateVersionRequest → Server × Response
unfolding list_files create_file_meta
handle_files s now get dir body = (s, list_files s dir)
handle_files s now post dir body = create_file_meta s now body
handle_files s now _ dir body = (s, error 405 "Method not allowed")

abbrev not_found : Server → Server × Response
not_found s = (s, error 404 "Not found")

abbrev pub is_get : Method → Bool
is_get get = true
is_get _ = false

abbrev pub is_post : Method → Bool
is_post post = true
is_post _ = false

abbrev is_delete : Method → Bool
is_delete delete = true
is_delete _ = false

module _ (sort : VersionSort) (net : Network) where
  -- A number in the path that is none is refused.
  abbrev with_version : Server → String → (ℤ → Server × Response) → Server × Response
  with_version s number act = elim (atoi number) [
    | none ↦ (s, error 400 "Invalid version")
    | some n ↦ act n
  ]

  -- The switch of `HandleFile` on the parts of the path; `target` is the version that a rollback's
  -- body names.
  unfoldable pub dispatch_file : Server → Time → Method → Option ℤ → List String → Server × Response
  unfolding get_file delete_file_by_id delete_version_of rollback_file download_file
  dispatch_file s now m target [] = (s, error 400 "Invalid path")
  dispatch_file s now m target (id ∷ []) =
      if is_get m
      then (s, get_file s id)
      else if is_delete m
      then delete_file_by_id s id
      else not_found s
  dispatch_file s now m target (id ∷ a ∷ []) =
      if str_eq a "download" && is_get m
      then (s, download_file net s id (pos 0))
      else if str_eq a "rollback" && is_post m
      then rollback_file sort s now id target
      else not_found s
  dispatch_file s now m target (id ∷ a ∷ n ∷ []) =
      if str_eq a "versions" && is_delete m
      then with_version s n (delete_version_of s id)
      else not_found s
  dispatch_file s now m target (id ∷ a ∷ n ∷ b ∷ []) =
      if str_eq a "versions" && str_eq b "download" && is_get m
      then with_version s n (λ k. (s, download_file net s id k))
      else not_found s
  dispatch_file s now m target (id ∷ a ∷ n ∷ b ∷ c ∷ more) = not_found s

  unfoldable pub handle_file : Server → Time → Method → Option ℤ → String → Server × Response
  unfolding dispatch_file
  handle_file s now m target path =
      dispatch_file s now m target (split (trim_prefix path "/api/v1/files/"))
