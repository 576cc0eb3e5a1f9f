-- ===== src/WebDav.antt =====
-- The WebDAV server, internal/webdav/webdav.go: a table of files in memory. The handlers take no lock; each is
-- one step. The headers of replies and the XML text of `PROPFIND` are left out.
pub mod Table
use constelfs.Prelude.{
  ℕ, zero, suc, ◌-◌, String, Bool, true, false, List, [], ◌∷◌, ◌++◌, none, some, Map, lookup,
  insert, remove, ℤ, pos, negsuc, length, str_eq, ltb, if◌then◌else◌,
}
use constelfs.Prelude.Text.{trim_prefix}

-- `Mode` is 0644 for a file, and 0755 with the directory bit for a directory.
pub record FileInfo : Type 0 where
  pub name : String
  pub size : ℕ
  pub mod_time : ℕ
  pub is_dir : Bool
  pub content : List ℕ

abbrev pub Table : Type 0
Table = Map FileInfo

pub data Method : Type 0 where
  get put delete mkcol propfind options other : Method

pub data Reply : Type 0 where
  error : ℕ → String → Reply
  status : ℕ → Reply
  body : List ℕ → Reply
  properties : String → Bool → ℕ → ℕ → Reply
  -- The handler panics; net/http recovers and drops the connection.
  aborted : Reply

abbrev pub zeros : ℕ → List ℕ
zeros zero = []
zeros (suc n) = 0 ∷ zeros n

unfoldable pub handle_get : Table → String → Reply
handle_get files path = elim (lookup path files) [
  | none ↦ error 404 "Not found"
  | some file ↦ if file.is_dir then error 403 "Is a directory" else body file.content
]

-- `handlePut`: the length is that of the request's header, negative if there is none, and `first` is what one
-- `Read` of the body gives, no more than the length. What it does not fill is zero. `make` panics for a length
-- that is negative or above `longest`.
unfoldable pub handle_put : ℕ → Table → ℕ → String → ℤ → List ℕ → Table × Reply
handle_put longest files now path (negsuc n) first = (files, aborted)
handle_put longest files now path (pos n) first = if ltb longest n then (files, aborted) else (
  insert path
      (record {
        name = path;
        size = n;
        mod_time = now;
        is_dir = false;
        content = first ++ zeros (n - length first);
      })
      files,
  status 201,
)

unfoldable pub handle_delete : Table → String → Table × Reply
handle_delete files path = elim (lookup path files) [
  | none ↦ (files, error 404 "Not found")
  | some file ↦ (remove path files, status 204)
]

unfoldable pub handle_mkcol : Table → ℕ → String → Table × Reply
handle_mkcol files now path = elim (lookup path files) [
  | none ↦ (
    insert path (record { name = path; size = 0; mod_time = now; is_dir = true; content = [] })
        files,
    status 201,
  )
  | some file ↦ (files, error 405 "Already exists")
]

unfoldable pub handle_propfind : Table → String → Reply
handle_propfind files path = elim (lookup path files) [
  | none ↦ error 404 "Not found"
  | some file ↦ properties path file.is_dir file.size file.mod_time
]

-- A request: its method and path, the length of its body, and what one `Read` of it gives.
pub record Request : Type 0 where
  pub method : Method
  pub url : String
  pub content_length : ℤ
  pub first_read : List ℕ

-- The key of the table that a path stands for.
unfoldable pub key_of : String → String
key_of url = let path = trim_prefix url "/" in if str_eq path "" then "." else path

abbrev pub by_method : ℕ → Table → ℕ → Method → String → ℤ → List ℕ → Table × Reply
by_method longest files now get path n first = (files, handle_get files path)
by_method longest files now put path n first = handle_put longest files now path n first
by_method longest files now delete path n first = handle_delete files path
by_method longest files now mkcol path n first = handle_mkcol files now path
by_method longest files now propfind path n first = (files, handle_propfind files path)
by_method longest files now options path n first = (files, status 200)
by_method longest files now other path n first = (files, error 405 "Method not allowed")

unfoldable pub handle_request : ℕ → Table → ℕ → Request → Table × Reply
unfolding handle_get handle_put handle_delete handle_mkcol handle_propfind key_of
handle_request longest files now r =
    by_method longest files now r.method (key_of r.url) r.content_length r.first_read
