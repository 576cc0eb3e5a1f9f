-- ===== src/Examples/WebDavs.antt =====
-- The theorem on the WebDAV table, applied.
use constelfs.Prelude.{ℕ, String, List, [], ◌∷◌, pos, ◌≡◌, refl, lookup, ◌^◌}
use constelfs.WebDav.{Table, Method, get, put, mkcol, delete, Request, handle_request}
use constelfs.WebDav.Table.{serve, answer, entry_of, entry_after, handle_get-serve}

abbrev no_files : Table
no_files = []

abbrev request : Method → String → List ℕ → Request
request m url first = record { method = m; url = url; content_length = pos 4; first_read = first }

-- A directory and two files, the first read in part; the second is deleted.
abbrev requests : List (ℕ × Request)
requests =
    (1, request mkcol "/docs" [])
    ∷ (2, request put "/docs/a" (1 ∷ 2 ∷ []))
    ∷ (3, request put "/docs/b" (1 ∷ 2 ∷ 3 ∷ 4 ∷ []))
    ∷ (4, request delete "/docs/b" [])
    ∷ []

abbrev get_a : Request
get_a = request get "/docs/a" []

-- Lengths up to 2^48 are taken.
handle_get-serve_example : handle_request (2 ^ 48) (serve (2 ^ 48) no_files requests) 5 get_a ≡ (
  serve (2 ^ 48) no_files requests,
  answer (entry_after (2 ^ 48) "docs/a" requests (entry_of (lookup "docs/a" no_files))),
)
handle_get-serve_example =
    handle_get-serve (2 ^ 48) no_files requests "docs/a" 5 get_a
      (("docs", refl), (("docs/a", refl), (("docs/b", refl), (("docs/b", refl), tt)))) refl refl
      refl
