-- ===== src/WebDav/Table.antt =====
-- What the WebDAV table holds (internal/webdav/webdav.go), told from the requests and the replies.
use constelfs.Prelude.{
  ℕ, ◌-◌, String, List, [], ◌∷◌, ◌++◌, Option, none, some, lookup, insert, ◌≡◌, refl, ap, ◌∙◌,
  arith, ℤ, pos, negsuc, length, str_eq, eq_iff, if◌then◌else◌, lookup-insert, lookup-remove,
  Option-cases, Bool-cases, inl, inr, ltb, ◌||◌, ◌&&◌, All, Bool, false,
}
use text.Mathlib.TextLemmas.{append_cancel_left}
use constelfs.Prelude.Text.{concat}
use constelfs.Prelude.Text.Names.{trim_prefix-concat}
use constelfs.WebDav.{
  FileInfo, Table, Method, get, put, delete, mkcol, propfind, options, other, Reply, error, body,
  zeros, handle_get, handle_put, handle_delete, handle_mkcol, Request, key_of, by_method,
  handle_request,
}

-- What stands under a path: a directory, or the bytes of a file.
pub data Entry : Type 0 where
  directory : Entry
  file : List ℕ → Entry

pub entry_of : Option FileInfo → Option Entry
entry_of none = none
entry_of (some f) = some (if f.is_dir then directory else file f.content)

-- The bytes that a `PUT` stores: those of the first `Read`, filled up with zeros.
pub stored_bytes : ℤ → List ℕ → List ℕ
stored_bytes (pos n) first = first ++ zeros (n - length first)
stored_bytes (negsuc n) first = []

-- What a request does to the entry under its own path.
pub next : ℕ → Method → ℤ → List ℕ → Option Entry → Option Entry
next longest put (pos n) first e =
    if ltb longest n then e else some (file (stored_bytes (pos n) first))
next longest delete n first e = none
next longest mkcol n first none = some directory
next longest _ n first e = e

-- What a `GET` of an entry answers.
pub answer : Option Entry → Reply
answer none = error 404 "Not found"
answer (some directory) = error 403 "Is a directory"
answer (some (file bytes)) = body bytes

-- A request's path is that of an entry: `/` and its key, or `/` alone for the root.
abbrev pub names : String → String → Bool
names url path = str_eq url (concat "/" path) || (str_eq path "." && str_eq url "/")

-- Its path begins with a slash.
abbrev pub IsRooted : Request → Type 0
IsRooted r = (rest : String) × (r.url ≡ concat "/" rest)

-- The entry under a path after requests, each at its time, that start where it is `e`.
pub entry_after : ℕ → String → List (ℕ × Request) → Option Entry → Option Entry
entry_after longest path [] e = e
entry_after longest path ((now, r) ∷ rs) e =
    entry_after longest path rs
      (if names r.url path then next longest r.method r.content_length r.first_read e else e)

-- The table after the requests.
unfoldable pub serve : ℕ → Table → List (ℕ × Request) → Table
serve longest files [] = files
serve longest files ((now, r) ∷ rs) = serve longest (handle_request longest files now r).0 rs

handle_get-answer :
    (files : Table) (path : String) → handle_get files path ≡ answer (entry_of (lookup path files))
unfolding handle_get answer entry_of
handle_get-answer files path = ground arith

Refines : ℕ → Table → Table → String → Method → ℤ → List ℕ → Type 0
Refines longest files files' key m n first =
    (j : String)
    → entry_of (lookup j files') ≡ (
        if str_eq key j
        then next longest m n first (entry_of (lookup j files))
        else entry_of (lookup j files))

same-Refines :
    (longest : ℕ) (files : Table) (key : String) (m : Method) (n : ℤ) (first : List ℕ)
    → ((e : Option Entry) → next longest m n first e ≡ e)
    → Refines longest files files key m n first
unfolding Refines
same-Refines longest files key m n first h j = ground (arith, h (entry_of (lookup j files)))

entry_of-insert :
    (key j : String) (v : FileInfo) (files : Table)
    → entry_of (lookup j (insert key v files))
      ≡ (if str_eq key j then entry_of (some v) else entry_of (lookup j files))
unfolding entry_of
entry_of-insert key j v files = ground (arith, lookup-insert key j v files)

handle_put-Refines :
    (longest : ℕ) (files : Table) (now : ℕ) (key : String) (n : ℤ) (first : List ℕ)
    → Refines longest files (handle_put longest files now key n first).0 key put n first
unfolding Refines handle_put next entry_of stored_bytes
handle_put-Refines longest files now key (pos n) first j = elim (Bool-cases (ltb longest n)) [
  | inl e ↦ rw e (ground arith)
  | inr e ↦ rw e (entry_of-insert key j _ files)
]
handle_put-Refines longest files now key (negsuc n) first j = ground arith

handle_delete-Refines :
    (longest : ℕ) (files : Table) (key : String) (n : ℤ) (first : List ℕ)
    → Refines longest files (handle_delete files key).0 key delete n first
unfolding Refines handle_delete next entry_of
handle_delete-Refines longest files key n first j =
    ground (arith, lookup-remove key j files, eq_iff key j)

handle_mkcol-Refines :
    (longest : ℕ) (files : Table) (now : ℕ) (key : String) (n : ℤ) (first : List ℕ)
    → Refines longest files (handle_mkcol files now key).0 key mkcol n first
unfolding Refines handle_mkcol next entry_of
handle_mkcol-Refines longest files now key n first j = elim (Option-cases (lookup key files)) [
  | inl e ↦ rw (e, handle_mkcol) (entry_of-insert key j _ files ∙ ground (arith, eq_iff key j, e))
  | inr (f, e) ↦ rw (e, handle_mkcol) (ground (arith, eq_iff key j, e))
]

by_method-Refines :
    (longest : ℕ) (files : Table) (now : ℕ) (m : Method) (key : String) (n : ℤ) (first : List ℕ)
    → Refines longest files (by_method longest files now m key n first).0 key m n first
unfolding next
by_method-Refines longest files now get key n first =
    same-Refines longest files key get n first (λ e. refl)
by_method-Refines longest files now put key n first =
    handle_put-Refines longest files now key n first
by_method-Refines longest files now delete key n first =
    handle_delete-Refines longest files key n first
by_method-Refines longest files now mkcol key n first =
    handle_mkcol-Refines longest files now key n first
by_method-Refines longest files now propfind key n first =
    same-Refines longest files key propfind n first (λ e. refl)
by_method-Refines longest files now options key n first =
    same-Refines longest files key options n first (λ e. refl)
by_method-Refines longest files now other key n first =
    same-Refines longest files key other n first (λ e. refl)

-- What key the path of a request stands for.
str_eq-key_of :
    (rest path : String)
    → str_eq path "" ≡ false
    → str_eq (key_of (concat "/" rest)) path ≡ names (concat "/" rest) path
unfolding key_of
str_eq-key_of rest path h =
    let whole : (str_eq (concat "/" rest) (concat "/" path)) ≡ str_eq rest path =
      str_eq-same _ _ _ _ (λ e. ap (concat "/") e) (append_cancel_left "/" rest path) in
    let root : str_eq (concat "/" rest) "/" ≡ str_eq rest "" =
      str_eq-same _ _ _ _ (λ e. ap (concat "/") e) (append_cancel_left "/" rest "") in
    rw (trim_prefix-concat "/" rest, whole, root)
      (ground (
        arith,
        h,
        eq_iff rest "",
        eq_iff rest path,
        eq_iff path "",
        eq_iff "." path,
        eq_iff path ".",
      ))
  where
    str_eq-same : (a b c d : String) → (c ≡ d → a ≡ b) → (a ≡ b → c ≡ d) → str_eq a b ≡ str_eq c d
    str_eq-same a b c d back on = ground (arith, back, on, eq_iff a b, eq_iff c d)

handle_request-next :
    (longest : ℕ) (files : Table) (now : ℕ) (r : Request) (path : String)
    → IsRooted r
    → str_eq path "" ≡ false
    → entry_of (lookup path (handle_request longest files now r).0) ≡ (
        if names r.url path
        then next longest r.method r.content_length r.first_read (entry_of (lookup path files))
        else entry_of (lookup path files))
unfolding handle_request Refines
handle_request-next longest files now r path (rest, at) h =
    let key : str_eq (key_of r.url) path ≡ names r.url path = rw at (str_eq-key_of rest path h) in
    by_method-Refines longest files now r.method (key_of r.url) r.content_length r.first_read path
    ∙ rw key refl

serve-entry_after :
    (longest : ℕ) (files : Table) (rs : List (ℕ × Request)) (path : String)
    → All (λ (t : ℕ × Request). IsRooted t.1) rs
    → str_eq path "" ≡ false
    → entry_of (lookup path (serve longest files rs))
      ≡ entry_after longest path rs (entry_of (lookup path files))
unfolding serve entry_after
serve-entry_after longest files [] path rooted h = refl
serve-entry_after longest files ((now, r) ∷ rs) path rooted h =
    serve-entry_after longest (handle_request longest files now r).0 rs path rooted.1 h
    ∙ ap (entry_after longest path rs) (handle_request-next longest files now r path rooted.0 h)

-- The table is flat: after any requests whose paths begin with a slash, a `GET` of a path, `/` and a text that is not
-- blank, answers by what the requests of that path, one by one, make of the entry there, and changes nothing. A `PUT` with
-- a length that `make` takes stores what its first `Read` gives, filled up with zeros; a `DELETE` removes; a `MKCOL` makes
-- a directory where nothing is; other requests, and those on other paths, change nothing.
pub handle_get-serve :
    (longest : ℕ) (files : Table) (rs : List (ℕ × Request)) (path : String) (now : ℕ) (r : Request)
    → All (λ (t : ℕ × Request). IsRooted t.1) rs
    → str_eq path "" ≡ false
    → r.method ≡ get
    → r.url ≡ concat "/" path
    → let after = serve longest files rs in
      handle_request longest after now r
      ≡ (after, answer (entry_after longest path rs (entry_of (lookup path files))))
unfolding handle_request key_of
handle_get-serve longest files rs path now r rooted h is_get at =
    rw (is_get, at, trim_prefix-concat "/" path, h)
      (ap (λ reply. (serve longest files rs, reply))
        (handle_get-answer (serve longest files rs) path
          ∙ ap answer (serve-entry_after longest files rs path rooted h)))
