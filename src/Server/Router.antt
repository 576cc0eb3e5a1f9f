-- ===== src/Server/Router.antt =====
-- The server's routes: `Router` of internal/server/server.go. The multiplexer of net/http is a parameter, and so is
-- the file server behind the pattern `/`.
use Prim.Native.Char.{code}
use mathlib.Core.Path.{subst}
use constelfs.Prelude.{
  String, Bool, true, false, List, [], ◌∷◌, ◌++◌, Option, Option-cases, none, some, ◌≡◌, refl, sym,
  ap, ◌∙◌, arith, inl, inr, ◌⊎◌, select, All, All-impl, str_eq, eq_iff, ◌||◌, ◌&&◌, ◌==◌,
  if◌then◌else◌, Bool-cases,
}
use constelfs.Prelude.Text.{concat, has_prefix}
use constelfs.Prelude.Text.Names.{differ, has_prefix_self, has_prefix-differ, has_prefix-concat}

pub data Handler : Type 0 where
  nodes : Handler
  node : Handler
  files : Handler
  file : Handler
  upload : Handler
  download : Handler
  write : Handler
  confirm_write : Handler
  create_version : Handler
  encryption : Handler
  health : Handler
  web : Handler

-- The routes with a handler of the server.
abbrev pub api_routes : List (String × Handler)
api_routes =
    ("/api/v1/nodes", nodes)
    ∷ ("/api/v1/nodes/", node)
    ∷ ("/api/v1/files", files)
    ∷ ("/api/v1/files/", file)
    ∷ ("/api/v1/upload", upload)
    ∷ ("/api/v1/download/", download)
    ∷ ("/api/v1/write", write)
    ∷ ("/api/v1/write/confirm", confirm_write)
    ∷ ("/api/v1/version/create", create_version)
    ∷ ("/api/v1/encryption/", encryption)
    ∷ ("/api/v1/health", health)
    ∷ []

-- `Router`.
abbrev pub routes : List (String × Handler)
routes = api_routes ++ (("/", web) ∷ [])

-- Whether a text ends with a slash.
unfoldable pub ends_with_slash : String → Bool
ends_with_slash String.[] = false
ends_with_slash (String.◌∷◌ c String.[]) = code c == b'/'
ends_with_slash (String.◌∷◌ c (String.◌∷◌ d s)) = ends_with_slash (String.◌∷◌ d s)

-- A pattern of a multiplexer: one that ends with a slash stands for the paths that it begins, any other for itself.
abbrev pub is_match : String → String → Bool
is_match pattern path = str_eq pattern path || ends_with_slash pattern && has_prefix path pattern

-- `ServeHTTP` of a multiplexer, for handlers of a type: which handler it calls for a path.
abbrev pub Mux : Type 0 → Type 0
Mux H = List (String × H) → String → Option H

abbrev pub IsAmong : {H : Type 0} → H → List (String × H) → Type 0
IsAmong h [] = ⊥
IsAmong h (r ∷ rs) = (r.1 ≡ h) ⊎ IsAmong h rs

-- A multiplexer calls only a handler whose pattern matches.
pub record IsMux {H : Type 0} (mux : Mux H) : Type 0 where
  pub picks :
      (rs : List (String × H)) (path : String) (h : H)
      → mux rs path ≡ some h
      → IsAmong h (select (λ (r : String × H). is_match r.0 path) rs)

-- For a path in the form that path.Clean leaves, it calls one if some pattern matches.
pub record IsComplete {H : Type 0} (clean : String → Bool) (mux : Mux H) : Type 0 where
  pub finds :
      (rs : List (String × H)) (path : String)
      → clean path ≡ true
      → mux rs path ≡ none
      → All (λ (r : String × H). is_match r.0 path ≡ false) rs

pub is_match-differ :
    (p prefix rest : String) → differ prefix p ≡ true → is_match p (concat prefix rest) ≡ false
is_match-differ p prefix rest h =
    let other = has_prefix-differ prefix p rest h in
    elim (Bool-cases (str_eq p (concat prefix rest))) [
      | inl e ↦
          let same = ap (λ t. has_prefix t p) ((eq_iff p (concat prefix rest)).0 e) in
          absurd (cc (has_prefix_self p, same, other))
      | inr e ↦ ground (arith, e, other)
    ]

pub is_match-prefix :
    (p rest : String) → ends_with_slash p ≡ true → is_match p (concat p rest) ≡ true
is_match-prefix p rest h = ground (arith, h, has_prefix-concat p rest)

-- Routes of which none matches.
pub select-none :
    {H : Type 0} (path : String) (rs more : List (String × H))
    → All (λ (r : String × H). is_match r.0 path ≡ false) rs
    → select (λ (r : String × H). is_match r.0 path) (rs ++ more)
      ≡ select (λ (r : String × H). is_match r.0 path) more
select-none path [] more all = refl
select-none path (r ∷ rs) more all = rw all.0 (select-none path rs more all.1)

abbrev prefix : String
prefix = "/api/v1/chunks/"

unmatched :
    (rest : String)
    → All (λ (r : String × Handler). is_match r.0 (concat prefix rest) ≡ false) api_routes
unfolding differ
unmatched rest =
    All-impl (λ (r : String × Handler). differ prefix r.0 ≡ true)
      (λ (r : String × Handler). is_match r.0 (concat prefix rest) ≡ false)
      (λ r d. is_match-differ r.0 prefix rest d) api_routes
      (refl, (refl, (refl, (refl, (refl, (refl, (refl, (refl, (refl, (refl, (refl, tt)))))))))))

only_web :
    (h : Handler) (matched : Bool) → IsAmong h (if matched then ("/", web) ∷ [] else []) → h ≡ web
only_web h true (inl same) = sym same
only_web h true (inr other) = absurd other
only_web h false other = absurd other

-- A multiplexer that calls only handlers whose pattern matches gives no path that begins with `/api/v1/chunks/` to a
-- handler of the server: it calls none, or the file server of the web pages.
pub routes-chunks :
    (mux : Mux Handler)
    → IsMux mux
    → (rest : String)
    → let path = concat "/api/v1/chunks/" rest in
      (mux routes path ≡ none) ⊎ (mux routes path ≡ some web)
routes-chunks mux laws rest =
    let path = concat prefix rest in
    let left = select-none path api_routes (("/", web) ∷ []) (unmatched rest) in
    elim (Option-cases (mux routes path)) [
      | inl e ↦ inl e
      | inr (h, e) ↦
          let among = subst (IsAmong h) left (laws.picks routes path h e) in
          inr (e ∙ ap some (only_web h (is_match "/" path) among))
    ]
