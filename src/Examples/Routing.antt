-- ===== src/Examples/Routing.antt =====
-- The theorems on the server's routes, applied.
use constelfs.Prelude.{
  String, true, List, [], ◌∷◌, Option, some, ◌≡◌, refl, none, inl, ◌⊎◌, select, Bool, false, All,
  Bool-cases, inr, ap, sym, ◌∙◌, if◌then◌else◌,
}
use constelfs.Prelude.Text.{concat}
use constelfs.Server.Router.{
  Handler, web, Mux, IsMux, IsComplete, IsAmong, is_match, routes, routes-chunks,
}
use constelfs.Client.Routed.{through, download-unrouted}
use constelfs.Client.Downloader.{
  Reply, replied, chunk_failed, download, get_file_info, get_versions,
}
use constelfs.Examples.Data.{version_of}
use constelfs.Examples.Transmissions.{unary, serving}

-- A multiplexer that calls the first handler whose pattern matches.
abbrev first_of : {H : Type 0} → List (String × H) → Option H
first_of [] = none
first_of (r ∷ more) = some r.1

abbrev pub first_match : {H : Type 0} → Mux H
first_match {H} rs path = first_of (select (λ (r : String × H). is_match r.0 path) rs)

first_of-IsAmong :
    {H : Type 0} (rs : List (String × H)) (h : H) → first_of rs ≡ some h → IsAmong h rs
first_of-IsAmong [] h e = absurd (cc (e))
first_of-IsAmong (r ∷ more) h e = inl (cc (e))

pub first_match-IsMux : {H : Type 0} → IsMux {H = H} first_match
first_match-IsMux = record { picks = λ rs path h e. first_of-IsAmong _ h e }

none_of :
    {H : Type 0} (p : String × H → Bool) (rs : List (String × H))
    → first_of (select p rs) ≡ none
    → All (λ r. p r ≡ false) rs
none_of p [] e = tt
none_of p (r ∷ rs) e = elim (Bool-cases (p r)) [
  | inl e₁ ↦ absurd (cc (sym e, ap (λ b. first_of (if b then r ∷ select p rs else select p rs)) e₁))
  | inr e₁ ↦ (
    e₁,
    none_of p rs (sym (ap (λ b. first_of (if b then r ∷ select p rs else select p rs)) e₁) ∙ e),
  )
]

pub first_match-IsComplete : {H : Type 0} → IsComplete {H = H} (λ path. true) first_match
first_match-IsComplete {H} = record {
  finds = λ rs path tidy e. none_of (λ (r : String × H). is_match r.0 path) rs e;
}

-- The file server has nothing.
abbrev no_page : Handler → String → Reply (List String)
no_page h path = replied 404 none

routes-chunks_example :
    let path = concat "/api/v1/chunks/" "c/status" in
    (first_match routes path ≡ none) ⊎ (first_match routes path ≡ some web)
routes-chunks_example = routes-chunks first_match first_match-IsMux "c/status"

download-unrouted_example :
    download (through first_match no_page serving) unary "f" true ≡ inl (chunk_failed 0)
unfolding get_file_info get_versions
download-unrouted_example =
    download-unrouted first_match first_match-IsMux no_page serving unary "f" true
      (version_of 1 ("c" ∷ "d" ∷ [])) [] "c" ("d" ∷ []) (λ chunk. refl) refl refl refl
