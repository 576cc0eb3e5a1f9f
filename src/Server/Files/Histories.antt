-- ===== src/Server/Files/Histories.antt =====
-- The history of a file (internal/server/version.go, file_manager.go): its versions in ascending
-- order, none above the latest, as many as the file counts.
use mathlib.Core.Logic.{∥∥₁_elim}
use mathlib.Core.Path.{ap₂, subst}
use mathlib.Core.List.{Perm, Permᴰ}
use mathlib.Core.List.Perm
use mathlib.Core.List.Permᴰ
use constelfs.Prelude.{true, ◌≤◌, ◌<◌, false, List, [], ◌∷◌, ◌≡◌, refl, arith, pos, length, All}
use text.Mathlib.TextEquality.{IsScalar-prop}
use constelfs.Prelude.Sort.{IsSort, IsStrictWeak, IsOrdered, All-Permᴰ, length-Permᴰ}
use constelfs.Server.State.{FileInfo, FileVersion}
use constelfs.Server.Versions.{VersionSort, older}

abbrev pub Ascending : List FileVersion → Type 0
Ascending [] = Unit
Ascending (v ∷ vs) = All (λ w. v.version < w.version) vs × Ascending vs

pub record IsHistory (file : FileInfo) (vs : List FileVersion) : Type 0 where
  pub ascending : Ascending vs
  pub bounded : All (λ v. v.version ≤ file.latest_version) vs
  pub counted : file.version_count ≡ pos (length vs)

versions-set : IsSet (List FileVersion)
versions-set = hlevel IsScalar-prop

older-IsStrictWeak : IsStrictWeak (λ v. true) older
older-IsStrictWeak = record {
  asym = λ a b p q h. ground arith;
  negtrans = λ a b c p q r h k. ground arith;
}

every : (vs : List FileVersion) → All (λ (v : FileVersion). true ≡ true) vs
every [] = tt
every (v ∷ vs) = (refl, every vs)

-- In an ascending list the versions differ in their numbers.
same_version :
    (x : FileVersion) (xs : List FileVersion)
    → All (λ w. x.version < w.version) xs
    → All (λ w. w.version ≤ x.version → w ≡ x) xs
same_version x [] h = tt
same_version x (w ∷ ws) h = (λ le. absurd (omega (arith, h.0)), same_version x ws h.1)

not_older :
    (y : FileVersion) (ys : List FileVersion)
    → All (λ w. older w y ≡ false) ys
    → All (λ w. y.version ≤ w.version) ys
not_older y [] h = tt
not_older y (w ∷ ws) h = (ground (arith, h.0), not_older y ws h.1)

heads :
    (x y : FileVersion) (xs ys : List FileVersion)
    → Permᴰ (y ∷ ys) (x ∷ xs)
    → IsOrdered older (y ∷ ys)
    → Ascending (x ∷ xs)
    → y ≡ x
heads x y xs ys p o a =
    let least = All-Permᴰ (λ w. y.version ≤ w.version) p (omega arith, not_older y ys o.0) in
    let single =
      All-Permᴰ (λ w. w.version ≤ x.version → w ≡ x) (Permᴰ.symm p)
        (λ le. refl, same_version x xs a.0) in
    single.0 least.0

-- An ordered arrangement of an ascending list is the list.
eq_of_IsOrdered :
    (xs ys : List FileVersion) → Perm ys xs → IsOrdered older ys → Ascending xs → ys ≡ xs
eq_of_IsOrdered [] [] p o a = refl
eq_of_IsOrdered [] (y ∷ ys) p o a =
    ∥∥₁_elim p (versions-set _ _) (λ d. absurd (omega (arith, length-Permᴰ d)))
eq_of_IsOrdered (x ∷ xs) [] p o a =
    ∥∥₁_elim p (versions-set _ _) (λ d. absurd (omega (arith, length-Permᴰ d)))
eq_of_IsOrdered (x ∷ xs) (y ∷ ys) p o a = ∥∥₁_elim p (versions-set _ _) (λ d.
    let e = heads x y xs ys d o a in
    ap₂ (λ (v : FileVersion) (vs : List FileVersion). v ∷ vs) e
      (eq_of_IsOrdered xs ys
        (Perm.cons_inv (subst (λ (v : FileVersion). Perm (v ∷ ys) (x ∷ xs)) e p)) o.1 a.1))

-- Sorting a history by version leaves it as it is.
pub sort_of_Ascending :
    (sort : VersionSort) → IsSort sort → (vs : List FileVersion) → Ascending vs → sort older vs ≡ vs
sort_of_Ascending sort contract vs a =
    eq_of_IsOrdered vs (sort older vs) ∣ contract.permutes older vs ∣₁
      (contract.orders (λ v. true) older older-IsStrictWeak vs (every vs)) a
