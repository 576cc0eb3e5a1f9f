-- ===== src/Server/Files/Shortened.antt =====
-- A history without one of its versions (internal/server/file_manager.go).
use constelfs.Prelude.{
  ◌+◌, List, [], ◌∷◌, some, ◌≡◌, arith, ℤ, pos, ◌-ℤ◌, length, All, Bool-cases, inl, inr, int_laws,
  eq_ℤ,
}
use constelfs.Server.State.{FileInfo, FileVersion}
use constelfs.Server.Files.{find_version, without_version}
use constelfs.Server.Files.Histories.{Ascending, IsHistory}

without-All :
    (P : FileVersion → Type 0) (n : ℤ) (vs : List FileVersion)
    → All P vs
    → All P (without_version n vs)
unfolding without_version
without-All P n [] h = tt
without-All P n (v ∷ vs) h = elim (Bool-cases (eq_ℤ (pos v.version) n)) [
  | inl e ↦ rw e h.1
  | inr e ↦ rw e (h.0, without-All P n vs h.1)
]

without-Ascending :
    (n : ℤ) (vs : List FileVersion) → Ascending vs → Ascending (without_version n vs)
unfolding without_version
without-Ascending n [] h = tt
without-Ascending n (v ∷ vs) h = elim (Bool-cases (eq_ℤ (pos v.version) n)) [
  | inl e ↦ rw e h.1
  | inr e ↦ rw e (without-All _ n vs h.0, without-Ascending n vs h.1)
]

length-without :
    (n : ℤ) (vs : List FileVersion) {v : FileVersion}
    → find_version n vs ≡ some v
    → length (without_version n vs) + 1 ≡ length vs
unfolding without_version find_version
length-without n [] e = cc
length-without n (w ∷ ws) e = elim (Bool-cases (eq_ℤ (pos w.version) n)) [
  | inl f ↦ rw f (omega arith)
  | inr f ↦ rw f (omega (arith, length-without n ws (rw f at e)))
]

pub without-IsHistory :
    (file : FileInfo) (n : ℤ) (vs : List FileVersion) {v : FileVersion}
    → find_version n vs ≡ some v
    → IsHistory file vs
    → IsHistory (record file { version_count = file.version_count -ℤ pos 1 }) (without_version n vs)
without-IsHistory file n vs e h = record {
  ascending = without-Ascending n vs h.ascending;
  bounded = without-All _ n vs h.bounded;
  counted = rw h.counted (omega (int_laws, length-without n vs e));
}
