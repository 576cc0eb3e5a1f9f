-- ===== src/Server/Files/Retention.antt =====
-- Which versions of a file are kept (`CleanupOldVersions` in internal/server/version.go, and the
-- handlers of file_manager.go that call it).
use constelfs.Prelude.{
  ℕ, zero, suc, ◌+◌, ◌-◌, ◌≤◌, ◌<◌, String, true, List, [], ◌∷◌, ◌++◌, lookup, ◌≡◌, ap, arith, ℤ,
  pos, ◌+ℤ◌, ◌-ℤ◌, length, take, drop, All, leb, length-drop, length-take, length-append,
  Bool-cases, inl, inr, int_laws,
}
use constelfs.Prelude.Sort.{IsSort, All-drop}
use constelfs.Server.State.{FileInfo, FileVersion, Server}
use constelfs.Server.Versions.{VersionSort, older, cleanup_old_versions}
use constelfs.Server.Files.Histories.{Ascending, IsHistory, sort_of_Ascending}
use constelfs.Server.Files.Deletion.{
  SameFiles, SameFiles-refl, delete_versions-SameFiles, file-delete_versions, is_chunk_of, unless,
  lookup-delete_versions,
}

-- How many of the oldest versions are over the limit.
abbrev pub surplus : FileInfo → List FileVersion → ℕ
surplus file vs = length vs - file.max_versions

no_surplus :
    (file : FileInfo) (vs : List FileVersion)
    → leb (length vs) file.max_versions ≡ true
    → surplus file vs ≡ 0
no_surplus file vs e = ground arith

sub_zero : (n : ℤ) → n ≡ n -ℤ pos 0
sub_zero n = omega int_laws

Ascending-drop : (n : ℕ) (vs : List FileVersion) → Ascending vs → Ascending (drop n vs)
Ascending-drop zero vs h = h
Ascending-drop (suc n) [] h = tt
Ascending-drop (suc n) (v ∷ vs) h = Ascending-drop n vs h.1

module _ (sort : VersionSort) (contract : IsSort sort) (s : Server) (file : FileInfo) where
  pub kept-cleanup :
      (vs : List FileVersion)
      → Ascending vs
      → (cleanup_old_versions sort s file vs).2 ≡ drop (surplus file vs) vs
  unfolding cleanup_old_versions
  kept-cleanup vs a = elim (Bool-cases (leb (length vs) file.max_versions)) [
    | inl e ↦ rw (e, no_surplus file vs e)
    | inr e ↦ rw (e, sort_of_Ascending sort contract vs a)
  ]

  pub file-cleanup :
      (vs : List FileVersion)
      → Ascending vs
      → (cleanup_old_versions sort s file vs).1 ≡ record file {
        version_count = file.version_count -ℤ pos (length (take (surplus file vs) vs));
      }
  unfolding cleanup_old_versions
  file-cleanup vs a = elim (Bool-cases (leb (length vs) file.max_versions)) [
    | inl e ↦
        rw (e, no_surplus file vs e)
          (ap (λ (n : ℤ). record file { version_count = n }) (sub_zero file.version_count))
    | inr e ↦
        rw (e, sort_of_Ascending sort contract vs a)
          (file-delete_versions s file (take (surplus file vs) vs))
  ]

  pub cleanup-SameFiles :
      (vs : List FileVersion) → SameFiles s (cleanup_old_versions sort s file vs).0
  unfolding cleanup_old_versions
  cleanup-SameFiles vs = elim (Bool-cases (leb (length vs) file.max_versions)) [
    | inl e ↦ rw e (SameFiles-refl s)
    | inr e ↦ rw e (
        delete_versions-SameFiles s file
          (take (length (sort older vs) - file.max_versions) (sort older vs)))
  ]

  -- Exactly the chunks of the versions over the limit are gone.
  pub lookup-cleanup :
      (vs : List FileVersion) (j : String)
      → Ascending vs
      → lookup j (cleanup_old_versions sort s file vs).0.chunks
        ≡ unless (is_chunk_of (take (surplus file vs) vs) j) (lookup j s.chunks)
  unfolding cleanup_old_versions
  lookup-cleanup vs j a = elim (Bool-cases (leb (length vs) file.max_versions)) [
    | inl e ↦ rw (e, no_surplus file vs e)
    | inr e ↦
        rw (e, sort_of_Ascending sort contract vs a)
          (lookup-delete_versions s file (take (surplus file vs) vs) j)
  ]

  -- Cleaning up a history leaves a history.
  pub cleanup-IsHistory :
      (vs : List FileVersion)
      → IsHistory file vs
      → IsHistory (cleanup_old_versions sort s file vs).1 (cleanup_old_versions sort s file vs).2
  cleanup-IsHistory vs h =
      rw (kept-cleanup vs h.ascending, file-cleanup vs h.ascending)
        (record {
          ascending = Ascending-drop (surplus file vs) vs h.ascending;
          bounded = All-drop _ (surplus file vs) vs h.bounded;
          counted = rw h.counted (
              omega (int_laws, length-drop (surplus file vs) vs, length-take (surplus file vs) vs));
        })

All-snoc :
    (P : FileVersion → Type 0) (v : FileVersion) (vs : List FileVersion)
    → All P vs
    → P v
    → All P (vs ++ (v ∷ []))
All-snoc P v [] h p = (p, tt)
All-snoc P v (w ∷ ws) h p = (h.0, All-snoc P v ws h.1 p)

-- A version above all others extends a history.
Ascending-snoc :
    (v : FileVersion) (vs : List FileVersion)
    → Ascending vs
    → All (λ w. w.version < v.version) vs
    → Ascending (vs ++ (v ∷ []))
Ascending-snoc v [] a b = (tt, tt)
Ascending-snoc v (w ∷ ws) a b = (All-snoc _ v ws a.0 b.0, Ascending-snoc v ws a.1 b.1)

-- The file with one version more, and that version.
pub record Extends (file file' : FileInfo) (v : FileVersion) : Type 0 where
  pub number : v.version ≡ file.latest_version + 1
  pub latest : file'.latest_version ≡ file.latest_version + 1
  pub count : file'.version_count ≡ file.version_count +ℤ pos 1
  pub limit : file'.max_versions ≡ file.max_versions

pub Extends-IsHistory :
    (file file' : FileInfo) (v : FileVersion) (vs : List FileVersion)
    → Extends file file' v
    → IsHistory file vs
    → IsHistory file' (vs ++ (v ∷ []))
Extends-IsHistory file file' v vs e h = record {
  ascending = Ascending-snoc v vs h.ascending (above vs h.bounded);
  bounded = All-snoc _ v vs (still vs h.bounded) (omega (arith, e.number, e.latest));
  counted = rw (e.count, h.counted) (omega (int_laws, length-append vs (v ∷ [])));
}
  where
    above :
        (ws : List FileVersion)
        → All (λ w. w.version ≤ file.latest_version) ws
        → All (λ w. w.version < v.version) ws
    above [] b = tt
    above (w ∷ ws) b = (omega (arith, b.0, e.number), above ws b.1)

    still :
        (ws : List FileVersion)
        → All (λ w. w.version ≤ file.latest_version) ws
        → All (λ w. w.version ≤ file'.latest_version) ws
    still [] b = tt
    still (w ∷ ws) b = (omega (arith, b.0, e.latest), still ws b.1)
