-- ===== src/Server/Files/Rollback.antt =====
-- Rolling a file back (`rollbackFile` in internal/server/file_manager.go, `RollbackToVersion` and
-- `CleanupOldVersions` in version.go): what the new version refers to afterwards.
use constelfs.Prelude.{
  String, true, List, [], ◌∷◌, ◌++◌, none, some, lookup, ◌≡◌, refl, arith, ℤ, pos, length, take,
  drop, length-append, lookup-insert_self,
}
use constelfs.Prelude.Sort.{IsSort}
use constelfs.Server.State.{Time, FileInfo, FileVersion, Server, save, Write}
use constelfs.Server.Scheduler.{contains}
use constelfs.Server.Versions.{VersionSort, rollback_to_version}
use constelfs.Server.Files.{versions_of, add_version, rollback_file, find_version}
use constelfs.Server.Files.Histories.{Ascending, IsHistory}
use constelfs.Server.Files.Deletion.{is_chunk_of, unless}
use constelfs.Server.Files.Retention.{surplus, Extends-IsHistory, kept-cleanup, lookup-cleanup}
use constelfs.Server.Files.Invariant.{rolled_back-Extends, versions-save}

pub chunks-save : (w : Write) (s : Server) → (save w s).chunks ≡ s.chunks
unfolding save
chunks-save w s = ground arith

chunks_of_rollback :
    (now : Time) (file : FileInfo) (v : FileVersion)
    → (rollback_to_version now file v).1.chunk_ids ≡ v.chunk_ids
unfolding rollback_to_version
chunks_of_rollback now file v = refl

module _ (sort : VersionSort) (contract : IsSort sort) where
  -- After a new version is added to a history, the newest versions are listed, and the chunks of
  -- exactly the others are gone.
  pub versions-add_version :
      (s : Server) (id : String) (file : FileInfo) (v : FileVersion) (vs : List FileVersion)
      → versions_of s id ≡ vs
      → Ascending (vs ++ (v ∷ []))
      → versions_of (add_version sort s id file v) id
        ≡ drop (surplus file (vs ++ (v ∷ []))) (vs ++ (v ∷ []))
  unfolding add_version
  versions-add_version s id file v vs listed a =
      rw (versions-save, versions-save)
        (rw (lookup-insert_self, listed) (kept-cleanup sort contract s file (vs ++ (v ∷ [])) a))

  pub chunks-add_version :
      (s : Server) (id : String) (file : FileInfo) (v : FileVersion) (vs : List FileVersion)
      (j : String)
      → versions_of s id ≡ vs
      → Ascending (vs ++ (v ∷ []))
      → lookup j (add_version sort s id file v).chunks
        ≡ unless
            (is_chunk_of (take (surplus file (vs ++ (v ∷ []))) (vs ++ (v ∷ []))) j)
            (lookup j s.chunks)
  unfolding add_version
  chunks-add_version s id file v vs j listed a =
      rw (chunks-save, chunks-save)
        (rw listed (lookup-cleanup sort contract s file (vs ++ (v ∷ [])) j a))

  rollback-add_version :
      (s : Server) (now : Time) (id : String) (n : ℤ) {file : FileInfo} {target : FileVersion}
      → lookup id s.files ≡ some file
      → find_version n (versions_of s id) ≡ some target
      → (rollback_file sort s now id (some n)).0
        ≡ add_version sort s id
            (rollback_to_version now file target).0
            (rollback_to_version now file target).1
  unfolding rollback_file
  rollback-add_version s now id n e f = rw (e, rollback_file) (rw (f, rollback_file))

  -- The oldest version is found by its number.
  find_oldest :
      (v : FileVersion) (vs : List FileVersion) → find_version (pos v.version) (v ∷ vs) ≡ some v
  unfolding find_version
  find_oldest v vs = ground arith

  -- Let a file have as many versions as it may keep, `v` the oldest. Rolling back to `v` makes a new
  -- version, the last in the list, that consists of the chunks of `v`, and the clean-up that follows
  -- deletes them all from the server.
  pub rollback_oldest :
      (s : Server) (now : Time) (id : String) (file : FileInfo) (v : FileVersion)
      (vs : List FileVersion)
      → lookup id s.files ≡ some file
      → versions_of s id ≡ v ∷ vs
      → IsHistory file (v ∷ vs)
      → length (v ∷ vs) ≡ file.max_versions
      → let t = (rollback_file sort s now id (some (pos v.version))).0 in
        let new = (rollback_to_version now file v).1 in
        (versions_of t id ≡ vs ++ (new ∷ []))
        × (new.chunk_ids ≡ v.chunk_ids)
        × ((c : String) → contains v.chunk_ids c ≡ true → lookup c t.chunks ≡ none)
  rollback_oldest s now id file v vs e listed h full =
      let file' = (rollback_to_version now file v).0 in
      let new = (rollback_to_version now file v).1 in
      let extends = rolled_back-Extends now file v in
      let a = (Extends-IsHistory file file' new (v ∷ vs) extends h).ascending in
      let one : surplus file' ((v ∷ vs) ++ (new ∷ [])) ≡ 1 =
        omega (arith, length-append vs (new ∷ []), extends.limit, full) in
      let f : find_version (pos v.version) (versions_of s id) ≡ some v =
        rw listed (find_oldest v vs) in
      rw (rollback-add_version s now id (pos v.version) e f) (
        rw (versions-add_version s id file' new (v ∷ vs) listed a, one),
        chunks_of_rollback now file v,
        λ c had. rw (chunks-add_version s id file' new (v ∷ vs) c listed a, one) (rw had),
      )
