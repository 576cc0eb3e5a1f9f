-- ===== src/Server/Files/Deletion.antt =====
-- What deleting chunks leaves of the server (`DeleteChunk` in internal/server/storage.go, and the
-- loops of version.go and file_manager.go over it).
use constelfs.Prelude.{
  String, Bool, true, false, List, [], ◌∷◌, Option, none, lookup, ◌≡◌, refl, ◌∙◌, arith, str_eq,
  eq_iff, if◌then◌else◌, lookup-remove, Option-cases, inl, inr, ℤ, pos, ◌-ℤ◌, ℕ, suc, ap, length,
  int_laws,
}
use constelfs.Server.State.{FileInfo, FileVersion, ChunkInfo, Server, save}
use constelfs.Server.Scheduler.{contains}
use constelfs.Server.Storage.{remove_chunk}
use constelfs.Server.Versions.{delete_chunks, delete_version, delete_versions}
use constelfs.Server.Files.{delete_all}

-- The chunk of an id after some ids are deleted.
abbrev pub unless : Bool → Option ChunkInfo → Option ChunkInfo
unless true o = none
unless false o = o

pub lookup-remove_chunk :
    (s : Server) (id j : String)
    → lookup j (remove_chunk s id).0.chunks ≡ unless (str_eq id j) (lookup j s.chunks)
unfolding remove_chunk save
lookup-remove_chunk s id j = elim (Option-cases (lookup id s.chunks)) [
  | inl e ↦ rw (e, remove_chunk) (ground (arith, e, eq_iff id j))
  | inr (c, e) ↦ rw (e, remove_chunk) (ground (arith, lookup-remove id j s.chunks))
]

-- Deleting chunks changes no file and no version, nor the nodes.
pub record SameFiles (s t : Server) : Type 0 where
  pub files : t.files ≡ s.files
  pub versions : t.versions ≡ s.versions
  pub nodes : t.nodes ≡ s.nodes
  pub persist : t.persist ≡ s.persist

pub SameFiles-refl : (s : Server) → SameFiles s s
SameFiles-refl s = record { files = refl; versions = refl; nodes = refl; persist = refl }

pub SameFiles-trans : {s t u : Server} → SameFiles s t → SameFiles t u → SameFiles s u
SameFiles-trans h k = record {
  files = k.files ∙ h.files;
  versions = k.versions ∙ h.versions;
  nodes = k.nodes ∙ h.nodes;
  persist = k.persist ∙ h.persist;
}

remove_chunk-SameFiles : (s : Server) (id : String) → SameFiles s (remove_chunk s id).0
unfolding remove_chunk save
remove_chunk-SameFiles s id = elim (Option-cases (lookup id s.chunks)) [
  | inl e ↦ rw (e, remove_chunk) (SameFiles-refl s)
  | inr (c, e) ↦
      rw (e, remove_chunk)
        (record {
          files = ground arith;
          versions = ground arith;
          nodes = ground arith;
          persist = ground arith;
        })
]

pub delete_chunks-SameFiles : (s : Server) (ids : List String) → SameFiles s (delete_chunks s ids)
unfolding delete_chunks
delete_chunks-SameFiles s [] = SameFiles-refl s
delete_chunks-SameFiles s (id ∷ ids) =
    SameFiles-trans (remove_chunk-SameFiles s id)
      (delete_chunks-SameFiles (remove_chunk s id).0 ids)

pub lookup-delete_chunks :
    (s : Server) (ids : List String) (j : String)
    → lookup j (delete_chunks s ids).chunks ≡ unless (contains ids j) (lookup j s.chunks)
unfolding delete_chunks
lookup-delete_chunks s [] j = refl
lookup-delete_chunks s (id ∷ ids) j =
    ground (arith, lookup-delete_chunks (remove_chunk s id).0 ids j, lookup-remove_chunk s id j)

pub delete_version-SameFiles : (s : Server) (v : FileVersion) → SameFiles s (delete_version s v)
unfolding delete_version
delete_version-SameFiles s v = delete_chunks-SameFiles s v.chunk_ids

pub lookup-delete_version :
    (s : Server) (v : FileVersion) (j : String)
    → lookup j (delete_version s v).chunks ≡ unless (contains v.chunk_ids j) (lookup j s.chunks)
unfolding delete_version
lookup-delete_version s v j = lookup-delete_chunks s v.chunk_ids j

unless_twice :
    (a b : Bool) (o : Option ChunkInfo) → unless a (unless b o) ≡ unless (if b then true else a) o
unless_twice a b o = ground arith

-- A chunk of one of some versions.
abbrev pub is_chunk_of : List FileVersion → String → Bool
is_chunk_of [] id = false
is_chunk_of (v ∷ vs) id =
    let rest = is_chunk_of vs id in if contains v.chunk_ids id then true else rest

pub delete_versions-SameFiles :
    (s : Server) (file : FileInfo) (vs : List FileVersion)
    → SameFiles s (delete_versions s file vs).0
unfolding delete_versions
delete_versions-SameFiles s file [] = SameFiles-refl s
delete_versions-SameFiles s file (v ∷ vs) = SameFiles-trans (delete_version-SameFiles s v) (
    delete_versions-SameFiles (delete_version s v)
      (record file { version_count = file.version_count -ℤ pos 1 }) vs)

pub lookup-delete_versions :
    (s : Server) (file : FileInfo) (vs : List FileVersion) (j : String)
    → lookup j (delete_versions s file vs).0.chunks ≡ unless (is_chunk_of vs j) (lookup j s.chunks)
unfolding delete_versions
lookup-delete_versions s file [] j = refl
lookup-delete_versions s file (v ∷ vs) j =
    lookup-delete_versions (delete_version s v)
      (record file { version_count = file.version_count -ℤ pos 1 }) vs j
    ∙ rw (lookup-delete_version s v j) (unless_twice (is_chunk_of vs j) (contains v.chunk_ids j) _)

pub delete_all-SameFiles : (s : Server) (vs : List FileVersion) → SameFiles s (delete_all s vs)
unfolding delete_all
delete_all-SameFiles s [] = SameFiles-refl s
delete_all-SameFiles s (v ∷ vs) =
    SameFiles-trans (delete_version-SameFiles s v) (delete_all-SameFiles (delete_version s v) vs)

pub lookup-delete_all :
    (s : Server) (vs : List FileVersion) (j : String)
    → lookup j (delete_all s vs).chunks ≡ unless (is_chunk_of vs j) (lookup j s.chunks)
unfolding delete_all
lookup-delete_all s [] j = refl
lookup-delete_all s (v ∷ vs) j =
    lookup-delete_all (delete_version s v) vs j
    ∙ rw (lookup-delete_version s v j) (unless_twice (is_chunk_of vs j) (contains v.chunk_ids j) _)

-- Each deleted version is taken off the count; nothing else of the file changes.
pub file-delete_versions :
    (s : Server) (file : FileInfo) (vs : List FileVersion)
    → (delete_versions s file vs).1
      ≡ record file { version_count = file.version_count -ℤ pos (length vs) }
unfolding delete_versions
file-delete_versions s file [] =
    ap (λ (n : ℤ). record file { version_count = n }) (sub_zero file.version_count)
  where
    sub_zero : (n : ℤ) → n ≡ n -ℤ pos 0
    sub_zero n = omega int_laws
file-delete_versions s file (v ∷ vs) =
    file-delete_versions (delete_version s v)
      (record file { version_count = file.version_count -ℤ pos 1 }) vs
    ∙ ap (λ (n : ℤ). record file { version_count = n }) (sub_suc file.version_count (length vs))
  where
    sub_suc : (n : ℤ) (k : ℕ) → n -ℤ pos 1 -ℤ pos k ≡ n -ℤ pos (suc k)
    sub_suc n k = omega int_laws
