-- ===== src/Server/Persistence/Loading.antt =====
-- What `LoadFiles` and `LoadChunks` (internal/server/persistence.go) read from their buckets.
use constelfs.Prelude.{
  String, [], ◌∷◌, Option, none, some, ◌≡◌, refl, ap, ◌∙◌, arith, Map, lookup, insert,
  lookup-insert, str_eq, eq_iff, if◌then◌else◌, Bool-cases, inl, inr,
}
use constelfs.Prelude.Maps.{Distinct}
use constelfs.Server.State.{FileInfo, ChunkInfo}
use constelfs.Server.Persistence.{
  as_file, as_chunk, load_files_loop, load_files, load_chunks_loop, load_chunks,
}
use constelfs.Server.Persistence.Database.{Bolt, IsBolt, Stored}

-- The record that the bytes of a key stand for.
abbrev pub decoded : {A : Type 0} → (Stored → Option A) → Option Stored → Option A
decoded decode none = none
decoded decode (some v) = decode v

abbrev or_before : {A : Type 0} → Option A → Option A → Option A
or_before none before = before
or_before (some a) before = some a

-- A loop that inserts each value that decodes under its own key, over pairs that stand under these keys.
module _ {A : Type 0} (decode : Stored → Option A) (key : A → String) where
  abbrev pub inserted : Map A → Option A → Map A
  inserted acc none = acc
  inserted acc (some a) = insert (key a) a acc

  -- Each value stands under its own key.
  abbrev pub AreKeyed : Map Stored → Type 0
  AreKeyed m = (k : String) (a : A) → decoded decode (lookup k m) ≡ some a → key a ≡ k

  lookup-inserted :
      (acc : Map A) (o : Option A) (j k : String)
      → ((a : A) → o ≡ some a → key a ≡ j)
      → lookup k (inserted acc o)
        ≡ (if str_eq j k then or_before o (lookup k acc) else lookup k acc)
  lookup-inserted acc none j k keyed = ground arith
  lookup-inserted acc (some a) j k keyed =
      rw (lookup-insert (key a) k a acc) (rw (keyed a refl) (ground arith))

  merge-fresh :
      (rest o before : Option A)
      → rest ≡ none
      → or_before rest (or_before o before) ≡ or_before o before
  merge-fresh rest o before e = rw e refl

  AreKeyed-tail :
      (j : String) (v : Stored) (m : Map Stored)
      → lookup j m ≡ none
      → AreKeyed ((j, v) ∷ m)
      → AreKeyed m
  unfolding lookup
  AreKeyed-tail j v m fresh keyed k a e = keyed k a (elim (Bool-cases (str_eq j k)) [
    | inl same ↦ cc (fresh, e, ap (λ (i : String). lookup i m) ((eq_iff j k).0 same))
    | inr differ ↦ rw differ e
  ])

  module _ (loop : Map A → Map Stored → Map A) (loop-nil : (acc : Map A) → loop acc [] ≡ acc)
      (loop-cons : (acc : Map A) (k : String) (v : Stored) (m : Map Stored)
        → loop acc ((k, v) ∷ m) ≡ loop (inserted acc (decode v)) m) where
    pub lookup-loop :
        (acc : Map A) (m : Map Stored) (k : String)
        → Distinct m
        → AreKeyed m
        → lookup k (loop acc m) ≡ or_before (decoded decode (lookup k m)) (lookup k acc)
    unfolding lookup
    lookup-loop acc [] k d keyed = ap (lookup k) (loop-nil acc)
    lookup-loop acc ((j, v) ∷ m) k d keyed =
        let head : (a : A) → decode v ≡ some a → key a ≡ j =
          λ a e. keyed j a (rw ((eq_iff j j).1 refl) e) in
        ap (lookup k) (loop-cons acc j v m)
        ∙ lookup-loop (inserted acc (decode v)) m k d.1 (AreKeyed-tail j v m d.0 keyed)
        ∙ ap (or_before (decoded decode (lookup k m))) (lookup-inserted acc (decode v) j k head)
        ∙ elim (Bool-cases (str_eq j k)) [
          | inl e ↦ rw e (
              merge-fresh (decoded decode (lookup k m)) (decode v) (lookup k acc)
                (ap (decoded decode) (rw ((eq_iff j k).0 e) at d.0)))
          | inr e ↦ rw e refl
        ]

or_before-none : {A : Type 0} (o : Option A) → or_before o none ≡ o
or_before-none none = refl
or_before-none (some a) = refl

-- The file and the chunk that the database holds under an id.
abbrev pub file_at : {Db : Type 0} → Bolt Db → String → Db → Option FileInfo
file_at bolt k db = decoded as_file (lookup k (bolt.entries "Files" db))

abbrev pub chunk_at : {Db : Type 0} → Bolt Db → String → Db → Option ChunkInfo
chunk_at bolt k db = decoded as_chunk (lookup k (bolt.entries "Chunks" db))

load_files_loop-cons :
    (acc : Map FileInfo) (k : String) (v : Stored) (m : Map Stored)
    → load_files_loop acc ((k, v) ∷ m)
      ≡ load_files_loop (inserted as_file (λ f. f.file_id) acc (as_file v)) m
unfolding load_files_loop
load_files_loop-cons acc k v m = refl

load_chunks_loop-cons :
    (acc : Map ChunkInfo) (k : String) (v : Stored) (m : Map Stored)
    → load_chunks_loop acc ((k, v) ∷ m)
      ≡ load_chunks_loop (inserted as_chunk (λ c. c.chunk_id) acc (as_chunk v)) m
unfolding load_chunks_loop
load_chunks_loop-cons acc k v m = refl

load_files_loop-nil : (acc : Map FileInfo) → load_files_loop acc [] ≡ acc
unfolding load_files_loop
load_files_loop-nil acc = refl

load_chunks_loop-nil : (acc : Map ChunkInfo) → load_chunks_loop acc [] ≡ acc
unfolding load_chunks_loop
load_chunks_loop-nil acc = refl

module _ {Db : Type 0} {bolt : Bolt Db} (laws : IsBolt bolt) (k : String) (db : Db) where
  -- `LoadFiles` and `LoadChunks` give back exactly the records stored under their own ids.
  pub lookup-load_files :
      ((j : String) (f : FileInfo) → file_at bolt j db ≡ some f → f.file_id ≡ j)
      → lookup k (load_files bolt db) ≡ file_at bolt k db
  unfolding load_files lookup
  lookup-load_files keyed =
      lookup-loop as_file (λ f. f.file_id) load_files_loop load_files_loop-nil load_files_loop-cons
        [] (bolt.entries "Files" db) k (laws.entries-Distinct "Files" db) keyed
      ∙ or_before-none _

  pub lookup-load_chunks :
      ((j : String) (c : ChunkInfo) → chunk_at bolt j db ≡ some c → c.chunk_id ≡ j)
      → lookup k (load_chunks bolt db) ≡ chunk_at bolt k db
  unfolding load_chunks lookup
  lookup-load_chunks keyed =
      lookup-loop as_chunk (λ c. c.chunk_id) load_chunks_loop load_chunks_loop-nil
        load_chunks_loop-cons [] (bolt.entries "Chunks" db) k (laws.entries-Distinct "Chunks" db)
        keyed
      ∙ or_before-none _
