-- ===== src/Server/Persistence/Removal.antt =====
-- `DeleteChunksByFileID` of internal/server/persistence.go: one transaction that deletes several keys. What is
-- done inside a transaction, and its end, are an interface beside that of `Server.Persistence.Database`.
use constelfs.Prelude.{
  String, Bool, false, ◌&&◌, List, [], ◌∷◌, Option, none, some, ◌≡◌, refl, sym, ap, ◌∙◌, arith, Map,
  lookup, str_eq, eq_iff, if◌then◌else◌, Bool-cases, inl, inr,
}
use constelfs.Prelude.Maps.{Distinct}
use constelfs.Server.State.{Time, ChunkInfo}
use constelfs.Server.Scheduler.{contains}
use constelfs.Server.Persistence.{as_chunk, commit, load_chunks}
use constelfs.Server.Persistence.Database.{Bolt, IsBolt, Stored}
use constelfs.Server.Persistence.Loading.{decoded, chunk_at, lookup-load_chunks}

-- Inside a read-write transaction: deleting a key, `none` if that fails, and the commit, `none` if it is rolled back.
pub record Transaction (Db : Type 0) : Type 0 where
  pub erase : String → String → Db → Option Db
  pub close : Db → Option Db

-- Inside a transaction its own deletions are seen, and none fails; it commits what was done.
pub record IsTransaction {Db : Type 0} (bolt : Bolt Db) (tx : Transaction Db) : Type 0 where
  pub erases :
      (b k : String) (db : Db)
      → (db' : Db) × (tx.erase b k db ≡ some db')
        × ((c j : String)
            → lookup j (bolt.entries c db')
              ≡ (if str_eq b c && str_eq k j then none else lookup j (bolt.entries c db)))
  pub closes :
      (db : Db)
      → (db' : Db) × (tx.close db ≡ some db')
        × ((c : String) → bolt.entries c db' ≡ bolt.entries c db)

-- Whether a value is a chunk of the file.
abbrev is_of : String → Option ChunkInfo → Bool
is_of id none = false
is_of id (some c) = str_eq c.file_id id

-- The keys that `ForEach` collects.
unfoldable keys_of : String → Map Stored → List String
keys_of id [] = []
keys_of id ((k, v) ∷ m) =
    let rest = keys_of id m in if is_of id (as_chunk v) then k ∷ rest else rest

module _ {Db : Type 0} (bolt : Bolt Db) (tx : Transaction Db) where
  -- The loop over these keys. An error is only logged.
  unfoldable erase_all : List String → Db → Db
  erase_all [] db = db
  erase_all (k ∷ ks) db = erase_all ks (commit bolt (λ (t : Time). "") db (tx.erase "Chunks" k db))

  unfoldable pub delete_chunks_by_file_id : String → Db → Db
  unfolding keys_of erase_all
  delete_chunks_by_file_id id db =
      commit bolt (λ (t : Time). "") db
        (tx.close (erase_all (keys_of id (bolt.entries "Chunks" db)) db))

-- A chunk, unless it is of the file.
abbrev pub kept : String → Option ChunkInfo → Option ChunkInfo
kept id none = none
kept id (some c) = if str_eq c.file_id id then none else some c

kept-some : (id : String) (c : ChunkInfo) (o : Option ChunkInfo) → kept id o ≡ some c → o ≡ some c
kept-some id c none e = e
kept-some id c (some d) e = ground (arith, e)

kept-decoded :
    (id : String) (o : Option Stored)
    → decoded as_chunk (if is_of id (decoded as_chunk o) then none else o)
      ≡ kept id (decoded as_chunk o)
kept-decoded id none = refl
kept-decoded id (some v) = ground arith

contains-keys_of :
    (id j : String) (m : Map Stored)
    → Distinct m
    → contains (keys_of id m) j ≡ is_of id (decoded as_chunk (lookup j m))
unfolding keys_of lookup
contains-keys_of id j [] d = refl
contains-keys_of id j ((k, v) ∷ m) d =
    let rest = contains-keys_of id j m d.1 in
    elim (Bool-cases (str_eq k j)) [
      | inl e ↦
          let gone : lookup j m ≡ none = ap (λ i. lookup i m) (sym ((eq_iff k j).0 e)) ∙ d.0 in
          elim (Bool-cases (is_of id (as_chunk v))) [
            | inl f ↦ rw (e, f, e) refl
            | inr f ↦ rw (e, f) (rest ∙ rw gone refl)
          ]
      | inr e ↦ elim (Bool-cases (is_of id (as_chunk v))) [
        | inl f ↦ rw (e, f, e) rest
        | inr f ↦ rw (e, f) rest
      ]
    ]

module _ {Db : Type 0} {bolt : Bolt Db} {tx : Transaction Db} (laws : IsBolt bolt)
    (sound : IsTransaction bolt tx) where
  lookup-erase_all :
      (ks : List String) (db : Db) (j : String)
      → lookup j (bolt.entries "Chunks" (erase_all bolt tx ks db))
        ≡ (if contains ks j then none else lookup j (bolt.entries "Chunks" db))
  unfolding erase_all
  lookup-erase_all [] db j = refl
  lookup-erase_all (k ∷ ks) db j =
      let (db', e, after) = sound.erases "Chunks" k db in
      rw e (lookup-erase_all ks db' j ∙ ground (arith, after "Chunks" j))

  entries-delete_chunks :
      (id : String) (db : Db) (j : String)
      → lookup j (bolt.entries "Chunks" (delete_chunks_by_file_id bolt tx id db))
        ≡ (if is_of id (chunk_at bolt j db) then none else lookup j (bolt.entries "Chunks" db))
  unfolding delete_chunks_by_file_id
  entries-delete_chunks id db j =
      let ks = keys_of id (bolt.entries "Chunks" db) in
      let (db', e, same) = sound.closes (erase_all bolt tx ks db) in
      rw (e, same "Chunks")
        (lookup-erase_all ks db j
          ∙ ap (λ (b : Bool). if b then none else lookup j (bolt.entries "Chunks" db))
              (contains-keys_of id j (bolt.entries "Chunks" db)
                (laws.entries-Distinct "Chunks" db)))

  chunk_at-delete_chunks :
      (id : String) (db : Db) (j : String)
      → chunk_at bolt j (delete_chunks_by_file_id bolt tx id db) ≡ kept id (chunk_at bolt j db)
  chunk_at-delete_chunks id db j =
      ap (decoded as_chunk) (entries-delete_chunks id db j)
      ∙ kept-decoded id (lookup j (bolt.entries "Chunks" db))

  -- Where no deletion inside a transaction fails and the transaction commits what it did, and each chunk in the bucket
  -- stands under its own id: after `DeleteChunksByFileID`, `LoadChunks` gives under each id the chunk that it gave
  -- before, unless it is a chunk of the file, and nothing under the ids of the file's chunks.
  pub delete_chunks-load_chunks :
      (id : String) (db : Db) (k : String)
      → ((j : String) (c : ChunkInfo) → chunk_at bolt j db ≡ some c → c.chunk_id ≡ j)
      → lookup k (load_chunks bolt (delete_chunks_by_file_id bolt tx id db))
        ≡ kept id (lookup k (load_chunks bolt db))
  delete_chunks-load_chunks id db k keyed =
      lookup-load_chunks laws k (delete_chunks_by_file_id bolt tx id db)
        (λ j c e. keyed j c (kept-some id c _ (sym (chunk_at-delete_chunks id db j) ∙ e)))
      ∙ chunk_at-delete_chunks id db k
      ∙ ap (kept id) (sym (lookup-load_chunks laws k db keyed))
