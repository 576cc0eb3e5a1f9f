-- ===== src/Server/Persistence/Database.antt =====
-- The bbolt database (go.etcd.io/bbolt) as internal/server/persistence.go uses it: an interface,
-- with the documented behaviour that the proofs rely on.
use constelfs.Prelude.{
  ℕ, suc, ◌*◌, String, Bool, true, not, leb, ◌&&◌, List, Option, none, some, ◌≡◌, Map, lookup,
  str_eq, if◌then◌else◌,
}
use constelfs.Prelude.Maps.{Distinct}
use constelfs.Server.State.{Node, FileInfo, FileVersion, ChunkInfo, SpeedTestResult}

-- The value of a key: the JSON text of a record, as json.Marshal writes it and json.Unmarshal
-- reads it back, the bytes of a text, or other bytes.
pub data Stored : Type 0 where
  node : Node → Stored
  file : FileInfo → Stored
  version : FileVersion → Stored
  chunk : ChunkInfo → Stored
  speed_test : SpeedTestResult → Stored
  text : String → Stored
  corrupt : List ℕ → Stored

-- A read-write transaction that puts or deletes one key of a bucket, `none` if it is rolled back,
-- and the pairs of a bucket in the order of `ForEach`.
pub record Bolt (Db : Type 0) : Type 0 where
  pub put : String → String → Stored → Db → Option Db
  pub delete : String → String → Db → Option Db
  pub entries : String → Db → Map Stored

-- A committed transaction changes its key and nothing else; a bucket holds a key at most once.
pub record IsBolt {Db : Type 0} (bolt : Bolt Db) : Type 0 where
  pub entries-put :
      (b k : String) (v : Stored) (db db' : Db)
      → bolt.put b k v db ≡ some db'
      → (c j : String)
      → lookup j (bolt.entries c db')
        ≡ (if str_eq b c && str_eq k j then some v else lookup j (bolt.entries c db))
  pub entries-delete :
      (b k : String) (db db' : Db)
      → bolt.delete b k db ≡ some db'
      → (c j : String)
      → lookup j (bolt.entries c db')
        ≡ (if str_eq b c && str_eq k j then none else lookup j (bolt.entries c db))
  pub entries-Distinct : (b : String) (db : Db) → Distinct (bolt.entries b db)

abbrev chars : String → ℕ
chars String.[] = 0
chars (String.◌∷◌ c s) = suc (chars s)

-- A key that bbolt takes: not blank, and not above 32768 bytes, of which a character has at most four.
unfoldable pub is_key : String → Bool
is_key k = not (str_eq k "") && leb (4 * chars k) 32768

-- No transaction fails that puts a value under such a key, or deletes one: the disk is not full, and the database is
-- open.
pub record IsReliable {Db : Type 0} (bolt : Bolt Db) : Type 0 where
  pub puts :
      (b k : String) (v : Stored) (db : Db)
      → is_key k ≡ true
      → (db' : Db) × (bolt.put b k v db ≡ some db')
  pub deletes : (b k : String) (db : Db) → (db' : Db) × (bolt.delete b k db ≡ some db')
