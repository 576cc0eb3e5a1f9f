-- ===== src/Server/Persistence/Tables.antt =====
-- The Chunks bucket (internal/server/persistence.go) as a transaction that saves a chunk leaves it.
use constelfs.Prelude.{
  true, String, ◌&&◌, Option, some, ◌≡◌, ap, ◌∙◌, arith, lookup, str_eq, if◌then◌else◌,
}
use constelfs.Server.State.{Time, ChunkInfo, save_chunk}
use constelfs.Server.Persistence.{as_chunk, put_chunk, apply, commit}
use constelfs.Server.Persistence.Database.{Bolt, IsBolt, IsReliable, is_key, Stored, chunk}
use constelfs.Server.Persistence.Loading.{decoded, chunk_at}

module _ {Db : Type 0} {bolt : Bolt Db} (laws : IsBolt bolt) (reliable : IsReliable bolt) where
  -- One key after one transaction.
  module _ (c k b j : String) (db : Db) where
    pub lookup-commit_put :
        (v : Stored)
        → is_key j ≡ true
        → lookup k (bolt.entries c (commit bolt (λ (t : Time). "") db (bolt.put b j v db)))
          ≡ (if str_eq b c && str_eq j k then some v else lookup k (bolt.entries c db))
    lookup-commit_put v valid =
        let (db', e) = reliable.puts b j v db valid in rw e (laws.entries-put b j v db db' e c k)

  -- The same, whatever the values are read as.
  module _ {A : Type 0} (decode : Stored → Option A) (c k b j : String) (db : Db) where
    decoded-put :
        (v : Stored)
        → is_key j ≡ true
        → decoded decode
            (lookup k (bolt.entries c (commit bolt (λ (t : Time). "") db (bolt.put b j v db))))
          ≡ (if str_eq b c && str_eq j k
              then decode v
              else decoded decode (lookup k (bolt.entries c db)))
    decoded-put v valid = ap (decoded decode) (lookup-commit_put c k b j db v valid) ∙ ground arith

  -- A chunk that is saved, under an id that is a key.
  pub chunk_at-save_chunk :
      (format : Time → String) (k : String) (c : ChunkInfo) (db : Db)
      → is_key c.chunk_id ≡ true
      → chunk_at bolt k (apply bolt format (save_chunk c) db)
        ≡ (if str_eq c.chunk_id k then some c else chunk_at bolt k db)
  unfolding apply put_chunk
  chunk_at-save_chunk format k c db =
      decoded-put as_chunk "Chunks" k "Chunks" c.chunk_id db (chunk c)
