-- ===== src/Server/Persistence/Recovery.antt =====
-- A restart of the server (`loadData` in internal/server/server.go): what the registry's
-- transactions have stored is what its memory held.
pub mod Mirroring
use constelfs.Prelude.{String, Option, none, some, ◌≡◌, true}
use constelfs.Server.State.{Time, Server}
use constelfs.Server.Nodes.{RegisterRequest, post}
use constelfs.Server.Nodes.Events.{Event, on_nodes}
use constelfs.Server.Persistence.Database.{Bolt, IsBolt, IsReliable, is_key}
use Mirroring.{Mirrors}

-- A registration whose id the bucket takes as a key.
abbrev pub registers : Event → Option RegisterRequest
registers (on_nodes post b) = b.register
registers _ = none

abbrev pub IsKept : Time × Event → Type 0
IsKept e = (r : RegisterRequest) → registers e.1 ≡ some r → is_key r.node_id ≡ true

module _ {Db : Type 0} {bolt : Bolt Db} (format : Time → String) (laws : IsBolt bolt)
    (reliable : IsReliable bolt) (db : Db) where
  abbrev Mirrored : Server → Type 0
  Mirrored s = Mirrors bolt format db s
