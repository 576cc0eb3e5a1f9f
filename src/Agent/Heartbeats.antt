-- ===== src/Agent/Heartbeats.antt =====
-- What an agent tells the server: the request of its registration, its heartbeats and the storage information, of
-- internal/node/agent.go and storage.go. The readings of the gauges (`Agent.Startup`) and the signals that the loop
-- waits for are parameters.
pub mod Pace
use constelfs.Prelude.{
  ℕ, ◌+◌, ◌/◌, ◌%◌, ◌^◌, suc, String, Bool, true, false, not, ◌&&◌, List, [], ◌∷◌, Option, none,
  some, Map, ℤ, pos, length, ◌==◌, if◌then◌else◌,
}
use constelfs.Prelude.Text.{concat}
use constelfs.Config.{NodeConfig}
use constelfs.Server.State.{Time, Float}
use constelfs.Server.Nodes.{RegisterRequest, HeartbeatRequest, NodeBody, post}
use constelfs.Server.Nodes.Events.{Event, on_node}
use constelfs.Agent.Chunks.Places.{Disk}

-- What the operating system tells: the usages, and the total disk space.
pub record Gauges : Type 0 where
  pub cpu_usage : Float
  pub memory_usage : Float
  pub disk_usage : Float
  pub total_disk : ℤ

pub record StorageInfo : Type 0 where
  pub chunk_count : ℕ
  pub total_size : ℕ

-- The loop of `GetStorageInfo` over the directory `chunks`; `sized` tells which entries have a size.
unfoldable pub count_entries : (String → Bool) → Map (List ℕ) → StorageInfo
count_entries sized [] = record { chunk_count = 0; total_size = 0 }
count_entries sized ((name, bytes) ∷ entries) =
    let rest = count_entries sized entries in
    record {
      chunk_count = suc rest.chunk_count;
      total_size = if sized name then length bytes + rest.total_size else rest.total_size;
    }

-- `GetStorageInfo`; `listed` tells whether the directory can be read.
unfoldable pub get_storage_info : Bool → (String → Bool) → Disk → StorageInfo
unfolding count_entries
get_storage_info false sized d = record { chunk_count = 0; total_size = 0 }
get_storage_info true sized d = count_entries sized d.chunks

-- The request of `register`.
abbrev pub register_request : NodeConfig → Gauges → RegisterRequest
register_request config g = record {
  node_id = config.node_id;
  ip_address = config.advertise_ip;
  port = config.port;
  total_disk_space = g.total_disk;
  cpu_usage = g.cpu_usage;
  memory_usage = g.memory_usage;
  disk_usage = g.disk_usage;
}

-- Whether encoding/json writes a float64: it has no text for NaN and the infinities.
abbrev is_finite : Float → Bool
is_finite x = not (x / 2 ^ 52 % 2 ^ 11 == 2047)

abbrev pub encodes : Gauges → Bool
encodes g = is_finite g.cpu_usage && is_finite g.memory_usage && is_finite g.disk_usage

-- What the server decodes of the body that `json.Marshal` gives. Its error is dropped, and leaves an empty body.
abbrev pub marshal : {R : Type 0} → Gauges → R → Option R
marshal g req = if encodes g then some req else none

-- One reading of the disk and the gauges.
pub record Reading : Type 0 where
  pub disk : Disk
  pub listed : Bool
  pub sized : String → Bool
  pub gauges : Gauges
  pub others : NodeBody

-- The text of the URL behind the server's address: the id as it is.
abbrev pub heartbeat_path : String → String
heartbeat_path node_id = concat "/api/v1/nodes/" (concat node_id (concat "/" "heartbeat"))

abbrev pub heartbeat_request : Reading → HeartbeatRequest
heartbeat_request r = record {
  cpu_usage = r.gauges.cpu_usage;
  memory_usage = r.gauges.memory_usage;
  disk_usage = r.gauges.disk_usage;
  used_space = pos (get_storage_info r.listed r.sized r.disk).total_size;
  status = "online";
}

-- The request of `sendHeartbeat`, as it arrives: `parse` is what the server reads as the path of a URL, if it is one.
-- The answer is not looked at.
unfoldable pub send_heartbeat : (String → Option String) → NodeConfig → Reading → Option Event
unfolding get_storage_info
send_heartbeat parse config r = elim (parse (heartbeat_path config.node_id)) [
  | none ↦ none
  | some path ↦
      some
        (on_node post path (record r.others { heartbeat = marshal r.gauges (heartbeat_request r) }))
]

abbrev pub and_next : Time → Option Event → List (Time × Event) → List (Time × Event)
and_next now none rest = rest
and_next now (some e) rest = (now, e) ∷ rest

-- What the loop waits for.
pub data Signal : Type 0 where
  ticked : Time → Reading → Signal
  stopped : Signal

-- `heartbeatLoop`: the requests that it sends on these signals, once each.
unfoldable pub heartbeat_loop :
    (String → Option String) → NodeConfig → List Signal → List (Time × Event)
unfolding send_heartbeat
heartbeat_loop parse config [] = []
heartbeat_loop parse config (ticked now r ∷ signals) =
    and_next now (send_heartbeat parse config r) (heartbeat_loop parse config signals)
heartbeat_loop parse config (stopped ∷ signals) = []
