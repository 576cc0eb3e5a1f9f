-- ===== src/Examples/Beats.antt =====
-- The theorem on heartbeats, applied: a node that was configured, and a disk with one chunk of three bytes.
use constelfs.Prelude.{true, List, [], ◌∷◌, ◌++◌, none, lookup, pos, refl, arith}
use constelfs.Prelude.Text.Names.{has_char}
use constelfs.Config.{NodeConfig, default_node}
use constelfs.Server.State.{Time}
use constelfs.Server.Nodes.{NodeBody}
use constelfs.Server.Nodes.Events.{Event, tick, run}
use constelfs.Server.Nodes.Heartbeats.{IsFresh}
use constelfs.Agent.Heartbeats.{ticked, heartbeat_loop}
use constelfs.Agent.Heartbeats.Pace.{Beat, IsKnownAt, beat-IsFresh}
use constelfs.Prelude.Text.Urls.{is_plain}
use constelfs.Examples.Nodes.{clear_only, clear_only-IsParser}
use constelfs.Examples.Data.{full_server}

abbrev pub config : NodeConfig
config = record (default_node "c") { advertise_ip = "10.0.0.1"; port = pos 9000 }

abbrev nothing : NodeBody
nothing = record { register = none; configure = none; heartbeat = none; speed_test = none }

abbrev first_beat : Beat
first_beat = record {
  time = 5000;
  reading = record {
    disk = record { temp = []; others = []; chunks = ("x", 1 ∷ 2 ∷ 3 ∷ []) ∷ [] };
    listed = true;
    sized = λ name. true;
    gauges = record { cpu_usage = 0; memory_usage = 0; disk_usage = 0; total_disk = pos 1000 };
    others = nothing;
  };
}

abbrev before : List (Time × Event)
before = (4000, tick) ∷ []

abbrev after : List (Time × Event)
after = (6000, tick) ∷ (7000, tick) ∷ []

beat-IsFresh_example :
    let beat = heartbeat_loop clear_only config (ticked first_beat.time first_beat.reading ∷ []) in
    IsKnownAt first_beat (lookup "c" (run full_server (before ++ beat)).nodes)
    × IsFresh 5000 (lookup "c" (run full_server ((before ++ beat) ++ after)).nodes)
unfolding has_char is_plain
beat-IsFresh_example =
    beat-IsFresh clear_only-IsParser full_server before after config first_beat refl refl
      ((omega arith, omega arith), ((omega arith, omega arith), tt))
