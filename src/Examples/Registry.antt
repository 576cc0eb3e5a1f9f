-- ===== src/Examples/Registry.antt =====
-- The theorems on the node registry and its recovery, applied.
use native.Mathlib.Omega.{arith}
use constelfs.Prelude.{ℕ, pos, String, List, [], ◌∷◌, none, some, refl, lookup}
use constelfs.Server.Nodes.{post, delete, NodeBody}
use constelfs.Server.Nodes.Events.{Event, tick, on_nodes, on_node, step, run}
use constelfs.Server.Nodes.Lifecycle.{status_of, Transition, step-Transition}
use constelfs.Server.Nodes.Heartbeats.{IsFresh, run-IsFresh}
use constelfs.Examples.Data.{full_server}

-- The time has no text here: no speed test is saved.
abbrev pub no_text : ℕ → String
no_text t = ""

abbrev no_body : NodeBody
no_body = record { register = none; configure = none; heartbeat = none; speed_test = none }

-- A node registers and is configured, the checker ticks after its time, and an unknown node is deleted.
abbrev registration : NodeBody
registration = record no_body {
  register = some (record {
    node_id = "a";
    ip_address = "10.0.0.1";
    port = pos 9000;
    total_disk_space = pos 1000;
    cpu_usage = 0;
    memory_usage = 0;
    disk_usage = 0;
  });
}

abbrev configuration : NodeBody
configuration = record no_body {
  configure = some (record { storage_path = "/data"; allocated_space = pos 500 });
}

abbrev life : List (ℕ × Event)
life =
    (1000, on_nodes post registration)
    ∷ (2000, on_node post "/api/v1/nodes/a/configure" configuration)
    ∷ (200000000000, tick)
    ∷ (200000000001, on_node delete "/api/v1/nodes/b" no_body)
    ∷ []

step-Transition_example :
    Transition
      (status_of (lookup "a" full_server.nodes))
      (status_of (lookup "a" (step full_server (200000000000, tick)).nodes))
step-Transition_example = step-Transition full_server 200000000000 tick "a"

-- The checker ticks and a client asks to delete the node, 80 seconds after its heartbeat at 1000.
abbrev soon : List (ℕ × Event)
soon = (80000000000, tick) ∷ (80000000000, on_node delete "/api/v1/nodes/a" no_body) ∷ []

run-IsFresh_example : IsFresh 1000 (lookup "a" (run full_server soon).nodes)
unfolding lookup
run-IsFresh_example =
    run-IsFresh 1000 full_server soon "a"
      ((omega arith, omega arith), ((omega arith, omega arith), tt)) (refl, omega arith)
