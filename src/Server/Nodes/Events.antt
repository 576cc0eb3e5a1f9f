-- ===== src/Server/Nodes/Events.antt =====
-- The steps of the node registry (internal/server/node.go): a tick of the node checker, and the
-- requests that the two routes under /api/v1/nodes take. The server's lock makes each a step, so
-- every interleaving of clients, agents and the checker is a list of these.
use constelfs.Prelude.{String, List, [], ◌∷◌}
use constelfs.Server.State.{Time, Server}
use constelfs.Server.Nodes.{Method, NodeBody, check_node_status, handle_nodes, handle_node}

pub data Event : Type 0 where
  tick : Event
  on_nodes : Method → NodeBody → Event
  on_node : Method → String → NodeBody → Event

unfoldable pub step : Server → Time × Event → Server
step s (now, tick) = check_node_status s now
step s (now, on_nodes m b) = (handle_nodes s now m b).0
step s (now, on_node m path b) = (handle_node s now m path b).0

unfoldable pub run : Server → List (Time × Event) → Server
unfolding step
run s [] = s
run s (e ∷ es) = run (step s e) es
