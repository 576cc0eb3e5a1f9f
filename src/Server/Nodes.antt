-- ===== src/Server/Nodes.antt =====
-- The node registry, internal/server/node.go. Every handler holds the server's lock from its
-- first access to its last, so a handler is one step. `now` is the clock's reading in the step,
-- and a request is what decoding its body gives: `none` where that fails.
pub mod Events
pub mod Lifecycle
pub mod Heartbeats
use constelfs.Prelude.{
  ℕ, ◌-◌, ◌*◌, String, Bool, true, false, ◌&&◌, ◌||◌, not, List, [], ◌∷◌, ◌++◌, Option, none, some,
  Map, lookup, insert, remove, values, ℤ, pos, ltb_ℤ, ltb, if◌then◌else◌,
}
use constelfs.Prelude.Text.{trim_prefix, split_two}
use constelfs.Prelude.{str_eq}
use constelfs.Server.State.{
  Float, one, Time, NodeStatus, registered, configured, online, offline, Node, SpeedTestResult,
  Write, save_node, delete_node, save_speed_test, Server, sync_nodes, save, Response, error,
  success, node_list, node_info, node_registered, node_configured,
}

pub record RegisterRequest : Type 0 where
  pub node_id : String
  pub ip_address : String
  pub port : ℤ
  pub total_disk_space : ℤ
  pub cpu_usage : Float
  pub memory_usage : Float
  pub disk_usage : Float

pub record ConfigureRequest : Type 0 where
  pub storage_path : String
  pub allocated_space : ℤ

pub record HeartbeatRequest : Type 0 where
  pub cpu_usage : Float
  pub memory_usage : Float
  pub disk_usage : Float
  pub used_space : ℤ
  pub status : String

-- HeartbeatTimeout, 90 seconds, in nanoseconds.
abbrev pub heartbeat_timeout : ℕ
heartbeat_timeout = 90 * 1000000000

-- `status == NodeStatusOnline`, and so on.
abbrev pub is_online : NodeStatus → Bool
is_online online = true
is_online _ = false

abbrev pub is_configured : NodeStatus → Bool
is_configured configured = true
is_configured _ = false

abbrev pub is_offline : NodeStatus → Bool
is_offline offline = true
is_offline _ = false

-- The three nested conditions of the loop of `checkNodeStatus`.
unfoldable pub timed_out : Time → Node → Bool
timed_out now node =
    (is_configured node.status || is_online node.status)
    && ltb heartbeat_timeout (now - node.last_heartbeat)
    && not (is_offline node.status)

-- The loop: the nodes, the transactions in order, and `changed`.
unfoldable pub check_loop : Time → Map Node → Map Node × List Write × Bool
unfolding timed_out
check_loop now [] = ([], [], false)
check_loop now ((k, node) ∷ m) =
    let (m', saved, changed) = check_loop now m in
    let node' = record node { status = offline } in
    if timed_out now node
    then ((k, node') ∷ m', save_node node' ∷ saved, true)
    else ((k, node) ∷ m', saved, changed)

-- `if s.persist != nil` for each transaction of a loop.
abbrev if_persist : Bool → List Write → List Write
if_persist true ws = ws
if_persist false ws = []

unfoldable pub check_node_status : Server → Time → Server
unfolding check_loop sync_nodes
check_node_status s now =
    let (m, saved, changed) = check_loop now s.nodes in
    let t = record s { nodes = m; writes = s.writes ++ if_persist s.persist saved } in
    if changed then sync_nodes t else t

unfoldable pub list_nodes : Server → Response
list_nodes s = node_list (values s.nodes)

unfoldable pub get_node : Server → String → Response
get_node s id = elim (lookup id s.nodes) [
  | none ↦ error 404 "{\"error\":\"Node not found\"}"
  | some node ↦ node_info node
]

-- `deleteNode`.
unfoldable pub remove_node : Server → String → Server × Response
unfolding save sync_nodes
remove_node s id = elim (lookup id s.nodes) [
  | none ↦ (s, error 404 "{\"error\":\"Node not found\"}")
  | some node ↦
      if is_online node.status
      then (s, error 400 "{\"error\":\"Cannot delete online node, please stop it first\"}")
      else (sync_nodes (save (delete_node id) (record s { nodes = remove id s.nodes })), success)
]

-- The node that a registration leaves under its id.
unfoldable pub registered_node : Time → RegisterRequest → Option Node → Node
registered_node now req none = record {
  id = pos 0;
  node_id = req.node_id;
  ip_address = req.ip_address;
  port = req.port;
  status = registered;
  storage_path = "";
  total_disk_space = req.total_disk_space;
  allocated_space = pos 0;
  used_space = pos 0;
  cpu_usage = req.cpu_usage;
  memory_usage = req.memory_usage;
  disk_usage = req.disk_usage;
  upload_speed = 0;
  download_speed = 0;
  online_rate = one;
  last_heartbeat = now;
  last_speed_test = 0;
  configured_at = 0;
  created_at = now;
}
registered_node now req (some node) = record node {
  ip_address = req.ip_address;
  port = req.port;
  total_disk_space = req.total_disk_space;
  cpu_usage = req.cpu_usage;
  memory_usage = req.memory_usage;
  disk_usage = req.disk_usage;
  last_heartbeat = now;
}

-- A node stored under its id, its transaction, and `syncNodes`: how the handlers below end.
unfoldable pub store_node : String → Node → Server → Server
unfolding save sync_nodes
store_node id node s =
    sync_nodes (save (save_node node) (record s { nodes = insert id node s.nodes }))

unfoldable pub register_node : Server → Time → Option RegisterRequest → Server × Response
unfolding store_node registered_node
register_node s now none = (s, error 400 "Invalid request")
register_node s now (some req) = (
  store_node req.node_id (registered_node now req (lookup req.node_id s.nodes)) s,
  node_registered req.node_id registered,
)

unfoldable pub configure_node : Server → Time → String → Option ConfigureRequest → Server × Response
unfolding store_node
configure_node s now id none = (s, error 400 "Invalid request")
configure_node s now id (some req) = elim (lookup id s.nodes) [
  | none ↦ (s, error 404 "Node not found")
  | some node ↦
      let node' = record node {
        storage_path = req.storage_path;
        allocated_space = req.allocated_space;
        status = configured;
        configured_at = now;
      } in
      if ltb_ℤ node.total_disk_space req.allocated_space
      then (s, error 400 "Allocated space exceeds total disk space")
      else (store_node id node' s, node_configured node')
]

-- The status after a heartbeat.
abbrev pub revive : NodeStatus → NodeStatus
revive st = if is_configured st || is_offline st then online else st

unfoldable pub heartbeat_node : Server → Time → String → Option HeartbeatRequest → Server × Response
unfolding store_node
heartbeat_node s now id none = (s, error 400 "Invalid request")
heartbeat_node s now id (some req) = elim (lookup id s.nodes) [
  | none ↦ (s, error 404 "Node not found")
  | some node ↦
      let node' = record node {
        cpu_usage = req.cpu_usage;
        memory_usage = req.memory_usage;
        disk_usage = req.disk_usage;
        used_space = req.used_space;
        last_heartbeat = now;
        status = revive node.status;
      } in
      (store_node id node' s, success)
]

unfoldable pub speed_test_node : Server → Time → String → Option SpeedTestResult → Server × Response
unfolding save sync_nodes
speed_test_node s now id none = (s, error 400 "Invalid request")
speed_test_node s now id (some result) = elim (lookup id s.nodes) [
  | none ↦ (s, error 404 "Node not found")
  | some node ↦
      let node' = record node {
        upload_speed = result.upload_speed;
        download_speed = result.download_speed;
        last_speed_test = now;
      } in
      let t = record s { nodes = insert id node' s.nodes } in
      (sync_nodes (save (save_speed_test id result) (save (save_node node') t)), success)
]

pub data Method : Type 0 where
  get post put delete other : Method

-- What decoding a request's body gives, at the type of each handler.
pub record NodeBody : Type 0 where
  pub register : Option RegisterRequest
  pub configure : Option ConfigureRequest
  pub heartbeat : Option HeartbeatRequest
  pub speed_test : Option SpeedTestResult

unfoldable pub handle_nodes : Server → Time → Method → NodeBody → Server × Response
unfolding list_nodes register_node
handle_nodes s now get b = (s, list_nodes s)
handle_nodes s now post b = register_node s now b.register
handle_nodes s now _ b = (s, error 405 "Method not allowed")

-- The `switch` of `handleNode`, on the parts of the path and the method.
unfoldable pub dispatch_node : Server → Time → Method → List String → NodeBody → Server × Response
unfolding get_node remove_node configure_node heartbeat_node speed_test_node
dispatch_node s now get (id ∷ []) b = (s, get_node s id)
dispatch_node s now delete (id ∷ []) b = remove_node s id
dispatch_node s now post (id ∷ action ∷ []) b =
    if str_eq action "configure"
    then configure_node s now id b.configure
    else if str_eq action "heartbeat"
    then heartbeat_node s now id b.heartbeat
    else if str_eq action "speedtest"
    then speed_test_node s now id b.speed_test
    else (s, error 404 "Not found")
dispatch_node s now _ _ b = (s, error 404 "Not found")

unfoldable pub handle_node : Server → Time → Method → String → NodeBody → Server × Response
unfolding dispatch_node trim_prefix split_two
handle_node s now m path b = dispatch_node s now m (split_two (trim_prefix path "/api/v1/nodes/")) b
