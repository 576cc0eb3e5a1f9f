-- ===== src/Server/Nodes/Lifecycle.antt =====
-- How the status of a node changes (internal/server/node.go): what the checker does to each node,
-- and which transitions the handlers make.
use constelfs.Prelude.{
  ◌⊎◌, String, true, false, List, [], ◌∷◌, ◌++◌, map, Option, none, some, ◌≡◌, refl, arith, Map,
  lookup, insert, remove, values, map_option, lookup-insert, lookup-remove, select, str_eq, eq_iff,
  if◌then◌else◌, inl, inr, Bool-cases, Option-cases, ltb_ℤ,
}
use constelfs.Prelude.Maps.{Distinct}
use constelfs.Server.State.{
  Time, NodeStatus, registered, configured, online, offline, Node, Write, save_node,
  SpeedTestResult, Server, save,
}
use constelfs.Server.Nodes.{
  RegisterRequest, ConfigureRequest, HeartbeatRequest, NodeBody, Method, get, post, delete,
  is_online, timed_out, if_persist, check_loop, check_node_status, remove_node, registered_node,
  store_node, register_node, configure_node, heartbeat_node, speed_test_node, handle_nodes,
  dispatch_node, handle_node, revive,
}
use constelfs.Server.Nodes.Events.{Event, tick, on_nodes, on_node, step}

-- A node as the checker leaves it.
abbrev pub expire : Time → Node → Node
expire now node = if timed_out now node then record node { status = offline } else node

pub lookup-check_loop :
    (now : Time) (k : String) (m : Map Node)
    → lookup k (check_loop now m).0 ≡ map_option (expire now) (lookup k m)
unfolding check_loop lookup
lookup-check_loop now k [] = refl
lookup-check_loop now k ((j, node) ∷ m) = ground (arith, lookup-check_loop now k m)

pub check_loop-Distinct : (now : Time) (m : Map Node) → Distinct m → Distinct (check_loop now m).0
unfolding check_loop
check_loop-Distinct now [] d = tt
check_loop-Distinct now ((j, node) ∷ m) d =
    ground (arith, lookup-check_loop now j m, check_loop-Distinct now m d.1)

-- The checker changes no id, and adds no node.
pub expire-source :
    (now : Time) (o : Option Node) (n : Node)
    → map_option (expire now) o ≡ some n
    → (n' : Node) × (o ≡ some n') × (n'.node_id ≡ n.node_id)
expire-source now none n e = cc
expire-source now (some n') n e = (n', refl, ground arith)

-- The nodes that the checker marks, as it saves them.
abbrev pub expired_nodes : Time → Map Node → List Write
expired_nodes now m =
    map (λ (n : Node). save_node (record n { status = offline }))
      (select (timed_out now) (values m))

pub check_loop-writes : (now : Time) (m : Map Node) → (check_loop now m).1 ≡ expired_nodes now m
unfolding check_loop
check_loop-writes now [] = refl
check_loop-writes now ((j, node) ∷ m) = ground (arith, check_loop-writes now m)

abbrev pub status_of : Option Node → Option NodeStatus
status_of o = map_option (λ (n : Node). n.status) o

-- The transitions of a node's status; `none` is a node that the registry does not know.
pub data Transition : Option NodeStatus → Option NodeStatus → Type 0 where
  stays : (o : Option NodeStatus) → Transition o o
  registers : Transition none (some registered)
  configures : (st : NodeStatus) → Transition (some st) (some configured)
  revives_configured : Transition (some configured) (some online)
  revives_offline : Transition (some offline) (some online)
  expires_configured : Transition (some configured) (some offline)
  expires_online : Transition (some online) (some offline)
  deletes : (st : NodeStatus) → is_online st ≡ false → Transition (some st) none

timed_out-status :
    (now : Time) (node : Node)
    → timed_out now node ≡ true
    → (node.status ≡ configured) ⊎ (node.status ≡ online)
unfolding timed_out
timed_out-status now node h = ground arith

expire-Transition :
    (now : Time) (o : Option Node)
    → Transition (status_of o) (status_of (map_option (expire now) o))
expire-Transition now none = stays none
expire-Transition now (some node) = elim (Bool-cases (timed_out now node)) [
  | inl e ↦ rw e (elim (timed_out-status now node e) [
    | inl p ↦ rw p expires_configured
    | inr p ↦ rw p expires_online
  ])
  | inr e ↦ rw e (stays _)
]

-- What a step does to a node, for all ids at once.
abbrev pub Evolves : Map Node → Map Node → Type 0
Evolves m m' = (k : String) → Transition (status_of (lookup k m)) (status_of (lookup k m'))

Evolves-insert :
    (k : String) (v : Node) (m : Map Node)
    → Transition (status_of (lookup k m)) (some v.status)
    → Evolves m (insert k v m)
Evolves-insert k v m h j = elim (Bool-cases (str_eq k j)) [
  | inl e ↦ rw (lookup-insert k j v m, e) (rw (← (eq_iff k j).0 e) h)
  | inr e ↦ rw (lookup-insert k j v m, e) (stays _)
]

Evolves-remove :
    (k : String) (m : Map Node) → Transition (status_of (lookup k m)) none → Evolves m (remove k m)
Evolves-remove k m h j = elim (Bool-cases (str_eq k j)) [
  | inl e ↦ rw (lookup-remove k j m, e) (rw (← (eq_iff k j).0 e) h)
  | inr e ↦ rw (lookup-remove k j m, e) (stays _)
]

pub nodes-save : (w : Write) (s : Server) → (save w s).nodes ≡ s.nodes
unfolding save
nodes-save w s = ground arith

pub nodes-store_node :
    (k : String) (v : Node) (s : Server) → (store_node k v s).nodes ≡ insert k v s.nodes
unfolding store_node
nodes-store_node k v s = ground arith

pub nodes-check_node_status :
    (s : Server) (now : Time) → (check_node_status s now).nodes ≡ (check_loop now s.nodes).0
unfolding check_node_status
nodes-check_node_status s now = ground arith

pub writes-check_node_status :
    (s : Server) (now : Time)
    → (check_node_status s now).writes ≡ s.writes ++ if_persist s.persist (check_loop now s.nodes).1
unfolding check_node_status
writes-check_node_status s now = ground arith

pub persist-check_node_status :
    (s : Server) (now : Time) → (check_node_status s now).persist ≡ s.persist
unfolding check_node_status
persist-check_node_status s now = ground arith

tick-Evolves : (s : Server) (now : Time) → Evolves s.nodes (check_node_status s now).nodes
tick-Evolves s now k =
    rw (nodes-check_node_status s now, lookup-check_loop now k s.nodes) (expire-Transition now _)

Evolves-refl : (m : Map Node) → Evolves m m
Evolves-refl m k = stays _

remove_node-Evolves : (s : Server) (k : String) → Evolves s.nodes (remove_node s k).0.nodes
unfolding remove_node
remove_node-Evolves s k = elim (Option-cases (lookup k s.nodes)) [
  | inl e ↦ rw (e, remove_node) (Evolves-refl s.nodes)
  | inr (node, e) ↦ elim (Bool-cases (is_online node.status)) [
    | inl on ↦ rw (e, remove_node) (rw on (Evolves-refl s.nodes))
    | inr off ↦
        rw (e, remove_node)
          (rw (off, nodes-save) (Evolves-remove k s.nodes (rw e (deletes node.status off))))
  ]
]

register_node-Evolves :
    (s : Server) (now : Time) (r : Option RegisterRequest)
    → Evolves s.nodes (register_node s now r).0.nodes
unfolding register_node
register_node-Evolves s now none = Evolves-refl s.nodes
register_node-Evolves s now (some r) =
    rw nodes-store_node
      (Evolves-insert r.node_id _ s.nodes (registered_node-Transition (lookup r.node_id s.nodes)))
  where
    registered_node-Transition :
        (o : Option Node) → Transition (status_of o) (some (registered_node now r o).status)
    registered_node-Transition none = registers
    registered_node-Transition (some node) = stays _

configure_node-Evolves :
    (s : Server) (now : Time) (k : String) (r : Option ConfigureRequest)
    → Evolves s.nodes (configure_node s now k r).0.nodes
unfolding configure_node
configure_node-Evolves s now k none = Evolves-refl s.nodes
configure_node-Evolves s now k (some r) = elim (Option-cases (lookup k s.nodes)) [
  | inl e ↦ rw (e, configure_node) (Evolves-refl s.nodes)
  | inr (node, e) ↦ elim (Bool-cases (ltb_ℤ node.total_disk_space r.allocated_space)) [
    | inl big ↦ rw (e, configure_node) (rw big (Evolves-refl s.nodes))
    | inr fits ↦
        rw (e, configure_node)
          (rw (fits, nodes-store_node) (Evolves-insert k _ s.nodes (rw e (configures node.status))))
  ]
]

revive-Transition : (st : NodeStatus) → Transition (some st) (some (revive st))
revive-Transition registered = stays _
revive-Transition configured = revives_configured
revive-Transition offline = revives_offline
revive-Transition _ = stays _

heartbeat_node-Evolves :
    (s : Server) (now : Time) (k : String) (r : Option HeartbeatRequest)
    → Evolves s.nodes (heartbeat_node s now k r).0.nodes
unfolding heartbeat_node
heartbeat_node-Evolves s now k none = Evolves-refl s.nodes
heartbeat_node-Evolves s now k (some r) = elim (Option-cases (lookup k s.nodes)) [
  | inl e ↦ rw (e, heartbeat_node) (Evolves-refl s.nodes)
  | inr (node, e) ↦
      rw (e, heartbeat_node)
        (rw nodes-store_node (Evolves-insert k _ s.nodes (rw e (revive-Transition node.status))))
]

speed_test_node-Evolves :
    (s : Server) (now : Time) (k : String) (r : Option SpeedTestResult)
    → Evolves s.nodes (speed_test_node s now k r).0.nodes
unfolding speed_test_node
speed_test_node-Evolves s now k none = Evolves-refl s.nodes
speed_test_node-Evolves s now k (some r) = elim (Option-cases (lookup k s.nodes)) [
  | inl e ↦ rw (e, speed_test_node) (Evolves-refl s.nodes)
  | inr (node, e) ↦
      rw (e, speed_test_node)
        (rw (nodes-save, nodes-save) (Evolves-insert k _ s.nodes (rw e (stays _))))
]

dispatch_node-Evolves :
    (s : Server) (now : Time) (m : Method) (parts : List String) (b : NodeBody)
    → Evolves s.nodes (dispatch_node s now m parts b).0.nodes
unfolding dispatch_node
dispatch_node-Evolves s now delete (k ∷ []) b = remove_node-Evolves s k
dispatch_node-Evolves s now post (k ∷ action ∷ []) b =
    elim (Bool-cases (str_eq action "configure")) [
      | inl e ↦ rw e (configure_node-Evolves s now k b.configure)
      | inr e ↦ rw e (elim (Bool-cases (str_eq action "heartbeat")) [
        | inl f ↦ rw f (heartbeat_node-Evolves s now k b.heartbeat)
        | inr f ↦ rw f (elim (Bool-cases (str_eq action "speedtest")) [
          | inl g ↦ rw g (speed_test_node-Evolves s now k b.speed_test)
          | inr g ↦ rw g (Evolves-refl s.nodes)
        ])
      ])
    ]
dispatch_node-Evolves s now get (k ∷ []) b = Evolves-refl s.nodes
dispatch_node-Evolves s now _ _ b = Evolves-refl s.nodes

-- Every step of the registry changes the status of every node by one of the transitions, or not at
-- all: a node comes online only from configured or offline, goes offline only from configured or
-- online, and is never removed while online.
pub step-Transition :
    (s : Server) (now : Time) (e : Event) (k : String)
    → Transition (status_of (lookup k s.nodes)) (status_of (lookup k (step s (now, e)).nodes))
unfolding step handle_nodes handle_node
step-Transition s now tick k = tick-Evolves s now k
step-Transition s now (on_nodes get b) k = stays _
step-Transition s now (on_nodes post b) k = register_node-Evolves s now b.register k
step-Transition s now (on_nodes _ b) k = stays _
step-Transition s now (on_node m path b) k = dispatch_node-Evolves s now m _ b k
