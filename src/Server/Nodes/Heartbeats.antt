-- ===== src/Server/Nodes/Heartbeats.antt =====
-- Heartbeats keep a node from being marked offline (internal/server/node.go).
use constelfs.Prelude.{
  ◌+◌, ◌≤◌, String, false, List, [], ◌∷◌, Option, none, some, ◌≡◌, refl, arith, Map, All, lookup,
  insert, remove, map_option, lookup-insert, lookup-remove, str_eq, eq_iff, inl, inr, Bool-cases,
  Option-cases, ltb_ℤ,
}
use constelfs.Server.State.{Time, NodeStatus, Node, SpeedTestResult, Server}
use constelfs.Server.Nodes.{
  RegisterRequest, ConfigureRequest, HeartbeatRequest, NodeBody, Method, get, post, delete,
  is_online, is_offline, timed_out, check_node_status, remove_node, registered_node, register_node,
  configure_node, heartbeat_node, speed_test_node, handle_nodes, dispatch_node, handle_node, revive,
  heartbeat_timeout,
}
use constelfs.Server.Nodes.Events.{Event, tick, on_nodes, on_node, step, run}
use constelfs.Server.Nodes.Lifecycle.{
  expire, lookup-check_loop, nodes-check_node_status, nodes-save, nodes-store_node,
}

module _ (h : Time) where
  -- A node, if the registry knows it, is not offline, and was heard of at `h` or later.
  abbrev pub IsFresh : Option Node → Type 0
  IsFresh none = Unit
  IsFresh (some n) = (is_offline n.status ≡ false) × (h ≤ n.last_heartbeat)

  -- A change of the map that makes no node offline, for one id.
  abbrev Keeps : Map Node → Map Node → Type 0
  Keeps m m' = (j : String) → IsFresh (lookup j m) → IsFresh (lookup j m')

  Keeps-refl : (m : Map Node) → Keeps m m
  Keeps-refl m j f = f

  Keeps-insert :
      (k : String) (v : Node) (m : Map Node)
      → (IsFresh (lookup k m) → IsFresh (some v))
      → Keeps m (insert k v m)
  Keeps-insert k v m new j f = elim (Bool-cases (str_eq k j)) [
    | inl e ↦ rw (lookup-insert k j v m, e) (new (rw (← (eq_iff k j).0 e) at f))
    | inr e ↦ rw (lookup-insert k j v m, e) f
  ]

  Keeps-remove : (k : String) (m : Map Node) → Keeps m (remove k m)
  Keeps-remove k m j f = elim (Bool-cases (str_eq k j)) [
    | inl e ↦ rw (lookup-remove k j m, e) tt
    | inr e ↦ rw (lookup-remove k j m, e) f
  ]

  timed_out-early :
      (now : Time) (n : Node)
      → now ≤ h + heartbeat_timeout
      → h ≤ n.last_heartbeat
      → timed_out now n ≡ false
  unfolding timed_out
  timed_out-early now n low heard = ground arith

  expire-IsFresh :
      (now : Time) (o : Option Node)
      → now ≤ h + heartbeat_timeout
      → IsFresh o
      → IsFresh (map_option (expire now) o)
  expire-IsFresh now none low f = tt
  expire-IsFresh now (some n) low f =
      let early : timed_out now n ≡ false = timed_out-early now n low f.1 in rw early f

  tick-Keeps :
      (s : Server) (now : Time)
      → now ≤ h + heartbeat_timeout
      → Keeps s.nodes (check_node_status s now).nodes
  tick-Keeps s now low j f =
      rw (nodes-check_node_status s now, lookup-check_loop now j s.nodes)
        (expire-IsFresh now _ low f)

  remove_node-Keeps : (s : Server) (k : String) → Keeps s.nodes (remove_node s k).0.nodes
  unfolding remove_node
  remove_node-Keeps s k = elim (Option-cases (lookup k s.nodes)) [
    | inl e ↦ rw (e, remove_node) (Keeps-refl s.nodes)
    | inr (node, e) ↦ elim (Bool-cases (is_online node.status)) [
      | inl on ↦ rw (e, remove_node) (rw on (Keeps-refl s.nodes))
      | inr off ↦ rw (e, remove_node) (rw (off, nodes-save) (Keeps-remove k s.nodes))
    ]
  ]

  register_node-Keeps :
      (s : Server) (now : Time) (r : Option RegisterRequest)
      → h ≤ now
      → Keeps s.nodes (register_node s now r).0.nodes
  unfolding register_node
  register_node-Keeps s now none low = Keeps-refl s.nodes
  register_node-Keeps s now (some r) low =
      rw nodes-store_node
        (Keeps-insert r.node_id _ s.nodes (registered_node-IsFresh (lookup r.node_id s.nodes)))
    where
      registered_node-IsFresh :
          (o : Option Node) → IsFresh o → IsFresh (some (registered_node now r o))
      registered_node-IsFresh none f = (refl, low)
      registered_node-IsFresh (some node) f = (f.0, low)

  configure_node-Keeps :
      (s : Server) (now : Time) (k : String) (r : Option ConfigureRequest)
      → Keeps s.nodes (configure_node s now k r).0.nodes
  unfolding configure_node
  configure_node-Keeps s now k none = Keeps-refl s.nodes
  configure_node-Keeps s now k (some r) = elim (Option-cases (lookup k s.nodes)) [
    | inl e ↦ rw (e, configure_node) (Keeps-refl s.nodes)
    | inr (node, e) ↦ elim (Bool-cases (ltb_ℤ node.total_disk_space r.allocated_space)) [
      | inl big ↦ rw (e, configure_node) (rw big (Keeps-refl s.nodes))
      | inr fits ↦
          rw (e, configure_node)
            (rw (fits, nodes-store_node) (Keeps-insert k _ s.nodes (λ f. (refl, (rw e at f).1))))
    ]
  ]

  heartbeat_node-Keeps :
      (s : Server) (now : Time) (k : String) (r : Option HeartbeatRequest)
      → h ≤ now
      → Keeps s.nodes (heartbeat_node s now k r).0.nodes
  unfolding heartbeat_node
  heartbeat_node-Keeps s now k none low = Keeps-refl s.nodes
  heartbeat_node-Keeps s now k (some r) low = elim (Option-cases (lookup k s.nodes)) [
    | inl e ↦ rw (e, heartbeat_node) (Keeps-refl s.nodes)
    | inr (node, e) ↦
        rw (e, heartbeat_node)
          (rw nodes-store_node (Keeps-insert k _ s.nodes (λ f. (revived node.status, low))))
  ]
    where
      revived : (st : NodeStatus) → is_offline (revive st) ≡ false
      revived st = ground arith

  speed_test_node-Keeps :
      (s : Server) (now : Time) (k : String) (r : Option SpeedTestResult)
      → Keeps s.nodes (speed_test_node s now k r).0.nodes
  unfolding speed_test_node
  speed_test_node-Keeps s now k none = Keeps-refl s.nodes
  speed_test_node-Keeps s now k (some r) = elim (Option-cases (lookup k s.nodes)) [
    | inl e ↦ rw (e, speed_test_node) (Keeps-refl s.nodes)
    | inr (node, e) ↦
        rw (e, speed_test_node)
          (rw (nodes-save, nodes-save) (Keeps-insert k _ s.nodes (λ f. rw e at f)))
  ]

  dispatch_node-Keeps :
      (s : Server) (now : Time) (m : Method) (parts : List String) (b : NodeBody)
      → h ≤ now
      → Keeps s.nodes (dispatch_node s now m parts b).0.nodes
  unfolding dispatch_node
  dispatch_node-Keeps s now delete (k ∷ []) b low = remove_node-Keeps s k
  dispatch_node-Keeps s now post (k ∷ action ∷ []) b low =
      elim (Bool-cases (str_eq action "configure")) [
        | inl e ↦ rw e (configure_node-Keeps s now k b.configure)
        | inr e ↦ rw e (elim (Bool-cases (str_eq action "heartbeat")) [
          | inl f ↦ rw f (heartbeat_node-Keeps s now k b.heartbeat low)
          | inr f ↦ rw f (elim (Bool-cases (str_eq action "speedtest")) [
            | inl g ↦ rw g (speed_test_node-Keeps s now k b.speed_test)
            | inr g ↦ rw g (Keeps-refl s.nodes)
          ])
        ])
      ]
  dispatch_node-Keeps s now get (k ∷ []) b low = Keeps-refl s.nodes
  dispatch_node-Keeps s now _ _ b low = Keeps-refl s.nodes

  step-Keeps :
      (s : Server) (now : Time) (e : Event)
      → h ≤ now
      → now ≤ h + heartbeat_timeout
      → Keeps s.nodes (step s (now, e)).nodes
  unfolding step handle_nodes handle_node
  step-Keeps s now tick low high = tick-Keeps s now high
  step-Keeps s now (on_nodes get b) low high = Keeps-refl s.nodes
  step-Keeps s now (on_nodes post b) low high = register_node-Keeps s now b.register low
  step-Keeps s now (on_nodes _ b) low high = Keeps-refl s.nodes
  step-Keeps s now (on_node m path b) low high = dispatch_node-Keeps s now m _ b low

  -- Let a node be heard of at `h` or later, and not be offline. Then no requests and no ticks of the
  -- checker between `h` and 90 seconds after it make it offline; unless it is deleted, it is still heard of
  -- at `h` or later.
  pub run-IsFresh :
      (s : Server) (es : List (Time × Event)) (k : String)
      → All (λ e. (h ≤ e.0) × (e.0 ≤ h + heartbeat_timeout)) es
      → IsFresh (lookup k s.nodes)
      → IsFresh (lookup k (run s es).nodes)
  unfolding run
  run-IsFresh s [] k within f = f
  run-IsFresh s ((now, e) ∷ es) k within f =
      run-IsFresh (step s (now, e)) es k within.1 (step-Keeps s now e within.0.0 within.0.1 k f)
