-- ===== src/Agent/Heartbeats/Pace.antt =====
-- An agent that keeps sending heartbeats is not marked offline, and the server knows what it stores
-- (internal/node/agent.go, internal/server/node.go).
use mathlib.Core.Path.{subst}
use constelfs.Prelude.{
  ◌+◌, ◌≤◌, ℕ, String, map, select, length, Map, Bool-cases, ◌&&◌, Bool, if◌then◌else◌, true, false,
  List, [], ◌∷◌, ◌++◌, Option, none, some, pos, ◌≡◌, refl, sym, ap, ◌∙◌, arith, All, lookup,
  lookup-insert_self, Option-cases, inl, inr,
}
use constelfs.Prelude.Text.{concat, split_two}
use constelfs.Prelude.Text.Names.{has_char, trim_prefix-concat, split_two-slash}
use constelfs.Prelude.Text.Urls.{
  IsParser, is_clear, is_plain, is_clear-concat, is_plain-is_clear, is_plain-no_slash,
}
use constelfs.Agent.Chunks.Places.{is_name}
use constelfs.Config.{NodeConfig}
use constelfs.Server.State.{Time, Node, NodeStatus, Server}
use constelfs.Server.Nodes.{
  post, handle_node, dispatch_node, heartbeat_node, revive, is_offline, heartbeat_timeout,
}
use constelfs.Server.Nodes.Events.{Event, on_node, step, run}
use constelfs.Server.Nodes.Lifecycle.{nodes-store_node}
use constelfs.Server.Nodes.Heartbeats.{IsFresh, run-IsFresh}
use constelfs.Agent.Heartbeats.{
  encodes, marshal, count_entries, heartbeat_path, Reading, get_storage_info, heartbeat_request,
  send_heartbeat, ticked, heartbeat_loop,
}

-- A heartbeat of the loop.
pub record Beat : Type 0 where
  pub time : Time
  pub reading : Reading

abbrev sum : List ℕ → ℕ
sum [] = 0
sum (n ∷ ns) = n + sum ns

-- The bytes of the chunks whose size can be read, if the directory can.
abbrev pub stored_bytes : Reading → ℕ
stored_bytes r =
    if r.listed
    then sum (
        map (λ (e : String × List ℕ). length e.1)
          (select (λ (e : String × List ℕ). r.sized e.0) r.disk.chunks))
    else 0

total_size_lem :
    (sized : String → Bool) (m : Map (List ℕ))
    → (count_entries sized m).total_size
      ≡ sum (
          map (λ (e : String × List ℕ). length e.1) (select (λ (e : String × List ℕ). sized e.0) m))
unfolding count_entries
total_size_lem sized [] = refl
total_size_lem sized ((name, bytes) ∷ m) =
    let rest = total_size_lem sized m in
    elim (Bool-cases (sized name)) [
      | inl e ↦ rw e (ap (λ k. length bytes + k) rest)
      | inr e ↦ rw e rest
    ]

get_storage_info-bytes :
    (r : Reading) → (get_storage_info r.listed r.sized r.disk).total_size ≡ stored_bytes r
unfolding get_storage_info
get_storage_info-bytes r = elim (Bool-cases r.listed) [
  | inl e ↦ rw (e, get_storage_info) (total_size_lem r.sized r.disk.chunks)
  | inr e ↦ rw (e, get_storage_info) refl
]

-- What the server knows of the node behind a beat.
abbrev pub IsKnownAt : Beat → Option Node → Type 0
IsKnownAt b none = Unit
IsKnownAt b (some n) =
    (n.last_heartbeat ≡ b.time)
    × (is_offline n.status ≡ false)
    × (n.used_space ≡ pos (stored_bytes b.reading))

-- The request, for an id that stands for itself in a URL.
abbrev event_of : NodeConfig → Reading → Event
event_of config r =
    on_node post (heartbeat_path config.node_id)
      (record r.others { heartbeat = marshal r.gauges (heartbeat_request r) })

send_heartbeat-plain :
    {parse : String → Option String}
    → IsParser parse
    → (config : NodeConfig) (r : Reading) → is_plain config.node_id ≡ true
    → send_heartbeat parse config r ≡ some (event_of config r)
unfolding send_heartbeat is_clear
send_heartbeat-plain parses config r plain =
    let id = config.node_id in
    let clear : is_clear (heartbeat_path id) ≡ true =
      is_clear-concat "/api/v1/nodes/" (concat id (concat "/" "heartbeat"))
      ∙ is_clear-concat id (concat "/" "heartbeat")
      ∙ rw (is_plain-is_clear id plain) refl in
    rw (parses.clear (heartbeat_path id) clear, send_heartbeat) refl

step-heartbeat :
    (s : Server) (config : NodeConfig) (now : Time) (r : Reading)
    → encodes r.gauges ≡ true
    → has_char b'/' config.node_id ≡ false
    → step s (now, event_of config r)
      ≡ (heartbeat_node s now config.node_id (some (heartbeat_request r))).0
unfolding step handle_node dispatch_node
step-heartbeat s config now r encoded plain =
    ap
      (λ parts.
        (dispatch_node s now post parts
          (record r.others { heartbeat = marshal r.gauges (heartbeat_request r) })).0)
      (ap split_two
          (trim_prefix-concat "/api/v1/nodes/" (concat config.node_id (concat "/" "heartbeat")))
        ∙ split_two-slash config.node_id "heartbeat" plain)
    ∙ ap
        (λ (b : Bool).
          (heartbeat_node s now config.node_id (if b then some (heartbeat_request r) else none)).0)
        encoded

revived : (st : NodeStatus) → is_offline (revive st) ≡ false
revived st = ground arith

heartbeat-IsKnownAt :
    (s : Server) (config : NodeConfig) (b : Beat)
    → IsKnownAt b (
        lookup config.node_id
          (heartbeat_node s b.time config.node_id (some (heartbeat_request b.reading))).0.nodes)
unfolding heartbeat_node
heartbeat-IsKnownAt s config b = elim (Option-cases (lookup config.node_id s.nodes)) [
  | inl e ↦ rw (e, heartbeat_node) (rw e tt)
  | inr (n, e) ↦
      rw (e, heartbeat_node)
        (rw nodes-store_node (
          rw (lookup-insert_self config.node_id _ s.nodes)
            (refl, revived n.status, ap pos (get_storage_info-bytes b.reading))))
]

run-append : (s : Server) (xs ys : List (Time × Event)) → run s (xs ++ ys) ≡ run (run s xs) ys
unfolding run
run-append s [] ys = refl
run-append s (x ∷ xs) ys = run-append (step s x) xs ys

known-IsFresh : (b : Beat) (o : Option Node) → IsKnownAt b o → IsFresh b.time o
known-IsFresh b none k = tt
known-IsFresh b (some n) k = (k.1, omega (arith, k.0))

-- After any requests and checker ticks, let the loop of an agent, its id a plain name, send a heartbeat with finite
-- gauges. If the
-- server knows the node, it then has the time of the heartbeat, a status that is not offline, and as used
-- space the bytes of the agent's chunks; and after further requests and ticks up to 90 seconds later the
-- node is still not offline, and was heard of at the heartbeat or later, unless it was deleted.
pub beat-IsFresh :
    {parse : String → Option String}
    → IsParser parse
    → (s : Server) (before after : List (Time × Event)) (config : NodeConfig) (b : Beat)
    → encodes b.reading.gauges ≡ true
    → (is_name config.node_id && is_plain config.node_id) ≡ true
    → All (λ (e : Time × Event). (b.time ≤ e.0) × (e.0 ≤ b.time + heartbeat_timeout)) after
    → let beat = heartbeat_loop parse config (ticked b.time b.reading ∷ []) in
      IsKnownAt b (lookup config.node_id (run s (before ++ beat)).nodes)
      × IsFresh b.time (lookup config.node_id (run s ((before ++ beat) ++ after)).nodes)
unfolding heartbeat_loop run
beat-IsFresh parses s before after config b encoded named within =
    let plain : is_plain config.node_id ≡ true = ground (arith, named) in
    let beat = (b.time, event_of config b.reading) ∷ [] in
    let t = run s before in
    let arrives : run s (before ++ beat)
        ≡ (heartbeat_node t b.time config.node_id (some (heartbeat_request b.reading))).0 =
      run-append s before beat
      ∙ step-heartbeat t config b.time b.reading encoded (is_plain-no_slash config.node_id plain) in
    let known : IsKnownAt b (lookup config.node_id (run s (before ++ beat)).nodes) =
      subst (λ u. IsKnownAt b (lookup config.node_id u.nodes)) (sym arrives)
        (heartbeat-IsKnownAt t config b) in
    let fresh =
      run-IsFresh b.time (run s (before ++ beat)) after config.node_id within
        (known-IsFresh b _ known) in
    rw (send_heartbeat-plain parses config b.reading plain) (
      known,
      subst (λ u. IsFresh b.time (lookup config.node_id u.nodes))
          (sym (run-append s (before ++ beat) after)) fresh,
    )
