-- ===== src/Agent/Startup/Registration.antt =====
-- When a storage node starts, and what the server then knows of it (internal/node/agent.go, cmd/node/main.go,
-- internal/server/node.go).
use mathlib.Core.Path.{subst}
use constelfs.Prelude.{
  ℕ, ◌*◌, ◌<◌, ◌^◌, ◌%◌, String, true, List, [], ◌∷◌, Option, none, some, pos, ◌≡◌, ◌↔◌, ◌⊎◌, map,
  refl, sym, ◌∙◌, ap, Bool, if◌then◌else◌, false, arith, All, lookup, lookup-insert_self,
  Option-cases, Bool-cases, inl, inr,
}
use constelfs.Prelude.Text.{concat}
use constelfs.Config.{NodeConfig}
use constelfs.Server.State.{Time, Node, Server, NodeStatus, registered}
use constelfs.Server.Nodes.{register_node, registered_node, handle_nodes}
use constelfs.Server.Nodes.Lifecycle.{nodes-store_node}
use constelfs.Server.Scheduler.{Floats}
use constelfs.Agent.Heartbeats.{Gauges, encodes, register_request}
use constelfs.Agent.Startup.{
  Statfs, int64, total_disk_space, System, Link, unreached, lost, intact, Outcome, config_failed,
  fatal, serving, goroutines, is_interval, gauges, make_dirs, init_storage, directories, register,
  boot, after_post, after_start, wrapped, new_agent, start,
}

int64_iff : (n : ℕ) → (int64 (n % 2 ^ 64) ≡ pos n) ↔ (n < 2 ^ 63)
int64_iff n = ground arith

-- The total space of a file system, its blocks times their size, is sent as it is exactly if it is below 2^63 bytes.
pub total_disk_space_iff :
    (st : Statfs)
    → (total_disk_space (some st) ≡ pos (st.blocks * st.block_size))
      ↔ (st.blocks * st.block_size < 2 ^ 63)
unfolding total_disk_space
total_disk_space_iff st = int64_iff (st.blocks * st.block_size)

make_dirs_iff :
    (mkdir : String → Option String) (dirs : List String)
    → (make_dirs mkdir dirs ≡ none) ↔ All (λ dir. mkdir dir ≡ none) dirs
unfolding make_dirs
make_dirs_iff mkdir [] = (λ e. tt, λ all. refl)
make_dirs_iff mkdir (dir ∷ dirs) =
    let rest = make_dirs_iff mkdir dirs in
    elim (Option-cases (mkdir dir)) [
      | inl e ↦
          let next : make_dirs mkdir (dir ∷ dirs) ≡ make_dirs mkdir dirs = rw (e, make_dirs) refl in
          (λ h. (e, rest.0 (sym next ∙ h)), λ all. next ∙ rest.1 all.1)
      | inr (err, e) ↦
          let stops : make_dirs mkdir (dir ∷ dirs)
              ≡ some (concat "创建目录 " (concat dir (concat " 失败: " err))) =
            rw (e, make_dirs) refl in
          (λ h. absurd (cc (stops, h)), λ all. absurd (cc (all.0, e)))
    ]

-- The status of a node that registers: the one it had, or `registered`.
abbrev status_after : Option Node → NodeStatus
status_after none = registered
status_after (some n) = n.status

-- What the server knows of the node: `old` is what it knew before.
abbrev IsRegistered : NodeConfig → Gauges → Option Node → Time → Option Node → Type 0
IsRegistered config g old now none = ⊥
IsRegistered config g old now (some n) =
    (n.ip_address ≡ config.advertise_ip)
    × (n.port ≡ config.port)
    × (n.total_disk_space ≡ g.total_disk)
    × (n.last_heartbeat ≡ now)
    × (n.status ≡ status_after old)

registered_node-IsRegistered :
    (config : NodeConfig) (g : Gauges) (old : Option Node) (now : Time)
    → IsRegistered config g old now (some (registered_node now (register_request config g) old))
unfolding registered_node
registered_node-IsRegistered config g none now = (refl, refl, refl, refl, refl)
registered_node-IsRegistered config g (some n) now = (refl, refl, refl, refl, refl)

register-IsRegistered :
    (config : NodeConfig) (g : Gauges) (s : Server) (now : Time)
    → IsRegistered config g
        (lookup config.node_id s.nodes)
        now
        (lookup config.node_id (register_node s now (some (register_request config g))).0.nodes)
unfolding register_node
register-IsRegistered config g s now =
    rw nodes-store_node (
      rw (lookup-insert_self config.node_id _ s.nodes)
        (registered_node-IsRegistered config g _ now))

register-marshal :
    (line : ℕ → String) (config : NodeConfig) (g : Gauges) (s : Server) (now : Time) (b : Bool)
    → encodes g ≡ b
    → register line intact config g s now
      ≡ after_post line (register_node s now (if b then some (register_request config g) else none))
unfolding register handle_nodes
register-marshal line config g s now b e =
    ap
      (λ (b : Bool).
        after_post line
          (register_node s now (if b then some (register_request config g) else none)))
      e

register_iff :
    (line : ℕ → String) (link : Link) (config : NodeConfig) (g : Gauges) (s : Server) (now : Time)
    → ((register line link config g s now).1 ≡ none) ↔ ((link ≡ intact) × (encodes g ≡ true))
unfolding register handle_nodes register_node
register_iff line (unreached e) config g s now = (λ h. absurd (cc h), λ h. absurd (cc (h.0)))
register_iff line (lost e) config g s now = (λ h. absurd (cc h), λ h. absurd (cc (h.0)))
register_iff line intact config g s now = elim (Bool-cases (encodes g)) [
  | inl e ↦ (λ h. (refl, e), λ h. ap (λ r. r.1) (register-marshal line config g s now true e))
  | inr e ↦
      let refused = ap (λ r. r.1) (register-marshal line config g s now false e) in
      (λ h. absurd (cc (refused, h)), λ h. absurd (cc (h.1, e)))
]

-- What the outcome tells of the server before and after.
abbrev pub IsServedBy : NodeConfig → Gauges → Link → Time → Server → Server → Outcome → Type 0
IsServedBy config g link now s t config_failed = t ≡ s
IsServedBy config g link now s t (fatal e) = (t ≡ s) ⊎ ((e : String) × (link ≡ lost e))
IsServedBy config g link now s t _ =
    IsRegistered config g (lookup config.node_id s.nodes) now (lookup config.node_id t.nodes)

module _ (config : NodeConfig) (listens : Bool) where
  abbrev outcome : Server × Option String → Server × Outcome
  outcome (s, e) = after_start config listens (s, wrapped "注册失败: " e)

  goroutines-IsServedBy :
      (g : Gauges) (link : Link) (now : Time) (s t : Server)
      → IsRegistered config g (lookup config.node_id s.nodes) now (lookup config.node_id t.nodes)
      → IsServedBy config g link now s t (goroutines config listens)
  goroutines-IsServedBy g link now s t h =
      elim (Bool-cases (is_interval config.heartbeat_interval)) [
        | inr e ↦ rw e h
        | inl e ↦ elim (Bool-cases listens) [ inl f ↦ rw (e, f) h | inr f ↦ rw (e, f) h ]
      ]

  outcome-IsServedBy :
      (line : ℕ → String) (link : Link) (g : Gauges) (s : Server) (now : Time)
      → let r = outcome (register line link config g s now) in
        IsServedBy config g link now s r.0 r.1
  unfolding register handle_nodes
  outcome-IsServedBy line (unreached e) g s now = inl refl
  outcome-IsServedBy line (lost e) g s now = inr (e, refl)
  outcome-IsServedBy line intact g s now = elim (Bool-cases (encodes g)) [
    | inl e ↦
        subst (λ r. IsServedBy config g intact now s (outcome r).0 (outcome r).1)
          (sym (register-marshal line config g s now true e))
          (goroutines-IsServedBy g intact now s _ (register-IsRegistered config g s now))
    | inr e ↦
        subst (λ r. IsServedBy config g intact now s (outcome r).0 (outcome r).1)
          (sym (register-marshal line config g s now false e)) (inl refl)
  ]

  goroutines_iff :
      (goroutines config listens ≡ serving)
      ↔ ((is_interval config.heartbeat_interval ≡ true) × (listens ≡ true))
  goroutines_iff = elim (Bool-cases (is_interval config.heartbeat_interval)) [
    | inr e ↦ (λ h. absurd (cc (rw e at h)), λ h. absurd (cc (e, h.0)))
    | inl e ↦ elim (Bool-cases listens) [
      | inl f ↦ (λ h. (e, f), λ h. rw (e, f) refl)
      | inr f ↦ (λ h. absurd (cc (rw (e, f) at h)), λ h. absurd (cc (f, h.1)))
    ]
  ]

  outcome_iff :
      (r : Server × Option String)
      → ((outcome r).1 ≡ serving) ↔ ((r.1 ≡ none) × (goroutines config listens ≡ serving))
  outcome_iff (s, none) = (λ h. (refl, h), λ h. h.1)
  outcome_iff (s, some e) = (λ h. absurd (cc h), λ h. absurd (cc (h.0)))

-- With a configuration, a storage node sends heartbeats and serves requests exactly if its three directories can be made,
-- the request of its registration and the answer arrive, its gauges are finite, its heartbeat interval is positive as a
-- time.Duration, and its port can be served. The process then, and where it panics for the interval or serves no
-- requests, leaves the server with the node's address, its port, the total space of its disk and the time of the
-- registration under its id, and the status that it had before, or `registered`. Where the process ends with an
-- error the server is as before, unless the answer was lost.
pub boot_iff :
    (f : Floats) (mkdir : String → Option String) (join : String → String → String)
    (line : ℕ → String) (link : Link) (listens : Bool) (sys : System) (config : NodeConfig)
    (s : Server) (now : Time)
    → let r = boot f mkdir join line link listens sys (some config) s now in
      ((r.1 ≡ serving) ↔ (
        All (λ dir. mkdir dir ≡ none) (map (join config.storage_path) directories)
        × (link ≡ intact)
        × (encodes (gauges f sys) ≡ true)
        × (is_interval config.heartbeat_interval ≡ true)
        × (listens ≡ true)))
      × IsServedBy config (gauges f sys) link now s r.0 r.1
unfolding boot new_agent init_storage start
boot_iff f mkdir join line link listens sys config s now =
    let g = gauges f sys in
    let r = register line link config g s now in
    let reg = register_iff line link config g s now in
    let out = outcome_iff config listens r in
    let runs = goroutines_iff config listens in
    let made = make_dirs_iff mkdir (map (join config.storage_path) directories) in
    elim (Option-cases (init_storage mkdir join config.storage_path)) [
      | inl e ↦
          rw (e, boot)
            (
              (
                λ h.
                    let both = out.0 h in
                    let sent = reg.0 both.0 in
                    let on = runs.0 both.1 in (made.0 e, sent.0, sent.1, on.0, on.1),
                λ h. out.1 (reg.1 (h.1, h.2), runs.1 (h.3, h.4)),
              ),
              outcome-IsServedBy config listens line link g s now,
            )
      | inr (err, e) ↦
          rw (e, boot) ((λ h. absurd (cc h), λ h. absurd (cc (made.1 h.0, e))), inl refl)
    ]
