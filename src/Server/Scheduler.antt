-- ===== src/Server/Scheduler.antt =====
-- The scheduler, internal/server/scheduler.go. Arithmetic on float64 values and `sort.Slice` are
-- parameters; `nodes` is visited in the order of its entries, which Go leaves open.
pub mod Selection
pub mod Known
use constelfs.Prelude.{
  ℕ, ◌-◌, ◌*◌, String, Bool, true, false, ◌&&◌, not, List, [], ◌∷◌, map, Map, values, ℤ, pos,
  length, take, select, ltb, ltb_ℤ, pos_part, str_eq, if◌then◌else◌,
}
use constelfs.Server.State.{Float, Time, Node}
use constelfs.Server.Nodes.{is_online}

-- The float64 operations of the score, on bit patterns. `round` is `math.Round`.
pub record Floats : Type 0 where
  pub add : Float → Float → Float
  pub sub : Float → Float → Float
  pub mul : Float → Float → Float
  pub div : Float → Float → Float
  pub of_int : ℤ → Float
  pub round : Float → Float
  pub gt : Float → Float → Bool

pub record NodeScore : Type 0 where
  pub node : Node
  pub score : Float

-- The excluded ids: `excludeMap[id]`.
abbrev pub contains : List String → String → Bool
contains [] id = false
contains (x ∷ xs) id = let rest = contains xs id in if str_eq x id then true else rest

abbrev pub usable : List String → Node → Bool
usable exclude n =
    is_online n.status && not (str_eq n.storage_path "") && not (contains exclude n.node_id)

-- The constants are 1000, 30, 1, 25, 20, 15, 100 and 10.
unfoldable pub score_node : Floats → Node → Float
score_node f n =
    let upload_score = f.mul (f.div n.upload_speed 0x408f400000000000) 0x403e000000000000 in
    let s₁ = f.add 0 upload_score in
    let space_ratio = f.div (f.of_int n.used_space) (f.of_int n.allocated_space) in
    let space_score = f.mul (f.sub 0x3ff0000000000000 space_ratio) 0x4039000000000000 in
    let s₂ = if ltb_ℤ (pos 0) n.allocated_space then f.add s₁ space_score else s₁ in
    let download_score = f.mul (f.div n.download_speed 0x408f400000000000) 0x4034000000000000 in
    let s₃ = f.add s₂ download_score in
    let online_score = f.mul n.online_rate 0x402e000000000000 in
    let s₄ = f.add s₃ online_score in
    let free = f.sub (f.sub 0x4059000000000000 n.cpu_usage) n.memory_usage in
    let health_score = f.mul (f.div free 0x4059000000000000) 0x4024000000000000 in
    let s₅ = f.add s₄ health_score in
    f.div (f.round (f.mul s₅ 0x4059000000000000)) 0x4059000000000000

abbrev pub with_score : Floats → Node → NodeScore
with_score f n = record { node = n; score = score_node f n }

-- The comparison that the scores are sorted by, from high to low.
abbrev pub higher : Floats → NodeScore → NodeScore → Bool
higher f a b = f.gt a.score b.score

abbrev pub Sort : Type 0
Sort = (NodeScore → NodeScore → Bool) → List NodeScore → List NodeScore

abbrev pub available : Map Node → List String → List Node
available nodes exclude = select (usable exclude) (values nodes)

-- `take` runs the loop `i < n && i < len(scores)`.
unfoldable pub select_nodes : Floats → Sort → Map Node → ℤ → List String → List Node
select_nodes f sort nodes n exclude =
    let scores = sort (higher f) (map (with_score f) (available nodes exclude)) in
    if ltb_ℤ (pos (length (available nodes exclude))) n
    then available nodes exclude
    else map (λ (s : NodeScore). s.node) (take (pos_part n) scores)

-- `SelectNewNodes`.
unfoldable pub select_new_nodes : Floats → Sort → Map Node → ℤ → List String → List Node
unfolding select_nodes
select_new_nodes f sort nodes n exclude = select_nodes f sort nodes n exclude

-- `GetNodeHealth`; the limit of the usages is 90.
unfoldable pub get_node_health : Floats → Time → Node → String
get_node_health f now n =
    if ltb (90 * 1000000000) (now - n.last_heartbeat)
    then "offline"
    else if f.gt n.cpu_usage 0x4056800000000000
    then "warning"
    else if f.gt n.memory_usage 0x4056800000000000
    then "warning"
    else if f.gt n.disk_usage 0x4056800000000000
    then "warning"
    else "healthy"
