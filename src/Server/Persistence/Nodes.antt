-- ===== src/Server/Persistence/Nodes.antt =====
-- The Nodes bucket (internal/server/persistence.go): what the transactions of the registry leave
-- in it, and what `LoadNodes` reads back.
use constelfs.Prelude.{
  true, Option-cases, String, [], ◌∷◌, Option, none, some, ◌≡◌, refl, ap, ◌∙◌, arith, Map, lookup,
  insert, lookup-insert, map_option, str_eq, eq_iff, if◌then◌else◌, Bool-cases, inl, inr,
}
use constelfs.Prelude.Maps.{Distinct}
use constelfs.Server.State.{
  Time, Node, offline, SpeedTestResult, save_node, delete_node, save_speed_test,
}
use constelfs.Server.Persistence.{
  as_node, apply, replay, put_node, remove_node, put_speed_test, restart_node, load_nodes_loop,
  load_nodes,
}
use constelfs.Prelude.Text.{concat}
use constelfs.Server.Nodes.Lifecycle.{expire}
use constelfs.Server.Persistence.Database.{
  Bolt, IsBolt, IsReliable, is_key, Stored, node, speed_test,
}
use constelfs.Server.Nodes.{check_loop, timed_out}

-- The node stored under a key, if its bytes decode.
abbrev decoded : Option Stored → Option Node
decoded none = none
decoded (some v) = as_node v

abbrev pub node_in : String → Map Stored → Option Node
node_in k m = decoded (lookup k m)

-- Every node stands under its own id.
abbrev pub IsKeyed : (String → Option Node) → Type 0
IsKeyed f = (k : String) (n : Node) → f k ≡ some n → n.node_id ≡ k

abbrev loaded : Option Node → Option Node → Option Node
loaded none before = before
loaded (some n) before = some (restart_node n)

IsKeyed-tail :
    (j : String) (v : Stored) (m : Map Stored)
    → lookup j m ≡ none
    → IsKeyed (λ k. node_in k ((j, v) ∷ m))
    → IsKeyed (λ k. node_in k m)
unfolding lookup
IsKeyed-tail j v m fresh keyed k n e = keyed k n (elim (Bool-cases (str_eq j k)) [
  | inl same ↦ cc (fresh, ap (λ (i : String). lookup i m) ((eq_iff j k).0 same))
  | inr differ ↦ rw differ e
])

tail-IsKeyed :
    (j : String) (n : Node) (m : Map Node)
    → lookup j m ≡ none
    → IsKeyed (λ k. lookup k ((j, n) ∷ m))
    → IsKeyed (λ k. lookup k m)
unfolding lookup
tail-IsKeyed j n m fresh keyed k n' e = keyed k n' (elim (Bool-cases (str_eq j k)) [
  | inl same ↦ cc (fresh, ap (λ (i : String). lookup i m) ((eq_iff j k).0 same))
  | inr differ ↦ rw differ e
])

-- The bucket takes each id of the map as a key.
abbrev pub IsNamed : (String → Option Node) → Type 0
IsNamed f = (k : String) (n : Node) → f k ≡ some n → is_key k ≡ true

tail-IsNamed :
    (j : String) (n : Node) (m : Map Node)
    → lookup j m ≡ none
    → IsNamed (λ k. lookup k ((j, n) ∷ m))
    → IsNamed (λ k. lookup k m)
unfolding lookup
tail-IsNamed j n m fresh named k n' e = named k n' (elim (Bool-cases (str_eq j k)) [
  | inl same ↦ cc (fresh, ap (λ (i : String). lookup i m) ((eq_iff j k).0 same))
  | inr differ ↦ rw differ e
])

lookup-head : (j : String) (n : Node) (m : Map Node) → lookup j ((j, n) ∷ m) ≡ some n
unfolding lookup
lookup-head j n m = rw ((eq_iff j j).1 refl)

node_in-head : (j : String) (v : Stored) (m : Map Stored) → node_in j ((j, v) ∷ m) ≡ as_node v
unfolding lookup
node_in-head j v m = rw ((eq_iff j j).1 refl)

lookup-load_nodes_loop :
    (acc : Map Node) (m : Map Stored) (k : String)
    → Distinct m
    → IsKeyed (λ j. node_in j m)
    → lookup k (load_nodes_loop acc m) ≡ loaded (node_in k m) (lookup k acc)
unfolding load_nodes_loop lookup
lookup-load_nodes_loop acc [] k d keyed = refl
lookup-load_nodes_loop acc ((j, node n) ∷ m) k d keyed = ground (
  arith,
  lookup-load_nodes_loop (insert n.node_id (restart_node n) acc) m k d.1
      (IsKeyed-tail j (node n) m d.0 keyed),
  d.0,
  keyed j n (node_in-head j (node n) m),
  lookup-insert n.node_id k (restart_node n) acc,
  eq_iff j k,
  eq_iff n.node_id k,
)
lookup-load_nodes_loop acc ((j, v) ∷ m) k d keyed =
    ground
      (arith, lookup-load_nodes_loop acc m k d.1 (IsKeyed-tail j v m d.0 keyed), d.0, eq_iff j k)

loaded-none : (o : Option Node) → loaded o none ≡ map_option restart_node o
loaded-none none = refl
loaded-none (some n) = refl

-- The node that the database holds under an id.
abbrev pub node_at : {Db : Type 0} → Bolt Db → String → Db → Option Node
node_at bolt k db = node_in k (bolt.entries "Nodes" db)

module _ {Db : Type 0} {bolt : Bolt Db} (format : Time → String) (laws : IsBolt bolt) where
  -- `LoadNodes` gives back every stored node, those that were online marked offline.
  pub lookup-load_nodes :
      (k : String) (db : Db)
      → IsKeyed (λ j. node_at bolt j db)
      → lookup k (load_nodes bolt db) ≡ map_option restart_node (node_at bolt k db)
  unfolding load_nodes lookup
  lookup-load_nodes k db keyed =
      lookup-load_nodes_loop [] (bolt.entries "Nodes" db) k (laws.entries-Distinct "Nodes" db) keyed
      ∙ loaded-none _

  module _ (reliable : IsReliable bolt) where
    node_at-put_node :
        (k : String) (n : Node) (db : Db)
        → is_key n.node_id ≡ true
        → node_at bolt k (put_node bolt format n db)
          ≡ (if str_eq n.node_id k then some n else node_at bolt k db)
    unfolding put_node
    node_at-put_node k n db named =
        let (db', e) = reliable.puts "Nodes" n.node_id (node n) db named in
        rw e (rw (laws.entries-put "Nodes" n.node_id (node n) db db' e "Nodes" k) (ground arith))

    node_at-remove_node :
        (k j : String) (db : Db)
        → node_at bolt k (remove_node bolt format j db)
          ≡ (if str_eq j k then none else node_at bolt k db)
    unfolding remove_node
    node_at-remove_node k j db =
        let (db', e) = reliable.deletes "Nodes" j db in
        rw e (rw (laws.entries-delete "Nodes" j db db' e "Nodes" k) (ground arith))

    node_at-put_speed_test :
        (k j : String) (r : SpeedTestResult) (db : Db)
        → node_at bolt k (put_speed_test bolt format j r db) ≡ node_at bolt k db
    unfolding put_speed_test
    node_at-put_speed_test k j r db =
        let key = concat (concat j "_") (format r.test_time) in
        elim (Option-cases (bolt.put "SpeedTests" key (speed_test r) db)) [
          | inl e ↦ rw e refl
          | inr (db', e) ↦
              rw e (rw (laws.entries-put "SpeedTests" key (speed_test r) db db' e "Nodes" k))
        ]

    pub node_at-save_node :
        (k : String) (n : Node) (db : Db)
        → is_key n.node_id ≡ true
        → node_at bolt k (apply bolt format (save_node n) db)
          ≡ (if str_eq n.node_id k then some n else node_at bolt k db)
    unfolding apply
    node_at-save_node k n db named = node_at-put_node k n db named

    pub node_at-delete_node :
        (k j : String) (db : Db)
        → node_at bolt k (apply bolt format (delete_node j) db)
          ≡ (if str_eq j k then none else node_at bolt k db)
    unfolding apply
    node_at-delete_node k j db = node_at-remove_node k j db

    pub node_at-save_speed_test :
        (k j : String) (r : SpeedTestResult) (db : Db)
        → node_at bolt k (apply bolt format (save_speed_test j r) db) ≡ node_at bolt k db
    unfolding apply
    node_at-save_speed_test k j r db = node_at-put_speed_test k j r db

    -- The stored node of an id after the transactions of a tick of the checker.
    abbrev ticked : Time → Option Node → Option Node → Option Node
    ticked now none before = before
    ticked now (some n) before = if timed_out now n then some (expire now n) else before

    pub node_at-check_loop :
        (now : Time) (m : Map Node) (k : String) (db : Db)
        → Distinct m
        → IsKeyed (λ j. lookup j m)
        → IsNamed (λ j. lookup j m)
        → node_at bolt k (replay bolt format (check_loop now m).1 db)
          ≡ ticked now (lookup k m) (node_at bolt k db)
    unfolding check_loop replay lookup
    node_at-check_loop now [] k db d keyed named = refl
    node_at-check_loop now ((j, n) ∷ m) k db d keyed named =
        let n' = record n { status = offline } in
        let here = lookup-head j n m in
        let own : n.node_id ≡ j = keyed j n here in
        let valid : is_key n.node_id ≡ true = ap is_key own ∙ named j n here in
        let later = tail-IsNamed j n m d.0 named in
        ground (
          arith,
          node_at-check_loop now m k db d.1 (tail-IsKeyed j n m d.0 keyed) later,
          node_at-check_loop now m k (apply bolt format (save_node n') db) d.1
              (tail-IsKeyed j n m d.0 keyed) later,
          node_at-save_node k n' db valid,
          own,
          d.0,
          eq_iff j k,
          eq_iff n.node_id k,
        )
