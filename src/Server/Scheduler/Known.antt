-- ===== src/Server/Scheduler/Known.antt =====
-- The nodes that SelectNodes returns (internal/server/scheduler.go) are nodes of the map that it is given.
use mathlib.Core.List.Permᴰ
use constelfs.Prelude.{
  ℕ, suc, String, List, [], ◌∷◌, map, none, some, Map, values, lookup, ◌≡◌, ◌<◌, refl, ap, ◌∙◌,
  arith, ℤ, pos, length, take, All, All-impl, All-select, eq_iff, ltb_ℤ, inl, inr, Bool-cases,
  pos_part,
}
use constelfs.Prelude.Maps.{Distinct}
use constelfs.Prelude.Sort.{IsSort, All-Permᴰ, All-take, length-Permᴰ}
use constelfs.Server.State.{Node}
use constelfs.Server.Scheduler.Selection.{length-map}
use constelfs.Server.Scheduler.{
  Floats, NodeScore, Sort, with_score, higher, available, usable, select_nodes,
}

-- A map as the registry keeps it: each key once, each node under its own id.
pub record IsRegistry (m : Map Node) : Type 0 where
  pub distinct : Distinct m
  pub keyed : (k : String) (n : Node) → lookup k m ≡ some n → n.node_id ≡ k

-- The map has the node under its id.
abbrev pub IsKnown : Map Node → Node → Type 0
IsKnown m n = lookup n.node_id m ≡ some n

lookup-tail :
    (k j : String) (n v : Node) (m : Map Node)
    → lookup k m ≡ none
    → lookup j m ≡ some v
    → lookup j ((k, n) ∷ m) ≡ some v
unfolding lookup
lookup-tail k j n v m h e = ground (arith, h, e, eq_iff k j)

lookup-head : (k : String) (n : Node) (m : Map Node) → lookup k ((k, n) ∷ m) ≡ some n
unfolding lookup
lookup-head k n m = ground (arith, eq_iff k k)

entries_lem : (m : Map Node) → Distinct m → All (λ (e : String × Node). lookup e.0 m ≡ some e.1) m
entries_lem [] d = tt
entries_lem ((k, n) ∷ m) d =
    (lookup-head k n m, All-impl _ _ (λ e h. lookup-tail k e.0 n e.1 m d.0 h) m (entries_lem m d.1))

All-values :
    (P : Node → Type 0) (m : Map Node) → All (λ (e : String × Node). P e.1) m → All P (values m)
All-values P [] h = tt
All-values P ((k, n) ∷ m) h = (h.0, All-values P m h.1)

available-IsKnown :
    (m : Map Node) (exclude : List String) → IsRegistry m → All (IsKnown m) (available m exclude)
available-IsKnown m exclude r = All-select (IsKnown m) (usable exclude) (values m) (
    All-values (IsKnown m) m (
      All-impl {A = String × Node} (λ e. lookup e.0 m ≡ some e.1) (λ e. IsKnown m e.1)
        (λ e h. ap (λ k. lookup k m) (r.keyed e.0 e.1 h) ∙ h) m (entries_lem m r.distinct)))

cons_of :
    (xs : List NodeScore) → 0 < length xs → (y : NodeScore) × (ys : List NodeScore) × (xs ≡ y ∷ ys)
cons_of [] h = absurd (omega arith)
cons_of (x ∷ xs) h = (x, xs, refl)

module _ (f : Floats) (sort : Sort) (contract : IsSort sort) where
  All-with_score :
      (P : Node → Type 0) (ns : List Node)
      → All P ns
      → All (λ (s : NodeScore). P s.node) (map (with_score f) ns)
  All-with_score P [] h = tt
  All-with_score P (n ∷ ns) h = (h.0, All-with_score P ns h.1)

  All-nodes :
      (P : Node → Type 0) (ss : List NodeScore)
      → All (λ (s : NodeScore). P s.node) ss
      → All P (map (λ (s : NodeScore). s.node) ss)
  All-nodes P [] h = tt
  All-nodes P (s ∷ ss) h = (h.0, All-nodes P ss h.1)

  pub select_nodes-IsKnown :
      (m : Map Node) (n : ℤ) (exclude : List String)
      → IsRegistry m
      → All (IsKnown m) (select_nodes f sort m n exclude)
  unfolding select_nodes
  select_nodes-IsKnown m n exclude r =
      let all = available m exclude in
      let known = available-IsKnown m exclude r in
      elim (Bool-cases (ltb_ℤ (pos (length all)) n)) [
        | inl e ↦ rw e known
        | inr e ↦ rw e (
            All-nodes (IsKnown m) (take (pos_part n) (sort (higher f) (map (with_score f) all))) (
              All-take _ (pos_part n) (sort (higher f) (map (with_score f) all)) (
                All-Permᴰ _ (Permᴰ.symm (contract.permutes (higher f) (map (with_score f) all)))
                  (All-with_score (IsKnown m) all known))))
      ]

  -- Some node is selected, if one is usable and one is asked for.
  pub select_nodes-some :
      (m : Map Node) (k : ℕ) (exclude : List String) (a : Node) (others : List Node)
      → available m exclude ≡ a ∷ others
      → (n : Node) × (ns : List Node) × (select_nodes f sort m (pos (suc k)) exclude ≡ n ∷ ns)
  unfolding select_nodes
  select_nodes-some m k exclude a others e =
      elim (Bool-cases (ltb_ℤ (pos (length (available m exclude))) (pos (suc k)))) [
        | inl few ↦ (a, others, rw few e)
        | inr many ↦
            let all = available m exclude in
            let sorted = sort (higher f) (map (with_score f) all) in
            let long : 0 < length sorted = omega (
              arith,
              length-Permᴰ (contract.permutes (higher f) (map (with_score f) all)),
              length-map (with_score f) all,
              ap length e,
            ) in
            let (s, ss, split) = cons_of sorted long in
            (s.node, map (λ (t : NodeScore). t.node) (take k ss), rw many (rw split refl))
      ]
