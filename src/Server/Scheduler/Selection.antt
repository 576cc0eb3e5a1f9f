-- ===== src/Server/Scheduler/Selection.antt =====
-- What `SelectNodes` (internal/server/scheduler.go) promises to the storage manager.
use constelfs.Prelude.{
  not, suc, String, Bool, true, false, List, [], ◌∷◌, ◌++◌, map, Map, ℤ, pos, length, take, drop,
  All, ltb_ℤ, pos_part, ◌≡◌, refl, sym, ap, ◌∙◌, arith, Bool-cases, inl, inr, take-append-drop,
  length-take, ◌≤ℤ◌,
}
use mathlib.Core.Path.{subst₂}
use mathlib.Core.List.{Permᴰ, map-append}
use mathlib.Core.List.Permᴰ
use Prim.Native.Nat.{min}
use constelfs.Prelude.Sort.{
  IsStrictWeak, IsSort, All-Permᴰ, length-Permᴰ, IsOrdered-split, All-take, All-drop,
}
use constelfs.Server.State.{Node, Float}
use constelfs.Server.Scheduler.{
  Floats, NodeScore, Sort, score_node, with_score, higher, available, select_nodes,
}

abbrev nodes_of : List NodeScore → List Node
nodes_of ss = map (λ (s : NodeScore). s.node) ss

-- `a` scores higher than `b`.
abbrev pub beats : Floats → Node → Node → Bool
beats f a b = f.gt (score_node f a) (score_node f b)

-- `chosen` are the best `n` of the nodes `all`, or all of them if there are fewer: they are part of
-- `all`, as many as there can be, and no node that is left out scores higher than a chosen one.
pub record AreBest (f : Floats) (n : ℤ) (all chosen : List Node) : Type 0 where
  pub rest : List Node
  pub part : Permᴰ (chosen ++ rest) all
  pub count : length chosen ≡ min (pos_part n) (length all)
  pub best : All (λ a. All (λ b. beats f b a ≡ false) rest) chosen

-- The scores are those of their nodes.
abbrev IsScored : Floats → List NodeScore → Type 0
IsScored f ss = All (λ (s : NodeScore). s.score ≡ score_node f s.node) ss

with_score-IsScored : (f : Floats) (ns : List Node) → IsScored f (map (with_score f) ns)
with_score-IsScored f [] = tt
with_score-IsScored f (n ∷ ns) = (refl, with_score-IsScored f ns)

map-perm : {A B : Type 0} (g : A → B) {xs ys : List A} → Permᴰ xs ys → Permᴰ (map g xs) (map g ys)
map-perm g Permᴰ.nil = Permᴰ.nil
map-perm g (Permᴰ.cons e p) = Permᴰ.cons (ap g e) (map-perm g p)
map-perm g (Permᴰ.swap e h) = Permᴰ.swap (ap g e) (ap g h)
map-perm g (Permᴰ.trans p q) = Permᴰ.trans (map-perm g p) (map-perm g q)

nodes_of-with_score : (f : Floats) (ns : List Node) → nodes_of (map (with_score f) ns) ≡ ns
nodes_of-with_score f [] = refl
nodes_of-with_score f (n ∷ ns) = rw (nodes_of-with_score f ns)

pub length-map : {A B : Type 0} (g : A → B) (xs : List A) → length (map g xs) ≡ length xs
length-map g [] = refl
length-map g (x ∷ xs) = ap suc (length-map g xs)

not_higher :
    (f : Floats) (s : NodeScore) (ts : List NodeScore)
    → s.score ≡ score_node f s.node
    → IsScored f ts
    → All (λ t. higher f t s ≡ false) ts
    → All (λ b. beats f b s.node ≡ false) (nodes_of ts)
not_higher f s [] e scored h = tt
not_higher f s (t ∷ ts) e scored h =
    (subst₂ (λ x y. f.gt x y ≡ false) scored.0 e h.0, not_higher f s ts e scored.1 h.1)

none_beats :
    (f : Floats) (ss ts : List NodeScore)
    → IsScored f ss
    → IsScored f ts
    → All (λ s. All (λ t. higher f t s ≡ false) ts) ss
    → All (λ a. All (λ b. beats f b a ≡ false) (nodes_of ts)) (nodes_of ss)
none_beats f [] ts scored scored' h = tt
none_beats f (s ∷ ss) ts scored scored' h =
    (not_higher f s ts scored.0 scored' h.0, none_beats f ss ts scored.1 scored' h.1)

-- The score is a number.
abbrev pub has_number : (Float → Bool) → NodeScore → Bool
has_number is_nan s = not (is_nan s.score)

higher-IsStrictWeak :
    (f : Floats) (is_nan : Float → Bool)
    → IsStrictWeak (λ x. not (is_nan x)) f.gt
    → IsStrictWeak (has_number is_nan) (higher f)
higher-IsStrictWeak f is_nan order = record {
  asym = λ a b. order.asym a.score b.score;
  negtrans = λ a b c. order.negtrans a.score b.score c.score;
}

with_score-has_number :
    (f : Floats) (is_nan : Float → Bool) (ns : List Node)
    → All (λ n. is_nan (score_node f n) ≡ false) ns
    → All (λ s. has_number is_nan s ≡ true) (map (with_score f) ns)
with_score-has_number f is_nan [] h = tt
with_score-has_number f is_nan (n ∷ ns) h = (ap not h.0, with_score-has_number f is_nan ns h.1)

map-append_lem : (xs ys : List NodeScore) → nodes_of (xs ++ ys) ≡ nodes_of xs ++ nodes_of ys
map-append_lem xs ys = map-append (λ (s : NodeScore). s.node) xs ys

ltb_ℤ-true : (a b : ℤ) → ltb_ℤ a b ≡ true → a ≤ℤ b
ltb_ℤ-true a b e = ground arith

refl-AreBest : (f : Floats) (n : ℤ) (all : List Node) → pos (length all) ≤ℤ n → AreBest f n all all
refl-AreBest f n all h = record {
  rest = [];
  part = Permᴰ.append-nil all;
  count = omega arith;
  best = nothing all;
}
  where
    nothing : (xs : List Node) → All (λ a. All (λ b. beats f b a ≡ false) []) xs
    nothing [] = tt
    nothing (x ∷ xs) = (tt, nothing xs)

module _ (f : Floats) (sort : Sort) (contract : IsSort sort) (is_nan : Float → Bool)
    (order : IsStrictWeak (λ x. not (is_nan x)) f.gt) where
  sorted-AreBest :
      (n : ℤ) (all : List Node)
      → All (λ m. is_nan (score_node f m) ≡ false) all
      → AreBest f n all (nodes_of (take (pos_part n) (sort (higher f) (map (with_score f) all))))
  sorted-AreBest n all real =
      let scores = map (with_score f) all in
      let sorted = sort (higher f) scores in
      let k = pos_part n in
      let permuted = contract.permutes (higher f) scores in
      let scored = All-Permᴰ _ (Permᴰ.symm permuted) (with_score-IsScored f all) in
      let ordered =
        contract.orders (has_number is_nan) (higher f) (higher-IsStrictWeak f is_nan order) scores
          (with_score-has_number f is_nan all real) in
      record {
        rest = nodes_of (drop k sorted);
        part =
            subst₂ Permᴰ
              (ap nodes_of (sym (take-append-drop k sorted))
                ∙ map-append_lem (take k sorted) (drop k sorted))
              (nodes_of-with_score f all) (map-perm (λ (s : NodeScore). s.node) permuted);
        count = omega (
          arith,
          length-map (λ (s : NodeScore). s.node) (take k sorted),
          length-take k sorted,
          length-Permᴰ permuted,
          length-map (with_score f) all,
        );
        best =
            none_beats f (take k sorted) (drop k sorted) (All-take _ k sorted scored)
              (All-drop _ k sorted scored) (IsOrdered-split (higher f) k sorted ordered);
      }

  -- Let the order of the floats other than NaN be a strict weak one, and no score of a usable node be NaN. Then the
  -- selection is the best `n` of the usable nodes, or all of them if there are fewer.
  pub select_nodes-AreBest :
      (nodes : Map Node) (n : ℤ) (exclude : List String)
      → All (λ m. is_nan (score_node f m) ≡ false) (available nodes exclude)
      → AreBest f n (available nodes exclude) (select_nodes f sort nodes n exclude)
  unfolding select_nodes
  select_nodes-AreBest nodes n exclude real =
      elim (Bool-cases (ltb_ℤ (pos (length (available nodes exclude))) n)) [
        | inl e ↦ rw e (
            refl-AreBest f n (available nodes exclude)
              (ltb_ℤ-true (pos (length (available nodes exclude))) n e))
        | inr e ↦ rw e (sorted-AreBest n (available nodes exclude) real)
      ]
