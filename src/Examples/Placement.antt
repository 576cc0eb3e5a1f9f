-- ===== src/Examples/Placement.antt =====
-- The theorems on placement, retries and quorums, applied.
use constelfs.Prelude.{
  ℕ, zero, suc, ◌==◌, false, Bool, All, refl, ◌&&◌, ◌+◌, ◌-◌, ◌*◌, ◌/◌, ◌↔◌, String, true, List, [],
  ◌∷◌, Option, none, some, pos, ◌≤ℤ◌, not, select, pos_part, ◌≡◌, arith, ltb, str_eq, if◌then◌else◌,
  length,
}
use constelfs.Prelude.Sort.{IsStrictWeak, insertion_sort, insertion_sort-IsSort}
use constelfs.Server.Scheduler.{Floats, available, select_nodes, score_node}
use constelfs.Server.Scheduler.Selection.{AreBest, select_nodes-AreBest}
use constelfs.Examples.Data.{three_nodes}
use constelfs.Server.FaultTolerance.{
  done, write_with_retry, write_to_multiple_nodes, check_quorum, get_failed_nodes,
}
use constelfs.Server.FaultTolerance.Quorum.{takes, write_with_retry_iff, check_quorum_iff}

-- Arithmetic on numbers in place of floats.
abbrev pub numbers : Floats
numbers = record {
  add = λ x y. x + y;
  sub = λ x y. x - y;
  mul = λ x y. x * y;
  div = λ x y. x / y;
  of_int = pos_part;
  round = λ x. x;
  gt = λ x y. ltb y x;
}

-- Numbers of which one, the bit pattern of NaN, compares with none.
abbrev is_nan : ℕ → Bool
is_nan x = x == 0x7ff8000000000001

abbrev with_nan : Floats
with_nan = record numbers { gt = λ x y. not (is_nan x) && not (is_nan y) && ltb y x }

with_nan-IsStrictWeak : IsStrictWeak (λ x. not (is_nan x)) with_nan.gt
with_nan-IsStrictWeak = record {
  asym = λ a b p q h. ground arith;
  negtrans = λ a b c p q r h k. ground arith;
}

three_scored : All (λ m. is_nan (score_node with_nan m) ≡ false) (available three_nodes [])
unfolding score_node
three_scored = (refl, (refl, tt))

select_nodes-AreBest_example :
    AreBest with_nan
      (pos 1)
      (available three_nodes [])
      (select_nodes with_nan insertion_sort three_nodes (pos 1) [])
select_nodes-AreBest_example =
    select_nodes-AreBest with_nan insertion_sort insertion_sort-IsSort is_nan with_nan-IsStrictWeak
      three_nodes (pos 1) [] three_scored

-- The second attempt succeeds.
abbrev second_time : ℕ → Option String
second_time (suc zero) = none
second_time _ = some "refused"

write_with_retry_iff_example :
    (write_with_retry (pos 2) second_time ≡ done)
    ↔ ((k : ℕ) × (pos k ≤ℤ pos 2) × (second_time k ≡ none))
write_with_retry_iff_example = write_with_retry_iff (pos 2) second_time

-- The node `b` is down.
abbrev b_down : String → ℕ → Option String
b_down node retry = if str_eq node "b" then some "refused" else none

abbrev a_b_c : List String
a_b_c = "a" ∷ "b" ∷ "c" ∷ []

check_quorum_iff_example :
    let results = write_to_multiple_nodes (pos 3) "x" a_b_c b_down in
    ((check_quorum results (pos 2) ≡ true)
      ↔ (pos 2 ≤ℤ pos (length (select (λ n. takes (pos 3) (b_down n)) a_b_c))))
    × (get_failed_nodes results ≡ select (λ n. not (takes (pos 3) (b_down n))) a_b_c)
check_quorum_iff_example = check_quorum_iff (pos 3) "x" a_b_c b_down (pos 2)
