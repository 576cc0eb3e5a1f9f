-- ===== src/Server/FaultTolerance.antt =====
-- Retries and quorums, internal/server/fault_tolerance.go. A write is what it returns at each
-- attempt: nil, or an error.
pub mod Quorum
use constelfs.Prelude.{
  ℕ, zero, suc, String, Bool, true, false, List, [], ◌∷◌, Option, none, some, ℤ, pos, negsuc, ltb_ℤ,
  if◌then◌else◌, not,
}

pub record WriteResult : Type 0 where
  pub success : Bool
  pub chunk_id : String
  pub node_id : String
  pub error : String
  pub retry_count : ℤ

-- The rounds of the loop `retry <= ftm.maxRetries`, of which there are none if it is negative.
abbrev pub rounds : ℤ → ℕ
rounds (pos n) = suc n
rounds (negsuc n) = 0

-- The result: nil, or the error of the last attempt, which is nil if there was none.
pub data Retried : Type 0 where
  done : Retried
  exhausted : Option String → Retried

unfoldable pub retry_loop : (ℕ → Option String) → Option String → ℕ → ℕ → Retried
retry_loop write last zero retry = exhausted last
retry_loop write last (suc left) retry = elim (write retry) [
  | none ↦ done
  | some e ↦ retry_loop write (some e) left (suc retry)
]

unfoldable pub write_with_retry : ℤ → (ℕ → Option String) → Retried
unfolding retry_loop
write_with_retry max_retries write = retry_loop write none (rounds max_retries) 0

-- `err == nil`, and `err.Error()`; the text around the last error is left out.
abbrev pub succeeded : Retried → Bool
succeeded done = true
succeeded (exhausted e) = false

abbrev pub message : Retried → String
message done = ""
message (exhausted none) = ""
message (exhausted (some e)) = e

-- The goroutines of `WriteToMultipleNodes` write one entry of the results each.
unfoldable pub write_to_multiple_nodes :
    ℤ → String → List String → (String → ℕ → Option String) → List WriteResult
unfolding write_with_retry
write_to_multiple_nodes max_retries chunk_id [] write = []
write_to_multiple_nodes max_retries chunk_id (n ∷ ns) write =
    let r = write_with_retry max_retries (write n) in
    record {
      success = succeeded r;
      chunk_id = chunk_id;
      node_id = n;
      error = message r;
      retry_count = pos 0;
    }
    ∷ write_to_multiple_nodes max_retries chunk_id ns write

unfoldable pub success_count : List WriteResult → ℕ
success_count [] = 0
success_count (r ∷ rs) = let rest = success_count rs in if r.success then suc rest else rest

unfoldable pub check_quorum : List WriteResult → ℤ → Bool
unfolding success_count
check_quorum results required = not (ltb_ℤ (pos (success_count results)) required)

unfoldable pub get_failed_nodes : List WriteResult → List String
get_failed_nodes [] = []
get_failed_nodes (r ∷ rs) =
    let rest = get_failed_nodes rs in if not r.success then r.node_id ∷ rest else rest
