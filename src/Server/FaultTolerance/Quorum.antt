-- ===== src/Server/FaultTolerance/Quorum.antt =====
-- What retries and quorums promise (internal/server/fault_tolerance.go).
use constelfs.Prelude.{
  ℕ, zero, suc, ◌+◌, ◌≤◌, ◌<◌, String, true, List, [], ◌∷◌, Option, none, some, ℤ, pos, negsuc,
  ◌≤ℤ◌, Bool, false, not, select, sym, ◌≡◌, ◌≢◌, ◌↔◌, refl, ap, arith, length, inl, inr,
  Option-cases, Bool-cases,
}
use constelfs.Server.FaultTolerance.{
  Retried, done, exhausted, succeeded, retry_loop, write_with_retry, rounds,
  write_to_multiple_nodes, success_count, check_quorum, get_failed_nodes,
}

retry_loop-done :
    (write : ℕ → Option String) (last : Option String) (left retry k : ℕ)
    → retry ≤ k
    → k < retry + left
    → write k ≡ none
    → retry_loop write last left retry ≡ done
unfolding retry_loop
retry_loop-done write last zero retry k low high e = absurd (omega arith)
retry_loop-done write last (suc left) retry k low high e = elim (Option-cases (write retry)) [
  | inl now ↦ rw (now, retry_loop)
  | inr (x, now) ↦
      let later : retry ≢ k = λ same. cc (now, e, ap write same) in
      rw (now, retry_loop)
        (retry_loop-done write (some x) left (suc retry) k (omega (arith, later)) (omega arith) e)
]

retry_loop-attempt :
    (write : ℕ → Option String) (last : Option String) (left retry : ℕ)
    → retry_loop write last left retry ≡ done
    → (k : ℕ) × (k < retry + left) × (write k ≡ none)
unfolding retry_loop
retry_loop-attempt write last zero retry h = cc
retry_loop-attempt write last (suc left) retry h = elim (Option-cases (write retry)) [
  | inl now ↦ (retry, omega arith, now)
  | inr (x, now) ↦
      let (k, low, e) =
        retry_loop-attempt write (some x) left (suc retry) (rw (now, retry_loop) at h) in
      (k, omega arith, e)
]

rounds_iff : (m : ℤ) (k : ℕ) → (k < rounds m) ↔ (pos k ≤ℤ m)
rounds_iff (pos n) k = (λ h. omega arith, λ h. omega arith)
rounds_iff (negsuc n) k = (λ h. absurd (omega arith), λ h. absurd (omega arith))

-- `WriteWithRetry` returns nil exactly when one of its attempts does, and there are `maxRetries + 1`
-- of them, or none if `maxRetries` is negative.
pub write_with_retry_iff :
    (max_retries : ℤ) (write : ℕ → Option String)
    → (write_with_retry max_retries write ≡ done)
      ↔ ((k : ℕ) × (pos k ≤ℤ max_retries) × (write k ≡ none))
unfolding write_with_retry
write_with_retry_iff max_retries write = (
  λ h.
      let (k, low, e) = retry_loop-attempt write none (rounds max_retries) 0 h in
      (k, (rounds_iff max_retries k).0 (omega arith), e),
  λ found.
      let (k, low, e) = found in
      retry_loop-done write none (rounds max_retries) 0 k (omega arith)
        (omega (arith, (rounds_iff max_retries k).1 low)) e,
)

-- Whether one of the first `n` attempts returns nil.
abbrev any_none : (ℕ → Option String) → ℕ → Bool
any_none write zero = false
any_none write (suc n) =
    let rest = any_none write n in elim (write n) [ none ↦ true | some e ↦ rest ]

-- Whether a node takes a write that is retried so often.
abbrev pub takes : ℤ → (ℕ → Option String) → Bool
takes (pos m) write = any_none write (suc m)
takes (negsuc m) write = false

any_none-found :
    (write : ℕ → Option String) (n : ℕ)
    → any_none write n ≡ true
    → (k : ℕ) × (k < n) × (write k ≡ none)
any_none-found write zero h = absurd (cc h)
any_none-found write (suc n) h = elim (Option-cases (write n)) [
  | inl e ↦ (n, omega arith, e)
  | inr (x, e) ↦
      let (k, low, f) = any_none-found write n (rw (e, any_none) at h) in (k, omega arith, f)
]

found-any_none :
    (write : ℕ → Option String) (n k : ℕ) → k < n → write k ≡ none → any_none write n ≡ true
found-any_none write zero k low f = absurd (omega arith)
found-any_none write (suc n) k low f = elim (Option-cases (write n)) [
  | inl e ↦ rw (e, any_none) refl
  | inr (x, e) ↦
      let earlier : n ≢ k = λ same. cc (e, f, ap write same) in
      rw (e, any_none) (found-any_none write n k (omega (arith, earlier)) f)
]

succeeded_iff : (r : Retried) → (succeeded r ≡ true) ↔ (r ≡ done)
succeeded_iff done = (λ h. refl, λ h. refl)
succeeded_iff (exhausted e) = (λ h. absurd (cc h), λ h. absurd (cc h))

same_flag : (b c : Bool) → (b ≡ true → c ≡ true) → (c ≡ true → b ≡ true) → b ≡ c
same_flag true c f g = sym (f refl)
same_flag false true f g = g refl
same_flag false false f g = refl

succeeded-takes :
    (m : ℤ) (write : ℕ → Option String) → succeeded (write_with_retry m write) ≡ takes m write
succeeded-takes (pos m) write =
    same_flag _ _
      (λ h.
        let (k, low, e) = (write_with_retry_iff (pos m) write).0 ((succeeded_iff _).0 h) in
        found-any_none write (suc m) k (omega arith) e)
      (λ h.
        let (k, low, e) = any_none-found write (suc m) h in
        (succeeded_iff _).1 ((write_with_retry_iff (pos m) write).1 (k, omega arith, e)))
succeeded-takes (negsuc m) write =
    same_flag _ _
      (λ h.
        let (k, low, e) = (write_with_retry_iff (negsuc m) write).0 ((succeeded_iff _).0 h) in
        absurd (omega arith))
      (λ h. absurd (cc h))

module _ (max_retries : ℤ) (chunk_id : String) (write : String → ℕ → Option String) where
  success_count_lem :
      (ns : List String)
      → success_count (write_to_multiple_nodes max_retries chunk_id ns write)
        ≡ length (select (λ n. takes max_retries (write n)) ns)
  unfolding success_count write_to_multiple_nodes
  success_count_lem [] = refl
  success_count_lem (n ∷ ns) =
      let rest = success_count_lem ns in
      let flag = succeeded-takes max_retries (write n) in
      rw flag (elim (Bool-cases (takes max_retries (write n))) [
        | inl e ↦ rw e (ap suc rest)
        | inr e ↦ rw e rest
      ])

  get_failed_nodes_lem :
      (ns : List String)
      → get_failed_nodes (write_to_multiple_nodes max_retries chunk_id ns write)
        ≡ select (λ n. not (takes max_retries (write n))) ns
  unfolding get_failed_nodes write_to_multiple_nodes
  get_failed_nodes_lem [] = refl
  get_failed_nodes_lem (n ∷ ns) =
      let rest = get_failed_nodes_lem ns in
      let flag = succeeded-takes max_retries (write n) in
      rw flag (elim (Bool-cases (takes max_retries (write n))) [
        | inl e ↦ rw e rest
        | inr e ↦ rw e (ap (λ l. n ∷ l) rest)
      ])

-- The quorum of a parallel write is reached exactly when the nodes for which one of the attempts, `maxRetries + 1` of
-- them or none, returns nil are at least as many as required, and the failed nodes are the others, in order.
pub check_quorum_iff :
    (max_retries : ℤ) (chunk_id : String) (ns : List String) (write : String → ℕ → Option String)
    (required : ℤ)
    → let results = write_to_multiple_nodes max_retries chunk_id ns write in
      ((check_quorum results required ≡ true)
        ↔ (required ≤ℤ pos (length (select (λ n. takes max_retries (write n)) ns))))
      × (get_failed_nodes results ≡ select (λ n. not (takes max_retries (write n))) ns)
unfolding check_quorum
check_quorum_iff m c ns write required =
    (ground (arith, success_count_lem m c write ns), get_failed_nodes_lem m c write ns)
