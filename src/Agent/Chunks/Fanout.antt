-- ===== src/Agent/Chunks/Fanout.antt =====
-- When the fan-out of a chunk succeeds (`HandleReplicate` and `sendChunkToNode` of internal/node/chunk_handler.go).
use constelfs.Prelude.{
  ℕ, zero, suc, ◌+◌, ◌<◌, ◌≤◌, String, Bool, true, false, List, [], ◌∷◌, some, ◌≡◌, ◌≢◌, ◌⊎◌, ◌↔◌,
  refl, ap, sym, ◌∙◌, arith, length, ltb, inl, inr, Bool-cases, ==_iff,
}
use constelfs.Server.Nodes.{post}
use constelfs.Server.Content.{Sent, not_sent, answered}
use constelfs.Agent.Chunks.Places.{Disk, join, file_at}
use constelfs.Agent.Chunks.{
  Faults, replicated, accepted, send_loop, send_chunk_to_node, count_sent, ReplicateRequest,
  handle_replicate,
}

-- One of the first three attempts is answered with status 200.
abbrev pub IsReached : (ℕ → Sent) → Type 0
IsReached send = (k : ℕ) × (k < 3) × (send k ≡ answered 200)

-- One of the addresses satisfies the predicate.
abbrev pub AnyOf : (String → Type 0) → List String → Type 0
AnyOf P [] = ⊥
AnyOf P (addr ∷ addrs) = P addr ⊎ AnyOf P addrs

accepted_iff : (s : Sent) → (accepted s ≡ true) ↔ (s ≡ answered 200)
accepted_iff not_sent = (λ h. absurd (cc h), λ h. absurd (cc h))
accepted_iff (answered code) = (λ h. ap answered ((==_iff code 200).0 h), λ h. ap accepted h)

send_loop-attempt :
    (send : ℕ → Sent) (left retry : ℕ)
    → send_loop send left retry ≡ true
    → (k : ℕ) × (k < retry + left) × (accepted (send k) ≡ true)
unfolding send_loop
send_loop-attempt send zero retry h = cc
send_loop-attempt send (suc left) retry h = elim (Bool-cases (accepted (send retry))) [
  | inl e ↦ (retry, omega arith, e)
  | inr e ↦
      let (k, low, found) = send_loop-attempt send left (suc retry) (rw (e, send_loop) at h) in
      (k, omega arith, found)
]

send_loop-true :
    (send : ℕ → Sent) (left retry k : ℕ)
    → retry ≤ k
    → k < retry + left
    → accepted (send k) ≡ true
    → send_loop send left retry ≡ true
unfolding send_loop
send_loop-true send zero retry k low high e = absurd (omega arith)
send_loop-true send (suc left) retry k low high e = elim (Bool-cases (accepted (send retry))) [
  | inl f ↦ rw (f, send_loop) refl
  | inr f ↦
      let later : retry ≢ k = λ same. cc (f, e, ap (λ i. accepted (send i)) same) in
      rw (f, send_loop)
        (send_loop-true send left (suc retry) k (omega (arith, later)) (omega arith) e)
]

send_chunk_to_node_iff : (send : ℕ → Sent) → (send_chunk_to_node send ≡ true) ↔ IsReached send
unfolding send_chunk_to_node
send_chunk_to_node_iff send = (
  λ h.
      let (k, low, e) = send_loop-attempt send 3 0 h in
      (k, omega arith, (accepted_iff (send k)).0 e),
  λ r.
      let (k, low, e) = r in
      send_loop-true send 3 0 k (omega arith) (omega arith) ((accepted_iff (send k)).1 e),
)

count_sent_iff :
    (send : String → ℕ → Sent) (addrs : List String)
    → (0 < count_sent send addrs) ↔ AnyOf (λ addr. IsReached (send addr)) addrs
unfolding count_sent
count_sent_iff send [] = (λ h. absurd (omega arith), λ any. absurd any)
count_sent_iff send (addr ∷ addrs) =
    let one = send_chunk_to_node_iff (send addr) in
    let rest = count_sent_iff send addrs in
    elim (Bool-cases (send_chunk_to_node (send addr))) [
      | inl e ↦ (λ h. inl (one.0 e), λ any. rw (e, count_sent) (omega arith))
      | inr e ↦ (
        λ h. inr (rest.0 (rw (e, count_sent) at h)),
        λ any.
            rw (e, count_sent)
              (elim any [ inl r ↦ absurd (cc (e, one.1 r)) | inr more ↦ rest.1 more ]),
      )
    ]

-- Where the node has the file of the chunk and can read it, a request to replicate it to the target addresses is answered
-- with success, a count and the number of the targets, exactly when one of the targets takes the chunk in one of
-- three attempts.
pub handle_replicate_iff :
    (root : List String) (send : String → List ℕ → String → ℕ → Sent) (faults : Faults) (d : Disk)
    (req : ReplicateRequest) (bytes : List ℕ)
    → file_at d (join root "chunks" req.chunk_id) ≡ some bytes
    → faults.read_fails ≡ false
    → ((n : ℕ) × (handle_replicate root send faults d post (some req)
          ≡ replicated true n (length req.target_nodes)))
      ↔ AnyOf (λ addr. IsReached (send req.chunk_id bytes addr)) req.target_nodes
unfolding handle_replicate
handle_replicate_iff root send faults d req bytes e ok =
    let any = count_sent_iff (send req.chunk_id bytes) req.target_nodes in
    let n = count_sent (send req.chunk_id bytes) req.target_nodes in
    let runs : handle_replicate root send faults d post (some req)
        ≡ replicated (ltb 0 n) n (length req.target_nodes) =
      rw (e, ok, handle_replicate) refl in
    (
      λ h. any.0 (positive n (flag (sym runs ∙ h.1))),
      λ a. (n, runs ∙ ap (λ b. replicated b n (length req.target_nodes)) (above n (any.1 a))),
    )
  where
    flag : {b c : Bool} {n m k : ℕ} → replicated b n k ≡ replicated c m k → b ≡ c
    flag h = cc

    positive : (n : ℕ) → ltb 0 n ≡ true → 0 < n
    positive n h = ground arith

    above : (n : ℕ) → 0 < n → ltb 0 n ≡ true
    above n h = ground arith
