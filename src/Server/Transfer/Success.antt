-- ===== src/Server/Transfer/Success.antt =====
-- When a transfer succeeds (internal/server/download_manager.go, replication.go).
use constelfs.Prelude.{
  ℕ, zero, suc, ◌+◌, ◌≤◌, ◌<◌, String, List, [], ◌∷◌, ◌++◌, Option, none, some, Map, lookup, ◌≡◌,
  ◌≢◌, ◌↔◌, ◌⊎◌, refl, ap, ◌∙◌, arith, All, map, true, inl, inr, Option-cases,
}
use constelfs.Server.State.{Node}
use constelfs.Server.Storage.{node_addr}
use constelfs.Server.Transfer.{
  Network, Download, DownloadError, data_of, failed, download_chunk, found, fallback_loop,
  download_chunk_with_fallback, Posted, not_sent, answered, Answer, PostError, judge, replicated,
  replicate_loop, target_addrs, to_targets, replicate_chunk,
}

Download-cases :
    (d : Download)
    → ((bytes : List ℕ) × (d ≡ data_of bytes)) ⊎ ((e : DownloadError) × (d ≡ failed e))
Download-cases (data_of bytes) = inl (bytes, refl)
Download-cases (failed e) = inr (e, refl)

-- The replica `id` is the first of `ids` that gives the chunk, and gives `bytes`.
pub FirstOf : Network → Map Node → String → List String → List ℕ → String → Type 0
FirstOf net nodes chunk_id ids bytes id =
    (before : List String) × (after : List String) × (ids ≡ before ++ (id ∷ after))
    × All (λ j. (e : DownloadError) × (download_chunk net nodes chunk_id j ≡ failed e)) before
    × (download_chunk net nodes chunk_id id ≡ data_of bytes)

module _ (net : Network) (nodes : Map Node) (chunk_id : String) where
  fallback-first :
      (ids : List String) (last : Option DownloadError) (bytes : List ℕ) (id : String)
      → fallback_loop net nodes chunk_id last ids ≡ found bytes id
      → FirstOf net nodes chunk_id ids bytes id
  unfolding fallback_loop FirstOf
  fallback-first [] last bytes id h = cc
  fallback-first (j ∷ js) last bytes id h =
      elim (Download-cases (download_chunk net nodes chunk_id j)) [
        | inl (bs, e) ↦
            let same : found bs j ≡ found bytes id = rw (e, fallback_loop) at h in
            ([], js, cc same, tt, cc (same, e))
        | inr (x, e) ↦
            let (before, after, split, bad, good) =
              fallback-first js (some x) bytes id (rw (e, fallback_loop) at h) in
            (j ∷ before, after, ap (λ l. j ∷ l) split, ((x, e), bad), good)
      ]

  first-fallback :
      (ids : List String) (last : Option DownloadError) (bytes : List ℕ) (id : String)
      → FirstOf net nodes chunk_id ids bytes id
      → fallback_loop net nodes chunk_id last ids ≡ found bytes id
  unfolding fallback_loop FirstOf
  first-fallback ids last bytes id ([], after, split, bad, good) = rw (split, good, fallback_loop)
  first-fallback ids last bytes id (j ∷ before, after, split, ((x, e), bad), good) =
      rw (split, e, fallback_loop)
        (first-fallback (before ++ (id ∷ after)) (some x) bytes id (before, after, refl, bad, good))

-- `DownloadChunkWithFallback` returns the data of the first replica in the list that gives the chunk, with
-- its id, and it does so whenever there is one.
pub download_chunk_with_fallback_iff :
    (net : Network) (nodes : Map Node) (chunk_id : String) (ids : List String) (bytes : List ℕ)
    (id : String)
    → (download_chunk_with_fallback net nodes chunk_id ids ≡ found bytes id)
      ↔ FirstOf net nodes chunk_id ids bytes id
unfolding download_chunk_with_fallback
download_chunk_with_fallback_iff net nodes chunk_id ids bytes id = (
  fallback-first net nodes chunk_id ids none bytes id,
  first-fallback net nodes chunk_id ids none bytes id,
)

replicate_loop-round :
    (post : ℕ → Posted) (last : Option PostError) (left retry : ℕ)
    → replicate_loop post last left retry ≡ replicated
    → (k : ℕ) × (k < retry + left) × (judge (post k) ≡ none)
unfolding replicate_loop
replicate_loop-round post last zero retry h = cc
replicate_loop-round post last (suc left) retry h = elim (Option-cases (judge (post retry))) [
  | inl now ↦ (retry, omega arith, now)
  | inr (x, now) ↦
      let (k, low, e) =
        replicate_loop-round post (some x) left (suc retry) (rw (now, replicate_loop) at h) in
      (k, omega arith, e)
]

replicate_loop-replicated :
    (post : ℕ → Posted) (last : Option PostError) (left retry k : ℕ)
    → retry ≤ k
    → k < retry + left
    → judge (post k) ≡ none
    → replicate_loop post last left retry ≡ replicated
unfolding replicate_loop
replicate_loop-replicated post last zero retry k low high e = absurd (omega arith)
replicate_loop-replicated post last (suc left) retry k low high e =
    elim (Option-cases (judge (post retry))) [
      | inl now ↦ rw (now, replicate_loop)
      | inr (x, now) ↦
          let later : retry ≢ k = λ same. cc (now, e, ap (λ i. judge (post i)) same) in
          rw (now, replicate_loop)
            (replicate_loop-replicated post (some x) left (suc retry) k (omega (arith, later))
              (omega arith) e)
    ]

-- The answer that ends the loop.
abbrev pub IsSuccess : Posted → Type 0
IsSuccess p = (a : Answer) × (p ≡ answered 200 (some a)) × (a.success ≡ true)

judge_iff : (p : Posted) → (judge p ≡ none) ↔ IsSuccess p
judge_iff not_sent = (λ h. absurd (cc h), λ s. absurd (cc (s.1)))
judge_iff (answered code none) = (λ h. absurd (ground (arith, h)), λ s. absurd (cc (s.1)))
judge_iff (answered code (some a)) = (
  λ h. (a, ground (arith, h), ground (arith, h)),
  λ s.
      let (b, same, good) = s in
      let c : code ≡ 200 = cc (same) in
      let e : a ≡ b = cc (same) in
      let well : a.success ≡ true = ap (λ x. x.success) e ∙ good in ground (arith, c, well),
)

-- The address of each target that is known, in the order of the targets.
abbrev pub somes : {A : Type 0} → List (Option A) → List A
somes [] = []
somes (none ∷ os) = somes os
somes (some a ∷ os) = a ∷ somes os

abbrev pub known_addrs : Map Node → List String → List String
known_addrs nodes targets = map node_addr (somes (map (λ id. lookup id nodes) targets))

target_addrs_lem :
    (nodes : Map Node) (targets : List String)
    → target_addrs nodes targets ≡ known_addrs nodes targets
unfolding target_addrs
target_addrs_lem nodes [] = refl
target_addrs_lem nodes (id ∷ ids) =
    let rest = target_addrs_lem nodes ids in
    elim (Option-cases (lookup id nodes)) [
      | inl e ↦ rw (e, target_addrs) rest
      | inr (n, e) ↦ rw (e, target_addrs) (ap (λ l. node_addr n ∷ l) rest)
    ]

to_targets_iff :
    (post : ℕ → Posted) (addrs : List String)
    → (to_targets post addrs ≡ replicated)
      ↔ ((addrs ≢ []) × ((k : ℕ) × (k < 3) × IsSuccess (post k)))
to_targets_iff post [] = (λ h. cc, λ g. absurd (g.0 refl))
to_targets_iff post (addr ∷ addrs) = (
  λ h.
      let (k, low, e) = replicate_loop-round post none 3 0 h in
      (λ same. cc, (k, omega arith, (judge_iff (post k)).0 e)),
  λ g.
      let (k, low, e) = g.1 in
      replicate_loop-replicated post none 3 0 k (omega arith) (omega arith)
        ((judge_iff (post k)).1 e),
)

-- `ReplicateChunk` returns nil exactly when the source is known, a target is known, and in one of the
-- three rounds the source answers with status 200 and success.
pub replicate_chunk_iff :
    (post : Node → String → List String → ℕ → Posted) (nodes : Map Node) (chunk_id source : String)
    (targets : List String)
    → (replicate_chunk post nodes chunk_id source targets ≡ replicated) ↔ (
        (n : Node) × (lookup source nodes ≡ some n)
        × (known_addrs nodes targets ≢ [])
        × ((k : ℕ) × (k < 3) × IsSuccess (post n chunk_id (known_addrs nodes targets) k)))
unfolding replicate_chunk
replicate_chunk_iff post nodes chunk_id source targets = elim (Option-cases (lookup source nodes)) [
  | inl e ↦ (λ h. cc (rw (e, replicate_chunk) at h), λ g. cc (e, g.1))
  | inr (n, e) ↦
      let addrs = known_addrs nodes targets in
      let both = to_targets_iff (post n chunk_id addrs) addrs in
      (
        λ h.
            let w = both.0 (rw (e, target_addrs_lem nodes targets, replicate_chunk) at h) in
            (n, e, w.0, w.1),
        λ g.
            let (m, f, known, rest) = g in
            let same : n ≡ m = cc (e, f) in
            rw (e, target_addrs_lem nodes targets, replicate_chunk) (both.1 (known, rw same rest)),
      )
]
