-- ===== src/Client/Chunker/Pieces.antt =====
-- The pieces of a file (internal/client/chunker.go): how many there are, and that they make it up.
use constelfs.Prelude.{
  ℕ, zero, suc, ◌+◌, ◌-◌, ◌*◌, ◌/◌, ◌%◌, ◌^◌, ◌<◌, ◌≤◌, ◌≡◌, refl, sym, ap, ◌∙◌, List, [], ◌++◌,
  length, take, drop, ltb, arith, Bool-cases, inl, inr, take-add, take_all,
}
use native.Mathlib.Nat.{div-add-mod, mul_comm, suc-mul, zero-mul}
use constelfs.Client.Chunker.{
  get_chunk_size, calculate_chunk_size, rounds_up, get_chunk_count, clip, read_chunk,
}

-- The server and the client cut a file of any size into chunks of the same size.
pub chunk_sizes_agree : (n : ℕ) → calculate_chunk_size n ≡ get_chunk_size n
unfolding calculate_chunk_size get_chunk_size
chunk_sizes_agree n = refl

get_chunk_size-pos : (n : ℕ) → 0 < n → 0 < get_chunk_size n
unfolding get_chunk_size
get_chunk_size-pos n h = ground arith

get_chunk_size-le : (n : ℕ) → get_chunk_size n ≤ 128 * 1024 * 1024
unfolding get_chunk_size
get_chunk_size-le n = ground arith

-- Up to 2^63 - 2^28 bytes no sum wraps.
pub rounds_up-exact :
    (n chunk : ℕ)
    → n < 2 ^ 63 - 2 ^ 28
    → 0 < chunk
    → chunk ≤ 2 ^ 27
    → rounds_up n chunk ≡ (n + chunk - 1) / chunk
unfolding rounds_up
rounds_up-exact n chunk h low high =
    let sum : (((n + chunk) % 2 ^ 64) + 2 ^ 64 - 1) % 2 ^ 64 ≡ n + chunk - 1 = omega arith in
    rw sum (ground arith)

pub ceil_bounds : (n c : ℕ) → 0 < c → (n ≤ (n + c - 1) / c * c) × ((n + c - 1) / c * c < n + c)
ceil_bounds n c h = grind (arith, div-add-mod)

ceil_zero : (n c : ℕ) → 0 < c → 0 < n → 0 < (n + c - 1) / c
ceil_zero n c h k = grind arith

-- Before the last of the pieces the sum is still below the size.
below : (n c k q : ℕ) → k < q → q * c < n + c → k * c < n
below n c k q low high =
    let step : suc k * c ≤ q * c = grind (arith, mul_comm) in
    let more : suc k * c ≡ k * c + c = suc-mul k c in omega arith

abbrev limit : ℕ
limit = 2 ^ 63 - 2 ^ 28

get_chunk_count_pos :
    (n : ℕ) → n < limit → 0 < n → get_chunk_count n ≡ (n + get_chunk_size n - 1) / get_chunk_size n
unfolding get_chunk_count
get_chunk_count_pos n h k =
    let exact =
      rounds_up-exact n (get_chunk_size n) h (get_chunk_size-pos n k)
        (omega (arith, get_chunk_size-le n)) in
    ground (arith, get_chunk_size-pos n k, exact)

get_chunk_count-zero : get_chunk_count 0 ≡ 0
unfolding get_chunk_count get_chunk_size
get_chunk_count-zero = refl

-- For a file below 2^63 - 2^28 bytes the count is the least number of chunks that hold it: no sum
-- overflows, the chunks hold all bytes, and without the last chunk they would not, if there is any.
pub get_chunk_count_bounds :
    (n : ℕ)
    → n < 2 ^ 63 - 2 ^ 28
    → (n ≤ get_chunk_count n * get_chunk_size n)
      × ((k : ℕ) → k < get_chunk_count n → k * get_chunk_size n < n)
get_chunk_count_bounds zero h = rw get_chunk_count-zero (omega arith, λ k low. absurd (omega arith))
get_chunk_count_bounds (suc m) h =
    let n = suc m in
    let bounds = ceil_bounds n (get_chunk_size n) (get_chunk_size-pos n (omega arith)) in
    rw (get_chunk_count_pos n h (omega arith))
      (bounds.0, λ k low. below n (get_chunk_size n) k _ low bounds.1)

-- The rounds that the server makes hold all bytes too.
pub rounds_cover :
    (n : ℕ)
    → n < 2 ^ 63 - 2 ^ 28
    → 0 < n
    → (0 < calculate_chunk_size n)
      × (n ≤ rounds_up n (calculate_chunk_size n) * calculate_chunk_size n)
rounds_cover n h k =
    let bounds = ceil_bounds n (get_chunk_size n) (get_chunk_size-pos n k) in
    let exact =
      rounds_up-exact n (get_chunk_size n) h (get_chunk_size-pos n k)
        (omega (arith, get_chunk_size-le n)) in
    rw chunk_sizes_agree (get_chunk_size-pos n k, rw exact bounds.0)

-- The bytes of the first `k` chunks, one after another.
pub assembled : ℕ → List ℕ → ℕ → List ℕ
assembled n content zero = []
assembled n content (suc k) = assembled n content k ++ read_chunk n content k

pub take-clip :
    (n c offset : ℕ) (content : List ℕ)
    → length content ≡ n
    → take offset content ++ take (clip n c offset) (drop offset content)
      ≡ take (offset + c) content
take-clip n c offset content h = elim (Bool-cases (ltb n (offset + c))) [
  | inl e ↦
      let over : n < offset + c = ground arith in
      rw e (
        sym (take-add offset (n - offset) content)
        ∙ take_all (offset + (n - offset)) content (omega arith)
        ∙ sym (take_all (offset + c) content (omega arith)))
  | inr e ↦ rw e (sym (take-add offset c content))
]

assembled_lem :
    (n : ℕ) (content : List ℕ) (k : ℕ)
    → length content ≡ n
    → assembled n content k ≡ take (k * get_chunk_size n) content
unfolding assembled read_chunk
assembled_lem n content zero h = ap (λ m. take m content) (sym (zero-mul (get_chunk_size n)))
assembled_lem n content (suc k) h =
    let c = get_chunk_size n in
    ap (λ xs. xs ++ take (clip n c (k * c)) (drop (k * c) content)) (assembled_lem n content k h)
    ∙ take-clip n c (k * c) content h
    ∙ ap (λ m. take m content) (sym (suc-mul k c))

-- A file below 2^63 - 2^28 bytes that has the size of its stat is the concatenation of its chunks, as
-- `ReadChunk` reads them one by one up to the count of `GetChunkCount`.
pub read_chunk-assembles :
    (n : ℕ) (content : List ℕ)
    → n < 2 ^ 63 - 2 ^ 28
    → length content ≡ n
    → assembled n content (get_chunk_count n) ≡ content
read_chunk-assembles n content h e =
    let bounds = get_chunk_count_bounds n h in
    assembled_lem n content (get_chunk_count n) e
    ∙ take_all (get_chunk_count n * get_chunk_size n) content (omega (arith, bounds.0))
