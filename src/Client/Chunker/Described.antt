-- ===== src/Client/Chunker/Described.antt =====
-- What `ChunkFile` of internal/client/chunker.go says of each chunk of a file.
use constelfs.Prelude.{
  ℕ, zero, suc, ◌+◌, ◌-◌, ◌*◌, ◌^◌, ◌<◌, ◌≤◌, ◌≡◌, refl, sym, ap, ◌∙◌, String, false, List, [], ◌∷◌,
  Option, none, some, length, take, drop, ltb, arith, drop-add, length-drop,
}
use native.Mathlib.Nat.{suc-mul, zero-mul}
use constelfs.Client.Chunker.{
  get_chunk_size, get_chunk_count, clip, ChunkInfo, chunk_loop, chunk_file, read_chunk,
}
use constelfs.Client.Chunker.Pieces.{get_chunk_count_bounds}

ltb-false : {a b : ℕ} → b ≤ a → ltb a b ≡ false
ltb-false h = ground arith

module _ (sha256 : List ℕ → String) (n : ℕ) (content : List ℕ) where
  -- Chunk `i`: its offset is `i` times the chunk size, its hash the one of what `ReadChunk` reads.
  pub described : ℕ → ChunkInfo
  described i = record {
    index = i;
    size = clip n (get_chunk_size n) (i * get_chunk_size n);
    hash = sha256 (read_chunk n content i);
    offset = i * get_chunk_size n;
  }

  pub described_from : ℕ → ℕ → List ChunkInfo
  described_from i zero = []
  described_from i (suc left) = described i ∷ described_from (suc i) left

  prepend : ChunkInfo → Option (List ChunkInfo) → Option (List ChunkInfo)
  prepend info none = none
  prepend info (some infos) = some (info ∷ infos)

  round_lem :
      (left i offset : ℕ) (unread : List ℕ)
      → clip n (get_chunk_size n) offset ≤ length unread
      → chunk_loop sha256 n (get_chunk_size n) (suc left) i offset unread
        ≡ prepend
            (record {
              index = i;
              size = clip n (get_chunk_size n) offset;
              hash = sha256 (take (clip n (get_chunk_size n) offset) unread);
              offset = offset;
            })
            (chunk_loop sha256 n
              (get_chunk_size n)
              left
              (suc i)
              (offset + clip n (get_chunk_size n) offset)
              (drop (clip n (get_chunk_size n) offset) unread))
  unfolding chunk_loop prepend
  round_lem left i offset unread h =
      let enough : ltb (length unread) (clip n (get_chunk_size n) offset) ≡ false = ltb-false h in
      elim (chunk_loop sha256 n (get_chunk_size n) left (suc i)
        (offset + clip n (get_chunk_size n) offset)
        (drop (clip n (get_chunk_size n) offset) unread)) [
          | none ↦ rw enough refl
          | some infos ↦ rw enough refl
        ]

  room : (c offset : ℕ) → length content ≡ n → clip n c offset ≤ length (drop offset content)
  room c offset e = ground (arith, length-drop offset content)

  whole : (c i : ℕ) → i * c + c < n → i * c + clip n c (i * c) ≡ suc i * c
  whole c i h = let fits : ltb n (i * c + c) ≡ false = ground arith in rw fits (sym (suc-mul i c))

  chunk_loop_lem :
      (left i : ℕ)
      → length content ≡ n
      → ((k : ℕ) → k < i + left → k * get_chunk_size n < n)
      → chunk_loop sha256 n
          (get_chunk_size n)
          left
          i
          (i * get_chunk_size n)
          (drop (i * get_chunk_size n) content)
        ≡ some (described_from i left)
  unfolding chunk_loop read_chunk described described_from prepend
  chunk_loop_lem zero i e h = refl
  chunk_loop_lem (suc zero) i e h =
      let c = get_chunk_size n in round_lem zero i (i * c) (drop (i * c) content) (room c (i * c) e)
  chunk_loop_lem (suc (suc left)) i e h =
      let c = get_chunk_size n in
      let next : i * c + c < n = rw (sym (suc-mul i c)) (h (suc i) (omega arith)) in
      let same = whole c i next in
      let rest = chunk_loop_lem (suc left) (suc i) e (λ k low. h k (omega arith)) in
      let step = round_lem (suc left) i (i * c) (drop (i * c) content) (room c (i * c) e) in
      let moved = ap (λ o. chunk_loop sha256 n c (suc left) (suc i) o (drop o content)) same in
      let dropped =
        ap (λ u. chunk_loop sha256 n c (suc left) (suc i) (i * c + clip n c (i * c)) u)
          (drop-add (i * c) (clip n c (i * c)) content) in
      step ∙ ap (prepend (described i)) (dropped ∙ moved ∙ rest)

-- `ChunkFile` of a file that has the size of its stat, below 2^63 - 2^28 bytes, succeeds and lists the
-- chunks 0 to `GetChunkCount` - 1 in order, each with the size, offset and hash of what `ReadChunk` reads.
pub chunk_file_lem :
    (sha256 : List ℕ → String) (n : ℕ) (content : List ℕ)
    → n < 2 ^ 63 - 2 ^ 28
    → length content ≡ n
    → chunk_file sha256 n content ≡ some (described_from sha256 n content 0 (get_chunk_count n))
unfolding chunk_file
chunk_file_lem sha256 n content h e =
    let bounds = get_chunk_count_bounds n h in
    ap (λ o. chunk_loop sha256 n (get_chunk_size n) (get_chunk_count n) 0 o (drop o content))
      (sym (zero-mul (get_chunk_size n)))
    ∙ chunk_loop_lem sha256 n content (get_chunk_count n) 0 e (λ k low. bounds.1 k (omega arith))
