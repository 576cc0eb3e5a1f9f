-- ===== src/Client/Chunker.antt =====
-- Splitting a file, internal/client/chunker.go, and the server's chunk sizes, in
-- internal/server/file_manager.go. Sizes are int64 values that are not negative; a sum wraps.
-- A file is its bytes. Its size is the one that os.Stat gave earlier, and need not be its length.
pub mod Pieces
pub mod Described
use constelfs.Prelude.{
  ℕ, zero, suc, ◌+◌, ◌-◌, ◌*◌, ◌/◌, ◌%◌, ◌^◌, ◌<◌, ◌≤◌, ◌≡◌, String, Bool, true, false, List, [],
  ◌∷◌, ◌++◌, Option, none, some, length, take, drop, ltb, ◌==◌, if◌then◌else◌, arith,
}

-- `GetChunkSize`.
unfoldable pub get_chunk_size : ℕ → ℕ
get_chunk_size n =
    if ltb n (10 * 1024 * 1024)
    then n
    else if ltb n (100 * 1024 * 1024)
    then 4 * 1024 * 1024
    else if ltb n (1024 * 1024 * 1024)
    then 16 * 1024 * 1024
    else if ltb n (10 * 1024 * 1024 * 1024)
    then 64 * 1024 * 1024
    else 128 * 1024 * 1024

-- `calculateChunkSize` of the server.
unfoldable pub calculate_chunk_size : ℕ → ℕ
calculate_chunk_size n =
    if ltb n (10 * 1024 * 1024)
    then n
    else if ltb n (100 * 1024 * 1024)
    then 4 * 1024 * 1024
    else if ltb n (1024 * 1024 * 1024)
    then 16 * 1024 * 1024
    else if ltb n (10 * 1024 * 1024 * 1024)
    then 64 * 1024 * 1024
    else 128 * 1024 * 1024

-- int64 sums, as bit patterns: a pattern from 2^63 on is a negative number.
abbrev pub add_int64 : ℕ → ℕ → ℕ
add_int64 a b = (a + b) % 2 ^ 64

abbrev pub sub_int64 : ℕ → ℕ → ℕ
sub_int64 a b = (a + 2 ^ 64 - b) % 2 ^ 64

-- `(size + chunk - 1) / chunk` of int64 values, for a chunk that is positive: a negative sum has a
-- quotient that is not positive, and a loop up to it makes no round.
unfoldable pub rounds_up : ℕ → ℕ → ℕ
rounds_up size chunk =
    let sum = sub_int64 (add_int64 size chunk) 1 in if ltb sum (2 ^ 63) then sum / chunk else 0

unfoldable pub get_chunk_count : ℕ → ℕ
unfolding get_chunk_size rounds_up
get_chunk_count n = let chunk = get_chunk_size n in if chunk == 0 then 0 else rounds_up n chunk

-- The size of the chunk at an offset: `if offset+size > fc.FileSize { size = fc.FileSize - offset }`.
abbrev pub clip : ℕ → ℕ → ℕ → ℕ
clip n chunk offset = if ltb n (offset + chunk) then n - offset else chunk

pub record ChunkInfo : Type 0 where
  pub index : ℕ
  pub size : ℕ
  pub hash : String
  pub offset : ℕ

module _ (sha256 : List ℕ → String) where
  -- The loop of `ChunkFile`: the rounds left, the index, the offset and the unread bytes. A read that
  -- finds fewer bytes fails.
  unfoldable pub chunk_loop : ℕ → ℕ → ℕ → ℕ → ℕ → List ℕ → Option (List ChunkInfo)
  chunk_loop n chunk zero i offset unread = some []
  chunk_loop n chunk (suc left) i offset unread =
      let size = clip n chunk offset in
      let info : ChunkInfo = record {
        index = i;
        size = size;
        hash = sha256 (take size unread);
        offset = offset;
      } in
      let rest = chunk_loop n chunk left (suc i) (offset + size) (drop size unread) in
      if ltb (length unread) size
      then none
      else elim rest [ none ↦ none | some infos ↦ some (info ∷ infos) ]

  unfoldable pub chunk_file : ℕ → List ℕ → Option (List ChunkInfo)
  unfolding chunk_loop get_chunk_size get_chunk_count
  chunk_file n content = chunk_loop n (get_chunk_size n) (get_chunk_count n) 0 0 content

-- `ReadChunk`, for a file that has the size of its stat: what `ReadAt` finds at the offset.
unfoldable pub read_chunk : ℕ → List ℕ → ℕ → List ℕ
unfolding get_chunk_size
read_chunk n content i =
    let chunk = get_chunk_size n in take (clip n chunk (i * chunk)) (drop (i * chunk) content)
