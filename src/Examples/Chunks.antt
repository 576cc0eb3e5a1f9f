-- ===== src/Examples/Chunks.antt =====
-- The theorems on the chunks of files, applied.
use constelfs.Prelude.{ℕ, ◌*◌, ◌<◌, ◌≤◌, ◌≡◌, refl, String, List, [], ◌∷◌, some, arith}
use constelfs.Client.Chunker.{get_chunk_size, get_chunk_count, chunk_file}
use constelfs.Client.Chunker.Pieces.{get_chunk_count_bounds, assembled, read_chunk-assembles}
use constelfs.Client.Chunker.Described.{described_from, chunk_file_lem}

-- Twelve mebibytes: three chunks of four.
get_chunk_count_bounds_example :
    (12582912 ≤ get_chunk_count 12582912 * get_chunk_size 12582912)
    × ((k : ℕ) → k < get_chunk_count 12582912 → k * get_chunk_size 12582912 < 12582912)
get_chunk_count_bounds_example = get_chunk_count_bounds 12582912 (omega arith)

abbrev three_bytes : List ℕ
three_bytes = 10 ∷ 20 ∷ 30 ∷ []

read_chunk-assembles_example : assembled 3 three_bytes (get_chunk_count 3) ≡ three_bytes
read_chunk-assembles_example = read_chunk-assembles 3 three_bytes (omega arith) refl

abbrev no_hash : List ℕ → String
no_hash bytes = ""

chunk_file_lem_example :
    chunk_file no_hash 3 three_bytes
    ≡ some (described_from no_hash 3 three_bytes 0 (get_chunk_count 3))
chunk_file_lem_example = chunk_file_lem no_hash 3 three_bytes (omega arith) refl
