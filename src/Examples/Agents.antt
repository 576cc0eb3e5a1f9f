-- ===== src/Examples/Agents.antt =====
-- The theorems on the chunk store of a node, applied.
use constelfs.Prelude.{
  zero, suc, true, ◌↔◌, refl, length, str_eq, if◌then◌else◌, ℕ, String, false, List, [], ◌∷◌, some,
  ◌≡◌, lookup,
}
use constelfs.Prelude.Text.{split, trim_prefix}
use constelfs.Prelude.Text.Names.{has_char}
use constelfs.Server.Content.{Sent, not_sent, answered}
use constelfs.Server.Nodes.{post, Method, put, delete}
use constelfs.Agent.Chunks.Places.{Disk, join, clean, place_of}
use constelfs.Agent.Chunks.{ReplicateRequest, handle_replicate, replicated, Faults}
use constelfs.Agent.Chunks.Fanout.{AnyOf, IsReached, handle_replicate_iff}
use constelfs.Agent.Chunks.Contents.{Call, chunk_of, serve, told_all, serve-told_all}

abbrev no_hash : List ℕ → String
no_hash bytes = ""

abbrev no_faults : Faults
no_faults = record {
  write_fails = false;
  rename_fails = false;
  read_fails = false;
  remove_fails = false;
  is_directory = false;
}

abbrev root : List String
root = "data" ∷ []

abbrev empty_disk : Disk
empty_disk = record { temp = []; others = []; chunks = [] }

abbrev call : Method → String → List ℕ → Call
call m url bytes = record {
  faults = no_faults;
  method = m;
  url = url;
  query = "x";
  body = some bytes;
}

-- Two chunks are put, one by each route, and one is deleted.
abbrev calls : List Call
calls =
    call put "/api/v1/chunks/upload" (1 ∷ [])
    ∷ call put "/api/v1/chunks/y" (2 ∷ [])
    ∷ call delete "/api/v1/chunks/x" []
    ∷ []

serve-told_all_example :
    lookup "y" (serve no_hash root empty_disk calls).chunks
    ≡ told_all no_hash root "y" empty_disk calls (lookup "y" empty_disk.chunks)
unfolding chunk_of has_char trim_prefix
serve-told_all_example = serve-told_all no_hash root empty_disk calls "y" (refl, (refl, (refl, tt)))

-- The node at the second address takes the chunk at the second attempt.
abbrev b_takes : String → List ℕ → String → ℕ → Sent
b_takes id bytes addr zero = not_sent
b_takes id bytes addr (suc k) = if str_eq addr "10.0.0.2:9000" then answered 200 else not_sent

abbrev disk_with_x : Disk
disk_with_x = record { temp = []; others = []; chunks = ("x", 1 ∷ []) ∷ [] }

abbrev to_both : ReplicateRequest
to_both = record { chunk_id = "x"; target_nodes = "10.0.0.1:9000" ∷ "10.0.0.2:9000" ∷ [] }

handle_replicate_iff_example :
    ((n : ℕ) × (handle_replicate root b_takes no_faults disk_with_x post (some to_both)
        ≡ replicated true n (length to_both.target_nodes)))
    ↔ AnyOf (λ addr. IsReached (b_takes "x" (1 ∷ []) addr)) to_both.target_nodes
unfolding lookup join clean place_of split
handle_replicate_iff_example =
    handle_replicate_iff root b_takes no_faults disk_with_x to_both (1 ∷ []) refl refl
