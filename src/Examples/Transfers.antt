-- ===== src/Examples/Transfers.antt =====
-- The theorems on transfers and on the two phases of a write, applied.
use constelfs.Prelude.{
  ℕ, ◌<◌, zero, suc, String, true, false, List, [], ◌∷◌, map, some, pos, ◌≡◌, ◌≢◌, ◌↔◌, lookup,
  str_eq, if◌then◌else◌,
}
use constelfs.Server.State.{Node, WriteRequest, prepared}
use constelfs.Server.Storage.{
  Task, confirmed, confirm_write, finish_replication, new_chunk_id, prepare_on, node_addr,
}
use constelfs.Server.Storage.Protocol.{written_chunk, task_for, write_lem}
use constelfs.Server.Transfer.{
  Network, no_response, response, Posted, not_sent, answered, found, replicated,
  download_chunk_with_fallback, replicate_chunk,
}
use constelfs.Server.Transfer.Success.{
  FirstOf, IsSuccess, known_addrs, download_chunk_with_fallback_iff, replicate_chunk_iff,
}
use constelfs.Examples.Data.{three_nodes, node_a, node_b, full_server}

-- The node `a` is down.
abbrev a_down : Network
a_down n chunk_id = if str_eq n.node_id "a" then no_response else response 200 (some (1 ∷ 2 ∷ []))

abbrev replicas : List String
replicas = "a" ∷ "b" ∷ []

download_chunk_with_fallback_iff_example :
    (download_chunk_with_fallback a_down three_nodes "x" replicas ≡ found (1 ∷ 2 ∷ []) "b")
    ↔ FirstOf a_down three_nodes "x" replicas (1 ∷ 2 ∷ []) "b"
download_chunk_with_fallback_iff_example =
    download_chunk_with_fallback_iff a_down three_nodes "x" replicas (1 ∷ 2 ∷ []) "b"

-- The source answers in the second round.
abbrev second_round : Node → String → List String → ℕ → Posted
second_round n chunk_id addrs zero = not_sent
second_round n chunk_id addrs (suc k) =
    answered 200 (some (record { success = true; success_count = 1; total_count = 1 }))

replicate_chunk_iff_example :
    (replicate_chunk second_round three_nodes "x" "a" ("b" ∷ []) ≡ replicated) ↔ (
      (n : Node) × (lookup "a" three_nodes ≡ some n)
      × (known_addrs three_nodes ("b" ∷ []) ≢ [])
      × ((k : ℕ) × (k < 3) × IsSuccess (second_round n "x" (known_addrs three_nodes ("b" ∷ [])) k)))
replicate_chunk_iff_example = replicate_chunk_iff second_round three_nodes "x" "a" ("b" ∷ [])

abbrev request : WriteRequest
request = record { file_id = "f"; file_name = "notes"; file_size = pos 3; replicas = pos 2 }

write_lem_example :
    let id = new_chunk_id "f" 7000 in
    let ids : List String = "b" ∷ "a" ∷ [] in
    let (t, c) =
      confirm_write (prepare_on full_server 7000 request (node_b ∷ node_a ∷ [])).0 id "h" in
    let task : Task = record { chunk_id = id; source = "b"; targets = "a" ∷ [] } in
    ((prepare_on full_server 7000 request (node_b ∷ node_a ∷ [])).1
      ≡ prepared id (id ∷ []) ids (map node_addr (node_b ∷ node_a ∷ [])))
    × (c ≡ confirmed (task_for id node_b (node_a ∷ [])))
    × ((j : String)
        → lookup j (finish_replication t task false).chunks ≡ (
            if str_eq id j
            then some (written_chunk 7000 request (node_b ∷ node_a ∷ []) "h" false)
            else lookup j full_server.chunks))
write_lem_example = write_lem full_server 7000 request node_b (node_a ∷ []) "h" "b" ("a" ∷ []) false
