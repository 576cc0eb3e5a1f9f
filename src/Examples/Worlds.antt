-- ===== src/Examples/Worlds.antt =====
-- The theorem on an upload by the client against the server and its nodes, applied: three bytes in chunks of
-- two, to nodes that are agents without faults.
use constelfs.Prelude.{true, ◌+◌, String, false, [], ◌∷◌, none, pos, inr, lookup, ◌≡◌, refl, arith}
use constelfs.Prelude.Text.{concat, decimal}
use constelfs.Prelude.Sort.{insertion_sort, insertion_sort-IsSort}
use constelfs.Prelude.Text.Urls.{is_plain}
use constelfs.Server.State.{content}
use constelfs.Server.Downloads.{download_file}
use constelfs.Server.Files.{versions_of}
use constelfs.Agent.Chunks.Places.{Disk}
use constelfs.Agent.Cluster.{agents-IsNetwork, agents-IsApart}
use constelfs.Examples.Nodes.{no_hash, root, clear_only, clear_only-IsParser, put_all, get_all}
use constelfs.Prelude.{Map}
use constelfs.Client.Requests.{LocalFile, ChunkUploader, UploadResult, opened}
use constelfs.Client.Uploader.{upload}
use constelfs.Client.World.{World, calls, served}
use constelfs.Client.World.Stored.{client_upload-download}
use constelfs.Examples.Data.{full_server, node_a, node_b}
use constelfs.Examples.Placement.{numbers}
use constelfs.Examples.Transmissions.{unary}
use constelfs.Examples.Uploads.{three_nodes-IsRegistry}

abbrev memo : LocalFile
memo = record {
  base = "memo";
  path = "/home/memo";
  size = 3;
  mod_time = 7;
  content = 10 ∷ 20 ∷ 30 ∷ [];
  unreadable = λ i. false;
}

abbrev plain : ChunkUploader
plain = record { chunk_size = 2; encrypt = false }

abbrev first : World (Map Disk)
first = record { server = full_server; nodes = []; made = 0 }

abbrev memo_id : String
memo_id = concat (concat "memo" "_") (decimal 7)

new_file : (lookup memo_id full_server.files ≡ none) × (versions_of full_server memo_id ≡ [])
unfolding lookup decimal
new_file = (refl, refl)

memo_id-plain : is_plain memo_id ≡ true
unfolding is_plain decimal
memo_id-plain = refl

client_upload-download_example :
    let send = put_all in
    let (cs, result) =
      upload
        (served numbers insertion_sort insertion_sort send (λ i. 5001 + i) first)
        unary
        no_hash
        plain
        (opened memo)
        none
        (λ i. none)
        (pos 2) in
    let v = calls numbers insertion_sort insertion_sort send (λ i. 5001 + i) first cs in
    (r : UploadResult) × (result ≡ inr r)
    × (r.file_id ≡ memo_id)
    × (download_file (get_all v.nodes) v.server memo_id (pos 0) ≡ content "memo" memo.content)
client_upload-download_example =
    client_upload-download numbers insertion_sort insertion_sort put_all (λ i. 5001 + i) get_all
      first unary no_hash plain memo insertion_sort-IsSort
      (agents-IsNetwork no_hash root clear_only clear_only-IsParser)
      (agents-IsApart no_hash root clear_only clear_only-IsParser) (λ i j e. omega (arith, e)) 1
      none (λ i. none) node_a (node_b ∷ []) refl three_nodes-IsRegistry refl new_file.0 new_file.1
      memo_id-plain refl (omega arith) (omega arith) refl (omega arith) (λ i. refl)
