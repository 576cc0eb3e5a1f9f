-- ===== src/Examples/Uploads.antt =====
-- The theorems on uploads of files and on the agents that take their chunks, applied.
use constelfs.Prelude.{
  ◌+◌, ◌&&◌, arith, eq_iff, length, pos, some, ℕ, String, false, List, [], ◌∷◌, none, ◌≡◌, refl,
  lookup, str_eq, if◌then◌else◌,
}
use constelfs.Prelude.Sort.{insertion_sort, insertion_sort-IsSort}
use constelfs.Prelude.Text.{concat, decimal}
use constelfs.Prelude.Text.Names.{has_char}
use constelfs.Prelude.Text.Urls.{is_plain}
use constelfs.Server.State.{FileVersion, uploaded, content, manager_nodes}
use constelfs.Server.Storage.{node_addr}
use constelfs.Server.Transfer.{Network, no_response, response}
use constelfs.Server.Downloads.{download_file}
use constelfs.Server.Content.{answered, received, upload_file}
use constelfs.Server.Files.{versions_of}
use constelfs.Server.Content.Roundtrip.{upload_file-download}
use constelfs.Agent.Cluster.{agents-IsNetwork, get_chunk-put_chunk}
use constelfs.Examples.Nodes.{no_hash, root, clear_only, clear_only-IsParser, put_all, get_all}
use constelfs.Server.Scheduler.Known.{IsRegistry}
use constelfs.Examples.Data.{node_a, node_b, full_server, three_nodes}
use constelfs.Examples.Placement.{numbers}

abbrev body : List ℕ
body = 10 ∷ 20 ∷ 30 ∷ []

pub three_nodes-IsRegistry : IsRegistry three_nodes
unfolding lookup
three_nodes-IsRegistry = record {
  distinct = (refl, (refl, (refl, tt)));
  keyed = λ k n e. ground (arith, e, eq_iff "a" k, eq_iff "b" k, eq_iff "c" k);
}

abbrev text : String
text = concat (concat "notes" "_") (decimal 5000)

absent : (lookup text full_server.files ≡ none) × (versions_of full_server text ≡ [])
unfolding lookup decimal
absent = (refl, refl)

upload_file-download_example :
    let (t, disks, resp, tasks) =
      upload_file numbers insertion_sort no_hash put_all insertion_sort 5000 6000
        (λ i. 5001 + i)
        (λ i. false)
        ""
        (received "notes" "" body)
        full_server
        [] in
    (v : FileVersion) × (resp ≡ uploaded text "notes" (pos 3) (length v.chunk_ids) v)
    × (v.hash ≡ "")
    × (download_file (get_all disks) t text (pos 0) ≡ content "notes" body)
unfolding manager_nodes is_plain
upload_file-download_example =
    upload_file-download numbers insertion_sort no_hash put_all insertion_sort get_all
      insertion_sort-IsSort (agents-IsNetwork no_hash root clear_only clear_only-IsParser) 5000 6000
      (λ i. 5001 + i) (λ i. false) "" "notes" "" body full_server [] node_a (node_b ∷ []) refl
      (λ i j e. omega (arith, e)) (λ i. refl) three_nodes-IsRegistry refl absent.0 absent.1
      (omega arith) (omega arith)

get_chunk-put_chunk_example :
    let (after, sent) = put_all [] (node_addr node_a) "f_chunk_7" body in
    (sent ≡ answered 200)
    × (get_all after node_b "f_chunk_7" ≡ (
        if str_eq (node_addr node_a) (node_addr node_b) && str_eq "f_chunk_7" "f_chunk_7"
        then response 200 (some body)
        else get_all [] node_b "f_chunk_7"))
unfolding has_char is_plain
get_chunk-put_chunk_example =
    get_chunk-put_chunk no_hash root clear_only clear_only-IsParser [] (node_addr node_a)
      "f_chunk_7" body node_b "f_chunk_7" refl refl

-- No node answers.
abbrev no_network : Network
no_network n id = no_response
