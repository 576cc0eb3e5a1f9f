-- ===== src/Server/Transfer.antt =====
-- How chunks travel between the server and the nodes: internal/server/download_manager.go,
-- replication.go and fault_tolerance.go. What the network answers is a parameter.
pub mod Success
use constelfs.Prelude.{
  ℕ, zero, suc, String, Bool, List, [], ◌∷◌, Option, none, some, Map, lookup, ℤ, if◌then◌else◌,
  ◌==◌,
}
use constelfs.Server.State.{Node}
use constelfs.Server.Storage.{node_addr}

-- What a GET of a chunk gives: no response, or a status and the body, `none` if reading it fails.
pub data Fetched : Type 0 where
  no_response : Fetched
  response : ℕ → Option (List ℕ) → Fetched

pub data DownloadError : Type 0 where
  unknown_node : String → DownloadError
  request_failed : DownloadError
  bad_status : ℕ → DownloadError
  read_failed : DownloadError

pub data Download : Type 0 where
  data_of : List ℕ → Download
  failed : DownloadError → Download

abbrev pub Network : Type 0
Network = Node → String → Fetched

abbrev read_body : Option (List ℕ) → Download
read_body none = failed read_failed
read_body (some bytes) = data_of bytes

abbrev check_status : Fetched → Download
check_status no_response = failed request_failed
check_status (response code body) = if code == 200 then read_body body else failed (bad_status code)

unfoldable pub download_chunk : Network → Map Node → String → String → Download
download_chunk net nodes chunk_id node_id = elim (lookup node_id nodes) [
  | none ↦ failed (unknown_node node_id)
  | some node ↦ check_status (net node chunk_id)
]

-- `DownloadChunkWithFallback`: the data with the node that gave it, or the last error, which is
-- nil if there is no node at all.
pub data Fallback : Type 0 where
  found : List ℕ → String → Fallback
  all_failed : Option DownloadError → Fallback

unfoldable pub fallback_loop :
    Network → Map Node → String → Option DownloadError → List String → Fallback
fallback_loop net nodes chunk_id last [] = all_failed last
fallback_loop net nodes chunk_id last (id ∷ ids) = elim (download_chunk net nodes chunk_id id) [
  | data_of bytes ↦ found bytes id
  | failed e ↦ fallback_loop net nodes chunk_id (some e) ids
]

unfoldable pub download_chunk_with_fallback : Network → Map Node → String → List String → Fallback
unfolding fallback_loop
download_chunk_with_fallback net nodes chunk_id ids = fallback_loop net nodes chunk_id none ids

-- `getNodeAddress`.
unfoldable pub get_node_address : Map Node → String → Option (String × ℤ)
get_node_address nodes id = elim (lookup id nodes) [
  | none ↦ none
  | some n ↦ some (n.ip_address, n.port)
]

-- The fields of a node's answer to a replication request.
pub record Answer : Type 0 where
  pub success : Bool
  pub success_count : ℕ
  pub total_count : ℕ

-- What the http client gives: an error, or the status code and what decoding the body gives.
pub data Posted : Type 0 where
  not_sent : Posted
  answered : ℕ → Option Answer → Posted

pub data PostError : Type 0 where
  send_failed : PostError
  returned : ℕ → PostError
  unreadable : PostError
  incomplete : ℕ → ℕ → PostError

abbrev pub judge_body : Option Answer → Option PostError
judge_body none = some unreadable
judge_body (some result) =
    if result.success then none else some (incomplete result.success_count result.total_count)

-- One round of the loop: nil, or `lastErr`.
abbrev pub judge : Posted → Option PostError
judge not_sent = some send_failed
judge (answered code body) = if code == 200 then judge_body body else some (returned code)

pub data Replication : Type 0 where
  replicated : Replication
  no_source : String → Replication
  no_targets : Replication
  gave_up : Option PostError → Replication

-- The rounds that are left, and the number of the next. `post` is the answer of each round.
unfoldable pub replicate_loop : (ℕ → Posted) → Option PostError → ℕ → ℕ → Replication
replicate_loop post last zero retry = gave_up last
replicate_loop post last (suc left) retry = elim (judge (post retry)) [
  | none ↦ replicated
  | some e ↦ replicate_loop post (some e) left (suc retry)
]

-- The addresses of the targets that are known.
unfoldable pub target_addrs : Map Node → List String → List String
target_addrs nodes [] = []
target_addrs nodes (id ∷ ids) =
    let rest = target_addrs nodes ids in
    elim (lookup id nodes) [ none ↦ rest | some n ↦ node_addr n ∷ rest ]

abbrev pub to_targets : (ℕ → Posted) → List String → Replication
to_targets post [] = no_targets
to_targets post (addr ∷ addrs) = replicate_loop post none 3 0

-- `post addrs` is what the source answers to a request that names the target addresses.
unfoldable pub replicate_chunk :
    (Node → String → List String → ℕ → Posted)
    → Map Node
    → String
    → String
    → List String
    → Replication
unfolding replicate_loop target_addrs
replicate_chunk post nodes chunk_id source targets = elim (lookup source nodes) [
  | none ↦ no_source source
  | some n ↦ let addrs = target_addrs nodes targets in to_targets (post n chunk_id addrs) addrs
]
