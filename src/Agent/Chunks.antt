-- ===== src/Agent/Chunks.antt =====
-- The chunk store of a node, internal/node/chunk_handler.go. Which system calls fail is a parameter of each request, a
-- path whose directory is missing included, and so are SHA-256 and the storage path; `Agent.Chunks.Places` tells which
-- file an id names.
pub mod Places
pub mod Contents
pub mod Fanout
use constelfs.Prelude.{
  ℕ, zero, suc, String, Bool, true, false, List, [], ◌∷◌, Option, none, some, length, str_eq, ltb,
  if◌then◌else◌, ◌==◌, not, ◌&&◌,
}
use constelfs.Prelude.Text.{concat, trim_prefix}
use Places.{Disk, join, file_at, put_at, drop_at}
use constelfs.Server.Nodes.{Method, get, post, put, delete}
use constelfs.Server.Content.{Sent, not_sent, answered}

-- What the agent writes to the client.
pub data Reply : Type 0 where
  error : ℕ → String → Reply
  saved : String → ℕ → Reply
  data_of : String → List ℕ → Reply
  deleted : Reply
  replicated : Bool → ℕ → ℕ → Reply

-- Which calls of a request fail, a file that is missing apart.
pub record Faults : Type 0 where
  pub write_fails : Bool
  pub rename_fails : Bool
  pub read_fails : Bool
  pub remove_fails : Bool
  pub is_directory : Bool

-- Where no file stands under the path: a directory that is not empty, if `is_directory`, gives an error of its own.
abbrev pub missing : Faults → String → Reply
missing faults text = if faults.is_directory then error 500 text else error 404 "Chunk not found"

abbrev pub temp_name : String → String
temp_name id = concat id ".tmp"

module _ (sha256 : List ℕ → String) (root : List String) where
  -- `handleUpload`: `body` is `none` where reading it fails. A write that fails may leave a file of its
  -- own in `temp`, which no request reads.
  unfoldable pub handle_upload : Faults → Disk → String → Option (List ℕ) → Disk × Reply
  handle_upload faults d id none =
      (d, if str_eq id "" then error 400 "Missing chunk_id" else error 500 "Read body failed")
  handle_upload faults d id (some bytes) =
      if str_eq id ""
      then (d, error 400 "Missing chunk_id")
      else if faults.write_fails
      then (d, error 500 "Write file failed")
      else if faults.rename_fails
      then (put_at (join root "temp" (temp_name id)) bytes d, error 500 "Move file failed")
      else (
        put_at (join root "chunks" id) bytes (drop_at (join root "temp" (temp_name id)) d),
        saved (sha256 bytes) (length bytes),
      )

  unfoldable pub handle_download : Faults → Disk → String → Reply
  handle_download faults d id =
      if str_eq id ""
      then error 400 "Missing chunk_id"
      else elim (file_at d (join root "chunks" id)) [
        | none ↦ missing faults "Read file failed"
        | some bytes ↦
            if faults.read_fails then error 500 "Read file failed" else data_of (sha256 bytes) bytes
      ]

  unfoldable pub handle_delete : Faults → Disk → String → Disk × Reply
  handle_delete faults d id =
      if str_eq id ""
      then (d, error 400 "Missing chunk_id")
      else elim (file_at d (join root "chunks" id)) [
        | none ↦ (d, missing faults "Delete file failed")
        | some bytes ↦
            if faults.remove_fails
            then (d, error 500 "Delete file failed")
            else (drop_at (join root "chunks" id) d, deleted)
      ]

  abbrev pub by_method : Faults → Disk → Method → String → Option (List ℕ) → Disk × Reply
  by_method faults d get id body = (d, handle_download faults d id)
  by_method faults d put id body = handle_upload faults d id body
  by_method faults d delete id body = handle_delete faults d id
  by_method faults d _ id body = (d, error 405 "Method not allowed")

  -- `HandleChunkByPath`; `query` is the `chunk_id` of the old routes.
  unfoldable pub handle_chunk :
      Faults → Disk → Method → String → String → Option (List ℕ) → Disk × Reply
  unfolding handle_upload handle_download handle_delete
  handle_chunk faults d m url query body =
      let path = trim_prefix url "/api/v1/chunks/" in
      if str_eq path "upload"
      then handle_upload faults d query body
      else if str_eq path "download"
      then (d, handle_download faults d query)
      else if str_eq path "delete"
      then handle_delete faults d query
      else if not (str_eq path "") && not (str_eq path "/")
      then by_method faults d m path body
      else (d, error 400 "Missing chunk_id")

-- One attempt of `sendChunkToNode`.
abbrev pub accepted : Sent → Bool
accepted not_sent = false
accepted (answered code) = code == 200

-- The rounds that are left, and the number of the next: whether one succeeds.
unfoldable pub send_loop : (ℕ → Sent) → ℕ → ℕ → Bool
send_loop send zero retry = false
send_loop send (suc left) retry =
    if accepted (send retry) then true else send_loop send left (suc retry)

unfoldable pub send_chunk_to_node : (ℕ → Sent) → Bool
unfolding send_loop
send_chunk_to_node send = send_loop send 3 0

-- The counter that the goroutines of `HandleReplicate` share, when all have ended.
unfoldable pub count_sent : (String → ℕ → Sent) → List String → ℕ
unfolding send_chunk_to_node
count_sent send [] = 0
count_sent send (addr ∷ addrs) =
    let rest = count_sent send addrs in if send_chunk_to_node (send addr) then suc rest else rest

pub record ReplicateRequest : Type 0 where
  pub chunk_id : String
  pub target_nodes : List String

-- `HandleReplicate`; `send addr` gives what the node at the address answers at each attempt.
unfoldable pub handle_replicate :
    List String
    → (String → List ℕ → String → ℕ → Sent)
    → Faults
    → Disk
    → Method
    → Option ReplicateRequest
    → Reply
unfolding count_sent
handle_replicate root send faults d post none = error 400 "Invalid request"
handle_replicate root send faults d post (some req) =
    elim (file_at d (join root "chunks" req.chunk_id)) [
      | none ↦ error 500 "Read chunk failed"
      | some bytes ↦
          let n = count_sent (send req.chunk_id bytes) req.target_nodes in
          if faults.read_fails
          then error 500 "Read chunk failed"
          else replicated (ltb 0 n) n (length req.target_nodes)
    ]
handle_replicate root send faults d _ req = error 405 "Method not allowed"
