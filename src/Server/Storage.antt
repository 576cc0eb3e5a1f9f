-- ===== src/Server/Storage.antt =====
-- The storage manager, internal/server/storage.go, with its two request handlers in server.go.
-- A method that holds the lock throughout is one step; `ConfirmWrite` starts a goroutine, whose
-- end is a later step, `finish_replication`, in whatever state the server then is.
pub mod Protocol
use constelfs.Prelude.{
  zero, String, Bool, true, false, List, [], ◌∷◌, ◌++◌, map, Option, none, some, Map, lookup,
  insert, remove, values, ℤ, pos, select, str_eq, if◌then◌else◌,
}
use constelfs.Prelude.Text.{concat, decimal, format_int}
use constelfs.Server.State.{
  Time, Node, ChunkInfo, Server, Deletion, WriteRequest, WriteResponse, prepared, refused, save,
  save_chunk, delete_chunk, manager_nodes, Response, error, success, written,
}
use constelfs.Server.Nodes.{Method, post}
use constelfs.Server.Scheduler.{Floats, Sort, select_nodes}

-- `fmt.Sprintf("%s:%d", node.IPAddress, node.Port)`.
abbrev pub node_addr : Node → String
node_addr n = concat (concat n.ip_address ":") (format_int n.port)

-- `if req.Replicas == 0 { req.Replicas = 3 }`.
abbrev pub or_three : ℤ → ℤ
or_three (pos zero) = pos 3
or_three n = n

-- `fmt.Sprintf("%s_chunk_%d", req.FileID, time.Now().UnixNano())`.
unfoldable pub new_chunk_id : String → Time → String
new_chunk_id file_id now = concat (concat file_id "_chunk_") (decimal now)

-- The new chunk's record, with the selected nodes as its replicas.
abbrev pub pending_chunk : Time → WriteRequest → List Node → ChunkInfo
pending_chunk now req nodes = record {
  chunk_id = new_chunk_id req.file_id now;
  file_id = req.file_id;
  index = 0;
  size = req.file_size;
  hash = "";
  replicas = map (λ (n : Node). n.node_id) nodes;
  status = "pending";
  created_at = now;
}

-- `PrepareWrite` behind the selection.
unfoldable pub prepare_on : Server → Time → WriteRequest → List Node → Server × WriteResponse
unfolding save
prepare_on s now req [] = (s, refused "没有可用节点")
prepare_on s now req (n ∷ ns) =
    let chunk = pending_chunk now req (n ∷ ns) in
    let id = chunk.chunk_id in
    (
      save (save_chunk chunk) (record s { chunks = insert id chunk s.chunks }),
      prepared id (id ∷ []) chunk.replicas (map node_addr (n ∷ ns)),
    )

-- A replication that runs in the background: the chunk, its source and its targets.
pub record Task : Type 0 where
  pub chunk_id : String
  pub source : String
  pub targets : List String

-- The result of `ConfirmWrite`: its error, or the goroutine that it starts.
pub data Confirmation : Type 0 where
  unknown_chunk : String → Confirmation
  confirmed : Option Task → Confirmation

abbrev pub replication_of : String → List String → Option Task
replication_of id [] = none
replication_of id (source ∷ []) = none
replication_of id (source ∷ t ∷ ts) =
    if str_eq source ""
    then none
    else some (record { chunk_id = id; source = source; targets = t ∷ ts })

unfoldable pub confirm_write : Server → String → String → Server × Confirmation
unfolding save
confirm_write s id hash = elim (lookup id s.chunks) [
  | none ↦ (s, unknown_chunk (concat "分片不存在: " id))
  | some chunk ↦
      let chunk' = record chunk { status = "success"; hash = hash } in
      (
        save (save_chunk chunk') (record s { chunks = insert id chunk' s.chunks }),
        confirmed (replication_of id chunk.replicas),
      )
]

-- The end of the goroutine: `done` tells whether `ReplicateChunk` returned nil.
unfoldable pub finish_replication : Server → Task → Bool → Server
unfolding save
finish_replication s task true = s
finish_replication s task false = elim (lookup task.chunk_id s.chunks) [
  | none ↦ s
  | some chunk ↦
      let chunk' = record chunk { status = "degraded" } in
      save (save_chunk chunk') (record s { chunks = insert task.chunk_id chunk' s.chunks })
]

unfoldable pub get_chunk_status : Server → String → Option ChunkInfo
get_chunk_status s id = lookup id s.chunks

unfoldable pub get_chunks_by_file_id : Server → String → List ChunkInfo
get_chunks_by_file_id s file_id =
    select (λ (c : ChunkInfo). str_eq c.file_id file_id) (values s.chunks)

-- The DELETE requests of `DeleteChunk`: a replica whose node is not known is passed over.
-- The requests are those for which http.NewRequest takes the URL; the panic of `client.Do(nil)` otherwise is not modelled.
unfoldable pub deletions_for : Map Node → String → List String → List Deletion
deletions_for nodes id [] = []
deletions_for nodes id (r ∷ rs) =
    let rest = deletions_for nodes id rs in
    elim (lookup r nodes) [
      | none ↦ rest
      | some n ↦ record { ip_address = n.ip_address; port = n.port; chunk_id = id } ∷ rest
    ]

-- `DeleteChunk`; the Bool tells that it returned nil.
unfoldable pub remove_chunk : Server → String → Server × Bool
unfolding save manager_nodes deletions_for
remove_chunk s id = elim (lookup id s.chunks) [
  | none ↦ (s, false)
  | some chunk ↦
      let t = save (delete_chunk id) (record s { chunks = remove id s.chunks }) in
      (
        record t { deletions = t.deletions ++ deletions_for (manager_nodes s) id chunk.replicas },
        true,
      )
]

module _ (f : Floats) (sort : Sort) where
  unfoldable pub prepare_write : Server → Map Node → Time → WriteRequest → Server × WriteResponse
  unfolding prepare_on
  prepare_write s nodes now req =
      let n = or_three req.replicas in
      prepare_on s now (record req { replicas = n }) (select_nodes f sort nodes n [])

  -- `handleWrite`, whose default for the replicas is `PrepareWrite`'s too.
  unfoldable pub handle_write : Server → Time → Method → Option WriteRequest → Server × Response
  unfolding prepare_write
  handle_write s now post none = (s, error 400 "Invalid request")
  handle_write s now post (some req) =
      let (t, resp) =
        prepare_write s s.nodes now (record req { replicas = or_three req.replicas }) in
      (t, written resp)
  handle_write s now _ req = (s, error 405 "Method not allowed")

pub record ConfirmRequest : Type 0 where
  pub chunk_id : String
  pub hash : String

abbrev pub confirm_reply : Confirmation → Response
confirm_reply (unknown_chunk e) = error 400 e
confirm_reply (confirmed task) = success

-- `handleConfirmWrite`, with the goroutine that it leaves running.
unfoldable pub handle_confirm_write :
    Server → Method → Option ConfirmRequest → Server × Response × Option Confirmation
unfolding confirm_write
handle_confirm_write s post none = (s, error 400 "Invalid request", none)
handle_confirm_write s post (some req) =
    let (t, c) = confirm_write s req.chunk_id req.hash in (t, confirm_reply c, some c)
handle_confirm_write s _ req = (s, error 405 "Method not allowed", none)
