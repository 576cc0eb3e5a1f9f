-- ===== src/Server/Storage/Protocol.antt =====
-- The two phases of a write and the replication behind them (`PrepareWrite` and `ConfirmWrite` of
-- internal/server/storage.go).
use constelfs.Prelude.{
  [], String, Bool, true, false, List, ◌∷◌, map, some, none, Option, ap, ◌∙◌, lookup, ◌≡◌, refl,
  arith, str_eq, eq_iff, if◌then◌else◌, lookup-insert, lookup-insert_self, insert,
}
use constelfs.Server.State.{Time, Node, ChunkInfo, Server, WriteRequest, save, Write}
use constelfs.Server.Storage.{
  new_chunk_id, pending_chunk, prepare_on, confirm_write, confirmed, replication_of, Task,
  finish_replication, prepared, node_addr,
}

-- The chunk as the write leaves it: `done` tells whether its replication succeeded.
pub written_chunk : Time → WriteRequest → List Node → String → Bool → ChunkInfo
written_chunk now req nodes hash done = record (pending_chunk now req nodes) {
  status = if done then "success" else "degraded";
  hash = hash;
}

pub chunks_of_save : (w : Write) (s : Server) → (save w s).chunks ≡ s.chunks
unfolding save
chunks_of_save w s = ground arith

pub confirm_write_known :
    (s : Server) (id hash : String) (c : ChunkInfo)
    → lookup id s.chunks ≡ some c
    → let r = confirm_write s id hash in
      (r.1 ≡ confirmed (replication_of id c.replicas))
      × ((j : String)
          → lookup j r.0.chunks ≡ (
              if str_eq id j
              then some (record c { status = "success"; hash = hash })
              else lookup j s.chunks))
unfolding confirm_write
confirm_write_known s id hash c e =
    rw (e, confirm_write) (refl, λ j. rw chunks_of_save (lookup-insert id j _ s.chunks))

finish_replication_known :
    (s : Server) (task : Task) (done : Bool) (c : ChunkInfo)
    → lookup task.chunk_id s.chunks ≡ some c
    → (j : String)
    → lookup j (finish_replication s task done).chunks ≡ (
        if str_eq task.chunk_id j
        then some (record c { status = if done then c.status else "degraded" })
        else lookup j s.chunks)
unfolding finish_replication
finish_replication_known s task true c e j = ground (arith, e, eq_iff task.chunk_id j)
finish_replication_known s task false c e j =
    rw (e, finish_replication) (rw chunks_of_save (lookup-insert task.chunk_id j _ s.chunks))

pub prepare_on_lem :
    (s : Server) (now : Time) (req : WriteRequest) (n : Node) (ns : List Node)
    → (prepare_on s now req (n ∷ ns)).0.chunks
      ≡ insert (new_chunk_id req.file_id now) (pending_chunk now req (n ∷ ns)) s.chunks
unfolding prepare_on
prepare_on_lem s now req n ns = chunks_of_save _ _

pub prepared_lem :
    (s : Server) (now : Time) (req : WriteRequest) (n : Node) (ns : List Node)
    → let id = new_chunk_id req.file_id now in
      (prepare_on s now req (n ∷ ns)).1
      ≡ prepared id (id ∷ []) (map (λ (m : Node). m.node_id) (n ∷ ns)) (map node_addr (n ∷ ns))
unfolding prepare_on
prepared_lem s now req n ns = refl

-- What is replicated after a write to these nodes: from the first to the others, if the first has an id.
abbrev pub task_for : String → Node → List Node → Option Task
task_for id n [] = none
task_for id n (m ∷ ms) =
    if str_eq n.node_id ""
    then none
    else some (record {
      chunk_id = id;
      source = n.node_id;
      targets = map (λ (k : Node). k.node_id) (m ∷ ms);
    })

replication_of_lem :
    (id : String) (n : Node) (ns : List Node)
    → replication_of id (map (λ (m : Node). m.node_id) (n ∷ ns)) ≡ task_for id n ns
replication_of_lem id n [] = refl
replication_of_lem id n (m ∷ ms) = refl

-- On at least one selected node, a write whose client confirms the chunk id that it was given is confirmed,
-- starts the replication from the first node to the others, if there are any and the first has an id, and
-- leaves the chunk with the selected nodes and the client's hash. Its status is success, or degraded if the
-- replication fails. Every other chunk stays as it was.
pub write_lem :
    (s : Server) (now : Time) (req : WriteRequest) (n : Node) (ns : List Node) (hash : String)
    (source : String) (targets : List String) (done : Bool)
    → let id = new_chunk_id req.file_id now in
      let ids = map (λ (m : Node). m.node_id) (n ∷ ns) in
      let (t, c) = confirm_write (prepare_on s now req (n ∷ ns)).0 id hash in
      let task : Task = record { chunk_id = id; source = source; targets = targets } in
      ((prepare_on s now req (n ∷ ns)).1 ≡ prepared id (id ∷ []) ids (map node_addr (n ∷ ns)))
      × (c ≡ confirmed (task_for id n ns))
      × ((j : String)
          → lookup j (finish_replication t task done).chunks ≡ (
              if str_eq id j
              then some (written_chunk now req (n ∷ ns) hash done)
              else lookup j s.chunks))
unfolding written_chunk
write_lem s now req n ns hash source targets done =
    let id = new_chunk_id req.file_id now in
    let chunk = pending_chunk now req (n ∷ ns) in
    let p = (prepare_on s now req (n ∷ ns)).0 in
    let task : Task = record { chunk_id = id; source = source; targets = targets } in
    let known : lookup id p.chunks ≡ some chunk =
      rw (prepare_on_lem s now req n ns) (lookup-insert_self id chunk s.chunks) in
    let c = confirm_write_known p id hash chunk known in
    let t = (confirm_write p id hash).0 in
    let here : lookup id t.chunks ≡ some (record chunk { status = "success"; hash = hash }) =
      ground (arith, c.1 id, eq_iff id id) in
    (
      prepared_lem s now req n ns,
      c.0 ∙ ap confirmed (replication_of_lem id n ns),
      λ j. ground (
        arith,
        finish_replication_known t task done _ here j,
        c.1 j,
        prepare_on_lem s now req n ns,
        lookup-insert id j chunk s.chunks,
      ),
    )
