-- ===== src/Server/Content/Delivery.antt =====
-- One chunk of an upload (`uploadFile` of internal/server/file_manager.go): after its round the chunk can be
-- read through the server.
use constelfs.Prelude.{
  ℕ, String, true, List, [], ◌∷◌, map, ◌&&◌, Option, some, lookup, ◌≡◌, ◌≢◌, refl, ◌∙◌, arith, ℤ,
  pos, length, Map, eq_iff, lookup-insert, lookup-insert_self,
}
use constelfs.Prelude.Text.{concat, decimal}
use constelfs.Prelude.Text.Names.{has_char, has_char-concat, has_char-differs}
use constelfs.Prelude.Text.Urls.{
  is_url, is_plain, is_clear, is_plain-no_slash, is_clear-is_url, is_plain-is_clear,
  is_plain-concat, decimal-is_plain,
}
use constelfs.Agent.Chunks.Places.{is_name}
use constelfs.Server.State.{Time, Node, ChunkInfo, Server, WriteRequest, Write, save, manager_nodes}
use constelfs.Server.Scheduler.{Floats, Sort, select_nodes}
use constelfs.Server.Scheduler.Known.{IsKnown}
use constelfs.Server.Storage.{
  node_addr, or_three, new_chunk_id, pending_chunk, prepare_on, prepare_write, confirm_write, Task,
  unknown_chunk, Confirmation, confirmed,
}
use constelfs.Server.Storage.Protocol.{confirm_write_known, prepare_on_lem}
use constelfs.Server.Transfer.{
  Network, response, data_of, download_chunk, fallback_loop, download_chunk_with_fallback,
}
use constelfs.Server.Downloads.{download_from_node}
use constelfs.Server.Content.{
  Send, answered, upload_to_node, send_chunk, after_confirm, upload_chunk, Upload, stored, started,
}

-- The names of chunks: `PrepareWrite` makes them with an underscore, and of an id that stands for itself in a URL.
abbrev pub IsChunkName : String → Type 0
IsChunkName id = (has_char b'_' id && is_plain id) ≡ true

pub IsChunkName-is_url : (id : String) → IsChunkName id → is_url id ≡ true
IsChunkName-is_url id h = is_clear-is_url id (is_plain-is_clear id (ground (arith, h)))

pub IsChunkName-has : (id : String) → IsChunkName id → has_char b'_' id ≡ true
IsChunkName-has id h = ground (arith, h)

pub IsChunkName-is_clear : (id : String) → IsChunkName id → is_clear id ≡ true
IsChunkName-is_clear id h = is_plain-is_clear id (ground (arith, h))

pub IsChunkName-is_name : (id : String) → IsChunkName id → is_name id ≡ true
unfolding has_char
IsChunkName-is_name id h =
    let has : has_char b'_' id ≡ true = ground (arith, h) in
    let plain : is_plain id ≡ true = ground (arith, h) in
    ground (
      arith,
      is_plain-no_slash id plain,
      has_char-differs b'_' id "" has refl,
      has_char-differs b'_' id "." has refl,
      has_char-differs b'_' id ".." has refl,
    )

pub new_chunk_id-IsChunkName :
    (file_id : String) (now : Time)
    → is_plain file_id ≡ true
    → IsChunkName (new_chunk_id file_id now)
unfolding new_chunk_id has_char is_plain
new_chunk_id-IsChunkName file_id now plain = ground (
  arith,
  plain,
  is_plain-concat (concat file_id "_chunk_") (decimal now),
  is_plain-concat file_id "_chunk_",
  decimal-is_plain now,
  has_char-concat b'_' (concat file_id "_chunk_") (decimal now),
  has_char-concat b'_' file_id "_chunk_",
)

-- Nodes that all are up: a PUT of a chunk to an address is answered with 200, a GET from a node at that address
-- then gives its bytes, and what any node gives for other chunks stays.
pub record IsNetwork {W : Type 0} (send : Send W) (fetch : W → Network) : Type 0 where
  pub accepts :
      (w : W) (addr id : String) (bytes : List ℕ)
      → IsChunkName id
      → (send w addr id bytes).1 ≡ answered 200
  pub delivers :
      (w : W) (addr id : String) (bytes : List ℕ)
      → IsChunkName id
      → (n : Node) → node_addr n ≡ addr
      → fetch (send w addr id bytes).0 n id ≡ response 200 (some bytes)
  pub keeps :
      (w : W) (addr id : String) (bytes : List ℕ)
      → IsChunkName id
      → (n : Node) (other : String) → IsChunkName other
      → other ≢ id
      → fetch (send w addr id bytes).0 n other ≡ fetch w n other

-- A PUT of a chunk changes what the node at its address gives, and no other.
pub record IsApart {W : Type 0} (send : Send W) (fetch : W → Network) : Type 0 where
  pub elsewhere :
      (w : W) (addr id : String) (bytes : List ℕ)
      → IsChunkName id
      → (n : Node) (other : String) → IsChunkName other
      → node_addr n ≢ addr
      → fetch (send w addr id bytes).0 n other ≡ fetch w n other

module _ {W : Type 0} (fetch : W → Network) where
  -- The server knows the chunk, and its first replica, and that node gives the bytes.
  pub record Holds (s : Server) (w : W) (id : String) (bytes : List ℕ) : Type 0 where
    pub chunk : ChunkInfo
    pub node : Node
    pub others : List String
    pub present : lookup id s.chunks ≡ some chunk
    pub replicated : chunk.replicas ≡ node.node_id ∷ others
    pub known : IsKnown (manager_nodes s) node
    pub given : fetch w node id ≡ response 200 (some bytes)

  pub download-Holds :
      (s : Server) (w : W) (id : String) (bytes : List ℕ)
      → Holds s w id bytes
      → download_from_node (fetch w) s id ≡ some bytes
  unfolding download_from_node download_chunk_with_fallback fallback_loop download_chunk
  download-Holds s w id bytes h =
      let first : download_chunk (fetch w) (manager_nodes s) id h.node.node_id ≡ data_of bytes =
        rw (h.known, download_chunk) (rw (h.given, download_chunk) refl) in
      rw (h.present, download_from_node)
        (rw (h.replicated, download_from_node) (rw (first, download_from_node) refl))

-- The request of a round.
abbrev request : String → ℕ → List ℕ → ℤ → WriteRequest
request file_id i bytes replicas = record {
  file_id = file_id;
  file_name = concat "chunk_" (decimal i);
  file_size = pos (length bytes);
  replicas = or_three replicas;
}

pub manager_nodes-save :
    (s : Server) (chunks : Map ChunkInfo) (w : Write)
    → manager_nodes (save w (record s { chunks = chunks })) ≡ manager_nodes s
unfolding manager_nodes save
manager_nodes-save s chunks w = ground arith

pub manager_nodes-prepare_on :
    (s : Server) (now : Time) (req : WriteRequest) (nodes : List Node)
    → manager_nodes (prepare_on s now req nodes).0 ≡ manager_nodes s
unfolding prepare_on
manager_nodes-prepare_on s now req [] = refl
manager_nodes-prepare_on s now req (n ∷ ns) = manager_nodes-save s _ _

pub manager_nodes-confirm_write :
    (s : Server) (id hash : String) → manager_nodes (confirm_write s id hash).0 ≡ manager_nodes s
unfolding confirm_write manager_nodes save
manager_nodes-confirm_write s id hash = ground arith

module _ {W : Type 0} (f : Floats) (sort : Sort) (sha256 : List ℕ → String) (send : Send W)
    (fetch : W → Network) (up : IsNetwork send fetch) where
  -- What a round leaves, for the server, the nodes, the chunk's id and the number of the replicas' addresses.
  pub record Delivers (s : Server) (w : W) (id : String) (bytes : List ℕ) (u : Upload W)
      : Type 0 where
    pub addrs : List String
    pub goes_on : u.round ≡ stored id addrs
    pub same_nodes : manager_nodes u.server ≡ manager_nodes s
    pub holds : Holds fetch u.server u.nodes id bytes
    pub keeps :
        (other : String) (bytes' : List ℕ)
        → IsChunkName other
        → other ≢ id
        → Holds fetch s w other bytes'
        → Holds fetch u.server u.nodes other bytes'

  after_confirm_lem :
      (id : String) (rest : List String) (w : W) (r : Server × Confirmation) (task : Option Task)
      → r.1 ≡ confirmed task
      → after_confirm id rest w r
        ≡ record { server = r.0; nodes = w; tasks = started task; round = stored id rest }
  after_confirm_lem id rest w (s, unknown_chunk e) task h = cc
  after_confirm_lem id rest w (s, confirmed t) task h = cc (h)

  upload_chunk_run :
      (s : Server) (w : W) (now : Time) (file_id : String) (i : ℕ) (replicas : ℤ) (bytes : List ℕ)
      (n : Node) (ns : List Node)
      → is_plain file_id ≡ true
      → select_nodes f sort (manager_nodes s) (or_three replicas) [] ≡ n ∷ ns
      → upload_chunk f sort sha256 send s w now file_id i replicas bytes
        ≡ after_confirm
            (new_chunk_id file_id now)
            (map node_addr ns)
            (send w (node_addr n) (new_chunk_id file_id now) bytes).0
            (confirm_write
              (prepare_on s now (request file_id i bytes replicas) (n ∷ ns)).0
              (new_chunk_id file_id now)
              (sha256 bytes))
  unfolding upload_chunk prepare_write send_chunk prepare_on upload_to_node
  upload_chunk_run s w now file_id i replicas bytes n ns plain sel =
      let id = new_chunk_id file_id now in
      let name = new_chunk_id-IsChunkName file_id now plain in
      let taken = up.accepts w (node_addr n) id bytes name in
      rw sel (rw (IsChunkName-is_url id name, taken) refl)

  pub upload_chunk-Delivers :
      (s : Server) (w : W) (now : Time) (file_id : String) (i : ℕ) (replicas : ℤ) (bytes : List ℕ)
      (n : Node) (ns : List Node)
      → is_plain file_id ≡ true
      → select_nodes f sort (manager_nodes s) (or_three replicas) [] ≡ n ∷ ns
      → IsKnown (manager_nodes s) n
      → Delivers s w
          (new_chunk_id file_id now)
          bytes
          (upload_chunk f sort sha256 send s w now file_id i replicas bytes)
  upload_chunk-Delivers s w now file_id i replicas bytes n ns plain sel known =
      let id = new_chunk_id file_id now in
      let req = request file_id i bytes replicas in
      let hash = sha256 bytes in
      let p = (prepare_on s now req (n ∷ ns)).0 in
      let pending = pending_chunk now req (n ∷ ns) in
      let here : lookup id p.chunks ≡ some pending =
        rw (prepare_on_lem s now req n ns) (lookup-insert_self id pending s.chunks) in
      let same : manager_nodes (confirm_write p id hash).0 ≡ manager_nodes s =
        manager_nodes-confirm_write p id hash ∙ manager_nodes-prepare_on s now req (n ∷ ns) in
      let c = confirm_write_known p id hash pending here in
      rw
        (upload_chunk_run s w now file_id i replicas bytes n ns plain sel
          ∙ after_confirm_lem id (map node_addr ns) _ _ _ c.0)
        (record {
          addrs = map node_addr ns;
          goes_on = refl;
          same_nodes = same;
          holds = record {
            chunk = record pending { status = "success"; hash = hash };
            node = n;
            others = map (λ (m : Node). m.node_id) ns;
            present = ground (arith, c.1 id, eq_iff id id);
            replicated = refl;
            known = rw same known;
            given =
                up.delivers w (node_addr n) id bytes (new_chunk_id-IsChunkName file_id now plain) n
                  refl;
          };
          keeps = λ other bytes' called differs h. record {
            chunk = h.chunk;
            node = h.node;
            others = h.others;
            present = ground (
              arith,
              c.1 other,
              eq_iff id other,
              prepare_on_lem s now req n ns,
              lookup-insert id other pending s.chunks,
              differs,
              h.present,
            );
            replicated = h.replicated;
            known = rw same h.known;
            given =
                up.keeps w (node_addr n) id bytes (new_chunk_id-IsChunkName file_id now plain)
                  h.node other called differs
                ∙ h.given;
          };
        })
