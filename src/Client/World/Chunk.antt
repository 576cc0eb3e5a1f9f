-- ===== src/Client/World/Chunk.antt =====
-- One chunk of an upload at the server and the nodes: `uploadChunk` of internal/client/uploader.go.
use constelfs.Prelude.{
  true, ℕ, suc, ◌<◌, String, List, [], ◌∷◌, ◌++◌, map, some, lookup, ◌≡◌, ◌≢◌, refl, ap, ◌∙◌, arith,
  pos, inr, length, Map, eq_iff, lookup-insert, lookup-insert_self,
}
use constelfs.Prelude.Text.{concat, decimal}
use constelfs.Prelude.Text.Urls.{is_plain}
use constelfs.Server.State.{
  Time, Node, ChunkInfo, Server, WriteRequest, Response, written, prepared, success, manager_nodes,
}
use constelfs.Server.Nodes.{post}
use constelfs.Server.Scheduler.{Floats, Sort, select_nodes}
use constelfs.Server.Scheduler.Known.{IsKnown}
use constelfs.Server.Storage.{
  ConfirmRequest, node_addr, new_chunk_id, pending_chunk, prepare_on, prepare_write, confirm_write,
  handle_write, handle_confirm_write, confirm_reply,
}
use constelfs.Server.Storage.Protocol.{confirm_write_known, prepare_on_lem}
use constelfs.Server.Transfer.{Network, response}
use constelfs.Server.Versions.{VersionSort}
use constelfs.Server.Files.Deletion.{SameFiles, SameFiles-trans}
use constelfs.Server.Content.{Send}
use constelfs.Server.Content.Delivery.{
  IsChunkName, new_chunk_id-IsChunkName, IsNetwork, IsApart, Holds, manager_nodes-prepare_on,
  manager_nodes-confirm_write,
}
use constelfs.Server.Content.Tables.{prepare_on-SameFiles, confirm_write-SameFiles}
use constelfs.Client.Requests.{Call, write, confirm, lost}
use constelfs.Client.Uploader.{upload_chunk, after_write, after_puts, after_confirm}
use constelfs.Client.World.{
  World, write_answer, confirm_answer, call, calls, on_write, on_confirm, served,
}
use constelfs.Client.World.Calls.{calls-snoc, at_last-snoc, upload_to_nodes-Puts}

module _ {W : Type 0} (f : Floats) (sort : Sort) (order : VersionSort) (send : Send W)
    (clock : ℕ → Time) (fetch : W → Network) where
  -- What a chunk's calls leave.
  pub record Delivers (v v' : World W) (id : String) (bytes : List ℕ) : Type 0 where
    pub same_files : SameFiles v.server v'.server
    pub managed : manager_nodes v'.server ≡ manager_nodes v.server
    pub later : v.made < v'.made
    pub holds : Holds fetch v'.server v'.nodes id bytes
    pub keeps :
        (other : String) (bytes' : List ℕ)
        → IsChunkName other
        → other ≢ id
        → Holds fetch v.server v.nodes other bytes'
        → Holds fetch v'.server v'.nodes other bytes'

  module _ (k : ℕ) (nodes : Map Node) (n : Node) (ns : List Node)
      (sel : select_nodes f sort nodes (pos (suc k)) [] ≡ n ∷ ns) where
    abbrev request : String → ℕ → List ℕ → WriteRequest
    request file_id i bytes = record {
      file_id = file_id;
      file_name = concat "chunk_" (decimal i);
      file_size = pos (length bytes);
      replicas = pos (suc k);
    }

    handle_write_lem :
        (s : Server) (now : Time) (req : WriteRequest)
        → s.nodes ≡ nodes
        → req.replicas ≡ pos (suc k)
        → let id = new_chunk_id req.file_id now in
          handle_write f sort s now post (some req) ≡ (
            (prepare_on s now (record req { replicas = pos (suc k) }) (n ∷ ns)).0,
            written (
                prepared id
                  (id ∷ [])
                  (map (λ (m : Node). m.node_id) (n ∷ ns))
                  (map node_addr (n ∷ ns))),
          )
    unfolding handle_write prepare_write prepare_on
    handle_write_lem s now req same asked = rw asked (rw same (rw sel refl))

    handle_confirm_write_lem :
        (s : Server) (id hash : String) (c : ChunkInfo)
        → lookup id s.chunks ≡ some c
        → let r = handle_confirm_write s post (some (record { chunk_id = id; hash = hash })) in
          (r.0 ≡ (confirm_write s id hash).0) × (r.1 ≡ success)
    unfolding handle_confirm_write
    handle_confirm_write_lem s id hash c e =
        (refl, ap confirm_reply (confirm_write_known s id hash c e).0)

    module _ (up : IsNetwork send fetch) (apart : IsApart send fetch) (known : IsKnown nodes n)
        (start : World W) (file_id : String) where
      abbrev here : List Call → World W
      here cs = calls f sort order send clock start cs

      call-write :
          (v : World W) (i : ℕ) (bytes : List ℕ)
          → let req = request file_id i bytes in
            v.server.nodes ≡ nodes
            → call f sort order send clock v (write req) ≡ record v {
              server = (prepare_on v.server (clock v.made) req (n ∷ ns)).0;
              made = suc v.made;
            }
      unfolding call
      call-write v i bytes same =
          ap (λ (r : Server × Response). record v { server = r.0; made = suc v.made })
            (handle_write_lem v.server (clock v.made) (request file_id i bytes) same refl)

      call-confirm :
          (v : World W) (id hash : String)
          → let req : ConfirmRequest = record { chunk_id = id; hash = hash } in
            call f sort order send clock v (confirm req) ≡ record v {
              server = (handle_confirm_write v.server post (some req)).0;
              made = suc v.made;
            }
      unfolding call
      call-confirm v id hash = refl

      -- The two transitions of the server around the PUTs.
      server_after : Server → Time → ℕ → List ℕ → String → Server
      server_after s now i bytes hash =
          (confirm_write (prepare_on s now (request file_id i bytes) (n ∷ ns)).0
            (new_chunk_id file_id now) hash).0

      chunk-Delivers :
          (v v' : World W) (i : ℕ) (bytes : List ℕ) (hash : String)
          → let id = new_chunk_id file_id (clock v.made) in
            manager_nodes v.server ≡ nodes
            → v'.server ≡ server_after v.server (clock v.made) i bytes hash
            → v.made < v'.made
            → fetch v'.nodes n id ≡ response 200 (some bytes)
            → ((m : Node) (other : String)
                → IsChunkName other
                → other ≢ id
                → fetch v'.nodes m other ≡ fetch v.nodes m other)
            → Delivers v v' id bytes
      unfolding server_after
      chunk-Delivers v v' i bytes hash managed served_by later given kept =
          let now = clock v.made in
          let id = new_chunk_id file_id now in
          let req = request file_id i bytes in
          let pending = pending_chunk now req (n ∷ ns) in
          let p = (prepare_on v.server now req (n ∷ ns)).0 in
          let here : lookup id p.chunks ≡ some pending =
            rw (prepare_on_lem v.server now req n ns)
              (lookup-insert_self id pending v.server.chunks) in
          let c = confirm_write_known p id hash pending here in
          let same : manager_nodes v'.server ≡ manager_nodes v.server =
            ap manager_nodes served_by
            ∙ manager_nodes-confirm_write p id hash
            ∙ manager_nodes-prepare_on v.server now req (n ∷ ns) in
          record {
            same_files = rw served_by (
                SameFiles-trans (prepare_on-SameFiles v.server now req (n ∷ ns))
                  (confirm_write-SameFiles p id hash));
            managed = same;
            later = later;
            holds = record {
              chunk = record pending { status = "success"; hash = hash };
              node = n;
              others = map (λ (m : Node). m.node_id) ns;
              present =
                  ap (λ (s : Server). lookup id s.chunks) served_by
                  ∙ ground (arith, c.1 id, eq_iff id id);
              replicated = refl;
              known = rw (same ∙ managed) known;
              given = given;
            };
            keeps = λ other bytes' called differs h. record {
              chunk = h.chunk;
              node = h.node;
              others = h.others;
              present =
                  ap (λ (s : Server). lookup other s.chunks) served_by
                  ∙ ground (
                    arith,
                    c.1 other,
                    eq_iff id other,
                    prepare_on_lem v.server now req n ns,
                    lookup-insert id other pending v.server.chunks,
                    differs,
                    h.present,
                  );
              replicated = h.replicated;
              known = rw same h.known;
              given = kept h.node other called differs ∙ h.given;
            };
          }

      -- The calls of a chunk succeed.
      pub upload_chunk-Delivers :
          (cs : List Call) (i : ℕ) (bytes : List ℕ) (hash : String)
          → is_plain file_id ≡ true
          → let v = here cs in
            let id = new_chunk_id file_id (clock v.made) in
            v.server.nodes ≡ nodes
            → manager_nodes v.server ≡ nodes
            → (cs' : List Call) × (upload_chunk
                  (served f sort order send clock start)
                  cs
                  file_id
                  i
                  bytes
                  hash
                  (pos (suc k))
                ≡ (cs', inr id))
              × Delivers v (here cs') id bytes
      unfolding upload_chunk after_write served server_after
      upload_chunk-Delivers cs i bytes hash plain same managed =
          let v = here cs in
          let now = clock v.made in
          let id = new_chunk_id file_id now in
          let req = request file_id i bytes in
          let name = new_chunk_id-IsChunkName file_id now plain in
          let pending = pending_chunk now req (n ∷ ns) in
          let p = (prepare_on v.server now req (n ∷ ns)).0 in
          let cs1 = cs ++ (write req ∷ []) in
          let w = handle_write_lem v.server now req same refl in
          let step1 : here cs1 ≡ record v { server = p; made = suc v.made } =
            calls-snoc f sort order send clock cs (write req) start ∙ call-write v i bytes same in
          let answered =
            at_last-snoc f sort order send clock lost (on_write f sort order send clock) cs
              (write req) start
            ∙ ap write_answer (ap (λ (r : Server × Response). r.1) w) in
          let (cs2, sent, puts, first) =
            upload_to_nodes-Puts f sort order send clock fetch up apart start cs1 id bytes
              (map node_addr (n ∷ ns)) name in
          let s2 : (here cs2).server ≡ p = puts.server ∙ ap (λ (u : World W). u.server) step1 in
          let here2 : lookup id (here cs2).server.chunks ≡ some pending =
            ap (λ (s : Server). lookup id s.chunks) s2
            ∙ rw (prepare_on_lem v.server now req n ns)
                (lookup-insert_self id pending v.server.chunks) in
          let c = handle_confirm_write_lem (here cs2).server id hash pending here2 in
          let last = confirm (record { chunk_id = id; hash = hash }) in
          let cs3 = cs2 ++ (last ∷ []) in
          let confirmed =
            at_last-snoc f sort order send clock lost (on_confirm f sort order send clock) cs2 last
              start
            ∙ ap confirm_answer c.1 in
          let step3 =
            calls-snoc f sort order send clock cs2 last start ∙ call-confirm (here cs2) id hash in
          let moved : (here cs3).nodes ≡ (here cs2).nodes = ap (λ (u : World W). u.nodes) step3 in
          let peer = served f sort order send clock start in
          (
            cs3,
            ap (after_write peer cs1 bytes hash) answered
                ∙ ap (after_puts peer id hash) sent
                ∙ ap (after_confirm peer cs3 id) confirmed,
            chunk-Delivers v (here cs3) i bytes hash managed
                (ap (λ (u : World W). u.server) step3
                  ∙ c.0
                  ∙ ap (λ (s : Server). (confirm_write s id hash).0) s2)
                (omega (
                  arith,
                  ap (λ (u : World W). u.made) step3,
                  puts.later,
                  ap (λ (u : World W). u.made) step1,
                ))
                (rw moved (first n refl))
                (λ m other called differs. rw moved (
                  puts.keeps m other called differs
                  ∙ ap (λ (u : World W). fetch u.nodes m other) step1)),
          )
