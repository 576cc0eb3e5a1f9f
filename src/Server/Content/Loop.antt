-- ===== src/Server/Content/Loop.antt =====
-- The rounds of an upload (`uploadFile` of internal/server/file_manager.go): they give chunks whose bytes,
-- read through the server, are the bytes of the file.
use constelfs.Prelude.{
  true, ℕ, zero, suc, String, Bool, false, List, [], ◌∷◌, ◌++◌, ◌≡◌, ◌≢◌, ◌≤◌, ◌<◌, ◌*◌, refl, sym,
  ap, ◌∙◌, arith, ℤ, inr, Map, take, drop, take-add, take-nil,
}
use constelfs.Prelude.Text.{concat}
use constelfs.Prelude.Text.Names.{concat-decimal_inj}
use constelfs.Prelude.Text.Urls.{is_plain}
use constelfs.Server.State.{Time, Node, Server, manager_nodes}
use constelfs.Server.Scheduler.{Floats, Sort, select_nodes}
use constelfs.Server.Scheduler.Known.{IsKnown}
use constelfs.Server.Storage.{or_three, new_chunk_id}
use constelfs.Server.Transfer.{Network}
use constelfs.Server.Downloads.{gather}
use constelfs.Server.Content.{Send, Uploaded, upload_chunk, upload_loop}
use constelfs.Server.Content.Delivery.{
  IsNetwork, IsChunkName, new_chunk_id-IsChunkName, Holds, download-Holds, upload_chunk-Delivers,
}

pub new_chunk_id_inj :
    (file_id : String) (a b : Time) → new_chunk_id file_id a ≡ new_chunk_id file_id b → a ≡ b
unfolding new_chunk_id
new_chunk_id_inj file_id a b = concat-decimal_inj (concat file_id "_chunk_") a b

pub gather-Holds :
    {W : Type 0} (fetch : W → Network) (s : Server) (w : W) (id : String) (ids : List String)
    (bytes more : List ℕ)
    → Holds fetch s w id bytes
    → gather (fetch w) s ids ≡ inr more
    → gather (fetch w) s (id ∷ ids) ≡ inr (bytes ++ more)
unfolding gather
gather-Holds fetch s w id ids bytes more h e =
    rw (download-Holds fetch s w id bytes h, gather) (rw (e, gather) refl)

-- The pieces that the rounds read, one after another.
take-round :
    (left c : ℕ) (b : ℕ) (bs : List ℕ)
    → (b ∷ take c bs) ++ take (left * suc c) (drop c bs) ≡ take (suc left * suc c) (b ∷ bs)
take-round left c b bs =
    sym (take-add (suc c) (left * suc c) (b ∷ bs)) ∙ ap (λ k. take k (b ∷ bs)) (omega arith)

module _ {W : Type 0} (f : Floats) (sort : Sort) (sha256 : List ℕ → String) (send : Send W)
    (fetch : W → Network) (up : IsNetwork send fetch) (clock : ℕ → Time) (unreadable : ℕ → Bool)
    (file_id : String) (replicas : ℤ) (nodes : Map Node) where
  -- What the rounds leave, for chunks of a size, the server, the nodes, the number of rounds left, that of the
  -- next, and the bytes.
  pub record Gathers (chunk : ℕ) (s : Server) (w : W) (left i : ℕ) (unread : List ℕ)
      (u : Uploaded W) : Type 0 where
    pub ids : List String
    pub addrs : List String
    pub gives : u.result ≡ inr (ids, addrs)
    pub same_nodes : manager_nodes u.server ≡ manager_nodes s
    pub gathered : gather (fetch u.nodes) u.server ids ≡ inr (take (left * chunk) unread)
    pub keeps :
        (other : String) (bytes : List ℕ)
        → IsChunkName other
        → ((k : ℕ) → i ≤ k → other ≢ new_chunk_id file_id (clock k))
        → Holds fetch s w other bytes
        → Holds fetch u.server u.nodes other bytes

  rounds-Gathers :
      is_plain file_id ≡ true
      → ((a b : ℕ) → clock a ≡ clock b → a ≡ b)
      → ((k : ℕ) → unreadable k ≡ false)
      → (n : Node) (ns : List Node) → select_nodes f sort nodes (or_three replicas) [] ≡ n ∷ ns
      → IsKnown nodes n
      → (c left i : ℕ) (unread : List ℕ) (s : Server) (w : W) → manager_nodes s ≡ nodes
      → Gathers (suc c) s w left i unread (
          upload_loop f sort sha256 send clock unreadable file_id replicas
            (suc c)
            left
            i
            unread
            s
            w)
  unfolding upload_loop gather
  rounds-Gathers plain inj readable n ns sel known c zero i unread s w same = record {
    ids = [];
    addrs = [];
    gives = refl;
    same_nodes = refl;
    gathered =
        let none_read : 0 ≡ 0 * suc c = omega arith in ap (λ k. inr (take k unread)) none_read;
    keeps = λ other bytes called differs h. h;
  }
  rounds-Gathers plain inj readable n ns sel known c (suc left) i [] s w same =
      rw (readable i, upload_loop)
        (record {
          ids = [];
          addrs = [];
          gives = refl;
          same_nodes = refl;
          gathered = ap inr (sym (take-nil _));
          keeps = λ other bytes called differs h. h;
        })
  rounds-Gathers plain inj readable n ns sel known c (suc left) i (b ∷ bs) s w same =
      let id = new_chunk_id file_id (clock i) in
      let u = upload_chunk f sort sha256 send s w (clock i) file_id i replicas (b ∷ take c bs) in
      let d =
        upload_chunk-Delivers f sort sha256 send fetch up s w (clock i) file_id i replicas
          (b ∷ take c bs) n ns plain (rw same sel) (rw same known) in
      let r =
        rounds-Gathers plain inj readable n ns sel known c left (suc i) (drop c bs) u.server u.nodes
          (d.same_nodes ∙ same) in
      let later : (k : ℕ) → suc i ≤ k → id ≢ new_chunk_id file_id (clock k) =
        λ k low e. omega (arith, inj i k (new_chunk_id_inj file_id (clock i) (clock k) e)) in
      rw (readable i, upload_loop)
        (rw (d.goes_on, upload_loop)
          (record {
            ids = id ∷ r.ids;
            addrs = d.addrs ++ r.addrs;
            gives = rw r.gives refl;
            same_nodes = r.same_nodes ∙ d.same_nodes;
            gathered =
                gather-Holds fetch _ _ id r.ids (b ∷ take c bs) _
                  (r.keeps id _ (new_chunk_id-IsChunkName file_id (clock i) plain) later d.holds)
                  r.gathered
                ∙ ap inr (take-round left c b bs);
            keeps = λ other bytes called differs h.
                r.keeps other bytes called (λ k low. differs k (omega arith))
                  (d.keeps other bytes called (differs i (omega arith)) h);
          }))

  pub upload_loop-Gathers :
      is_plain file_id ≡ true
      → ((a b : ℕ) → clock a ≡ clock b → a ≡ b)
      → ((k : ℕ) → unreadable k ≡ false)
      → (n : Node) (ns : List Node) → select_nodes f sort nodes (or_three replicas) [] ≡ n ∷ ns
      → IsKnown nodes n
      → (chunk left : ℕ) (unread : List ℕ) (s : Server) (w : W) → manager_nodes s ≡ nodes
      → 0 < chunk
      → Gathers chunk s w left 0 unread
          (upload_loop f sort sha256 send clock unreadable file_id replicas chunk left 0 unread s w)
  upload_loop-Gathers plain inj readable n ns sel known zero left unread s w same positive =
      absurd (omega arith)
  upload_loop-Gathers plain inj readable n ns sel known (suc c) left unread s w same positive =
      rounds-Gathers plain inj readable n ns sel known c left 0 unread s w same
