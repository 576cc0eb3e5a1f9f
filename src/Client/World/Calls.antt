-- ===== src/Client/World/Calls.antt =====
-- The calls of an upload, one by one, at the server and the nodes (internal/client/uploader.go).
use constelfs.Prelude.{
  ℕ, ◌≤◌, String, true, List, [], ◌∷◌, ◌++◌, none, some, ◌≡◌, ◌≢◌, refl, ap, ◌∙◌, arith, inl, inr,
  Bool-cases, str_eq, eq_iff,
}
use constelfs.Server.State.{Time, Node}
use constelfs.Server.Scheduler.{Floats, Sort}
use constelfs.Server.Storage.{node_addr}
use constelfs.Server.Transfer.{Network, response}
use constelfs.Server.Versions.{VersionSort}
use constelfs.Server.Content.{Send, not_sent, is_ok}
use constelfs.Server.Content.Delivery.{IsChunkName, IsChunkName-is_url, IsNetwork, IsApart}
use constelfs.Client.Requests.{Call, put_chunk}
use constelfs.Client.Uploader.{upload_to_nodes}
use constelfs.Client.Uploader.Calls.{upload_to_nodes-next}
use constelfs.Client.World.{World, call, calls, at_last, on_put, served}

module _ {W : Type 0} (f : Floats) (sort : Sort) (order : VersionSort) (send : Send W)
    (clock : ℕ → Time) where
  pub calls-snoc :
      (cs : List Call) (c : Call) (v : World W)
      → calls f sort order send clock v (cs ++ (c ∷ []))
        ≡ call f sort order send clock (calls f sort order send clock v cs) c
  unfolding calls
  calls-snoc [] c v = refl
  calls-snoc (d ∷ cs) c v = calls-snoc cs c (call f sort order send clock v d)

  pub at_last-snoc :
      {A : Type 0} (z : A) (answer : World W → Call → A) (cs : List Call) (c : Call) (v : World W)
      → at_last f sort order send clock z answer v (cs ++ (c ∷ []))
        ≡ answer (calls f sort order send clock v cs) c
  unfolding at_last calls
  at_last-snoc z answer [] c v = refl
  at_last-snoc z answer (d ∷ []) c v = refl
  at_last-snoc z answer (d ∷ e ∷ cs) c v =
      at_last-snoc z answer (e ∷ cs) c (call f sort order send clock v d)

  module _ (fetch : W → Network) (up : IsNetwork send fetch) (apart : IsApart send fetch)
      (start : World W) where
    abbrev pub after : List Call → World W
    after cs = calls f sort order send clock start cs

    -- What the PUTs of a chunk leave.
    pub record Puts (v v' : World W) (id : String) (bytes : List ℕ) : Type 0 where
      pub server : v'.server ≡ v.server
      pub later : v.made ≤ v'.made
      pub gives :
          (n : Node)
          → fetch v.nodes n id ≡ response 200 (some bytes)
          → fetch v'.nodes n id ≡ response 200 (some bytes)
      pub keeps :
          (n : Node) (other : String)
          → IsChunkName other
          → other ≢ id
          → fetch v'.nodes n other ≡ fetch v.nodes n other

    Puts-trans :
        {v v' v'' : World W} {id : String} {bytes : List ℕ}
        → Puts v v' id bytes
        → Puts v' v'' id bytes
        → Puts v v'' id bytes
    Puts-trans p q = record {
      server = q.server ∙ p.server;
      later = omega (arith, p.later, q.later);
      gives = λ n e. q.gives n (p.gives n e);
      keeps =
          λ n other called differs. q.keeps n other called differs ∙ p.keeps n other called differs;
    }

    call-Puts :
        (v : World W) (addr id : String) (bytes : List ℕ)
        → IsChunkName id
        → Puts v (call f sort order send clock v (put_chunk addr id bytes)) id bytes
    unfolding call
    call-Puts v addr id bytes name = record {
      server = refl;
      later = omega arith;
      gives = λ n e. elim (Bool-cases (str_eq (node_addr n) addr)) [
        | inl same ↦ up.delivers v.nodes addr id bytes name n ((eq_iff (node_addr n) addr).0 same)
        | inr differ ↦
            apart.elsewhere v.nodes addr id bytes name n id name
              (λ same. cc (differ, (eq_iff (node_addr n) addr).1 same))
            ∙ e
      ];
      keeps = λ n other called differs. up.keeps v.nodes addr id bytes name n other called differs;
    }

    -- The node at the first address gives the bytes.
    abbrev pub First : List String → String → List ℕ → World W → Type 0
    First [] id bytes v = Unit
    First (addr ∷ addrs) id bytes v =
        (n : Node) → node_addr n ≡ addr → fetch v.nodes n id ≡ response 200 (some bytes)

    -- The PUTs to some addresses succeed.
    pub upload_to_nodes-Puts :
        (cs : List Call) (id : String) (bytes : List ℕ) (addrs : List String)
        → IsChunkName id
        → (cs' : List Call) × (upload_to_nodes
              (served f sort order send clock start)
              cs
              id
              bytes
              addrs
            ≡ (cs', none))
          × Puts (after cs) (after cs') id bytes
          × First addrs id bytes (after cs')
    unfolding upload_to_nodes served call
    upload_to_nodes-Puts cs id bytes [] name = (
      cs,
      refl,
      record {
        server = refl;
        later = omega arith;
        gives = λ n e. e;
        keeps = λ n other called differs. refl;
      },
      tt,
    )
    upload_to_nodes-Puts cs id bytes (addr ∷ addrs) name =
        let c = put_chunk addr id bytes in
        let (cs', rest, puts, first) = upload_to_nodes-Puts (cs ++ (c ∷ [])) id bytes addrs name in
        let taken : is_ok ((served f sort order send clock start).on_put (cs ++ (c ∷ []))) ≡ true =
          ap is_ok (
            at_last-snoc not_sent (on_put f sort order send clock) cs c start
            ∙ up.accepts (after cs).nodes addr id bytes name) in
        (
          cs',
          upload_to_nodes-next (served f sort order send clock start) cs id bytes addr addrs
                (IsChunkName-is_url id name)
              ∙ rw taken rest,
          Puts-trans (rw calls-snoc (call-Puts (after cs) addr id bytes name)) puts,
          λ n same.
              puts.gives n (rw calls-snoc (up.delivers (after cs).nodes addr id bytes name n same)),
        )
