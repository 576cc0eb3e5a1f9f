-- ===== src/Server/Persistence/Recovery/Mirroring.antt =====
-- A database whose Nodes bucket holds what the registry (internal/server/node.go) holds in memory, and the changes
-- of one node and of the status checker, which keep it so.
use constelfs.Prelude.{
  String, true, List, [], ◌∷◌, ◌++◌, ◌≡◌, refl, ap, sym, ◌∙◌, arith, Map, lookup, insert, remove,
  lookup-insert, lookup-remove, eq_iff,
}
use constelfs.Prelude.Maps.{Distinct, insert-Distinct, remove-Distinct}
use constelfs.Server.State.{
  Time, Node, Write, Server, SpeedTestResult, save_node, delete_node, save_speed_test, save,
  sync_nodes,
}
use constelfs.Server.Nodes.{check_loop, check_node_status, store_node}
use constelfs.Server.Nodes.Lifecycle.{
  lookup-check_loop, check_loop-Distinct, nodes-check_node_status, writes-check_node_status,
  persist-check_node_status, expire-source,
}
use constelfs.Server.Persistence.{apply, replay}
use constelfs.Server.Persistence.Database.{Bolt, IsBolt, IsReliable, is_key}
use constelfs.Server.Persistence.Nodes.{
  IsKeyed, IsNamed, node_at, node_at-save_node, node_at-delete_node, node_at-save_speed_test,
  node_at-check_loop,
}

module _ {Db : Type 0} (bolt : Bolt Db) (format : Time → String) where
  replay-append :
      (ws vs : List Write) (db : Db)
      → replay bolt format (ws ++ vs) db ≡ replay bolt format vs (replay bolt format ws db)
  unfolding replay
  replay-append [] vs db = refl
  replay-append (w ∷ ws) vs db = replay-append ws vs (apply bolt format w db)

  pub replay-snoc :
      (ws : List Write) (w : Write) (db : Db)
      → replay bolt format (ws ++ (w ∷ [])) db ≡ apply bolt format w (replay bolt format ws db)
  unfolding replay
  replay-snoc ws w db = replay-append ws (w ∷ []) db

  -- The database that the server's transactions make of `db` mirrors its registry.
  pub record Mirrors (db : Db) (s : Server) : Type 0 where
    pub persists : s.persist ≡ true
    pub keyed : IsKeyed (λ k. lookup k s.nodes)
    pub named : IsNamed (λ k. lookup k s.nodes)
    pub distinct : Distinct s.nodes
    pub same : (k : String) → node_at bolt k (replay bolt format s.writes db) ≡ lookup k s.nodes

module _ {Db : Type 0} {bolt : Bolt Db} (format : Time → String) (laws : IsBolt bolt)
    (reliable : IsReliable bolt) (db : Db) where
  abbrev Mirrored : Server → Type 0
  Mirrored s = Mirrors bolt format db s

  sync_nodes-Mirrors : (s : Server) → Mirrored s → Mirrored (sync_nodes s)
  unfolding sync_nodes
  sync_nodes-Mirrors s h = record {
    persists = h.persists;
    keyed = h.keyed;
    named = h.named;
    distinct = h.distinct;
    same = h.same;
  }

  pub save_node-Mirrors :
      (k : String) (n : Node) (s : Server)
      → n.node_id ≡ k
      → is_key k ≡ true
      → Mirrored s
      → Mirrored (save (save_node n) (record s { nodes = insert k n s.nodes }))
  unfolding save
  save_node-Mirrors k n s own valid h = rw h.persists (record {
    persists = refl;
    keyed = λ j n' e. ground (arith, lookup-insert k j n s.nodes, eq_iff k j, h.keyed j n');
    named = λ j n' e. ground (arith, lookup-insert k j n s.nodes, eq_iff k j, valid, h.named j n');
    distinct = insert-Distinct k n s.nodes h.distinct;
    same = λ j. ground (
      arith,
      replay-snoc bolt format s.writes (save_node n) db,
      node_at-save_node format laws reliable j n (replay bolt format s.writes db)
          (ap is_key own ∙ valid),
      lookup-insert k j n s.nodes,
      h.same j,
    );
  })

  pub store_node-Mirrors :
      (k : String) (n : Node) (s : Server)
      → n.node_id ≡ k
      → is_key k ≡ true
      → Mirrored s
      → Mirrored (store_node k n s)
  unfolding store_node
  store_node-Mirrors k n s own valid h = sync_nodes-Mirrors _ (save_node-Mirrors k n s own valid h)

  pub remove-Mirrors :
      (k : String) (s : Server)
      → Mirrored s
      → Mirrored (sync_nodes (save (delete_node k) (record s { nodes = remove k s.nodes })))
  unfolding sync_nodes save
  remove-Mirrors k s h = rw h.persists (record {
    persists = refl;
    keyed = λ j n' e. ground (arith, lookup-remove k j s.nodes, h.keyed j n');
    named = λ j n' e. ground (arith, lookup-remove k j s.nodes, h.named j n');
    distinct = remove-Distinct k s.nodes h.distinct;
    same = λ j. ground (
      arith,
      replay-snoc bolt format s.writes (delete_node k) db,
      node_at-delete_node format laws reliable j k (replay bolt format s.writes db),
      lookup-remove k j s.nodes,
      h.same j,
    );
  })

  pub speed_test-Mirrors :
      (k : String) (r : SpeedTestResult) (s : Server)
      → Mirrored s
      → Mirrored (sync_nodes (save (save_speed_test k r) s))
  unfolding sync_nodes save
  speed_test-Mirrors k r s h = rw h.persists (record {
    persists = refl;
    keyed = h.keyed;
    named = h.named;
    distinct = h.distinct;
    same = λ j. ground (
      arith,
      replay-snoc bolt format s.writes (save_speed_test k r) db,
      node_at-save_speed_test format laws reliable j k r (replay bolt format s.writes db),
      h.same j,
    );
  })

  pub check_node_status-Mirrors :
      (s : Server) (now : Time) → Mirrored s → Mirrored (check_node_status s now)
  check_node_status-Mirrors s now h = record {
    persists = persist-check_node_status s now ∙ h.persists;
    keyed = λ j n e.
        let found =
          sym (lookup-check_loop now j s.nodes)
          ∙ ap (λ (m : Map Node). lookup j m) (sym (nodes-check_node_status s now))
          ∙ e in
        let (n', at, own) = expire-source now (lookup j s.nodes) n found in
        sym own ∙ h.keyed j n' at;
    named = λ j n e.
        let found =
          sym (lookup-check_loop now j s.nodes)
          ∙ ap (λ (m : Map Node). lookup j m) (sym (nodes-check_node_status s now))
          ∙ e in
        let (n', at, own) = expire-source now (lookup j s.nodes) n found in h.named j n' at;
    distinct = rw nodes-check_node_status (check_loop-Distinct now s.nodes h.distinct);
    same = λ j.
        rw (writes-check_node_status, nodes-check_node_status, h.persists)
          (ground (
            arith,
            replay-append bolt format s.writes (check_loop now s.nodes).1 db,
            node_at-check_loop format laws reliable now s.nodes j (replay bolt format s.writes db)
                h.distinct h.keyed h.named,
            lookup-check_loop now j s.nodes,
            h.same j,
          ));
  }
