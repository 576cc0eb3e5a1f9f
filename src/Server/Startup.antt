-- ===== src/Server/Startup.antt =====
-- The start of the central server: `New`, `loadData` and `syncNodes` in internal/server/server.go.
-- The database (bbolt) is a parameter, as in `Server.Persistence`. `StartNodeChecker` starts the
-- ticks, which are steps of their own (`Server.Nodes.Events`).
use constelfs.Prelude.{String, true, false, List, [], ◌∷◌, Option, none, some, ◌⊎◌, inl, inr}
use constelfs.Prelude.Text.{concat}
use constelfs.Server.State.{Server, sync_nodes}
use constelfs.Server.Persistence.{load_nodes, load_files, load_versions, load_chunks}
use constelfs.Server.Persistence.Database.{Bolt}

abbrev pub buckets : List String
buckets = "Nodes" ∷ "Files" ∷ "Chunks" ∷ "Replicas" ∷ "Users" ∷ "SpeedTests" ∷ "EncryptionKeys" ∷ []

-- The server and its managers as the constructors make them, with persistence set.
abbrev pub new_state : Server
new_state = record {
  nodes = [];
  synced = false;
  files = [];
  versions = [];
  chunks = [];
  persist = true;
  writes = [];
  deletions = [];
}

-- What `New` returns: an error, or the server and its database.
pub data Started (Db : Type 0) : Type 0 where
  failed : String → Started Db
  running : Server → Db → Started Db

module _ {Db : Type 0} (bolt : Bolt Db) where
  -- `fault` gives the error of the read transaction on a bucket, if it fails. The second result is
  -- the error of `loadData`; what it has loaded by then stays.
  unfoldable pub load_data : (String → Option String) → Db → Server → Server × Option String
  unfolding load_nodes load_files load_versions load_chunks sync_nodes
  load_data fault db s = elim (fault "Nodes") [
    | some e ↦ (s, some (concat "加载节点失败: " e))
    | none ↦
        let s1 = record s { nodes = load_nodes bolt db } in
        elim (fault "Files") [
          | some e ↦ (s1, some (concat "加载文件失败: " e))
          | none ↦
              let s2 = record s1 { files = load_files bolt db } in
              elim (fault "Replicas") [
                | some e ↦ (s2, some (concat "加载版本失败: " e))
                | none ↦
                    let s3 = record s2 { versions = load_versions bolt db } in
                    elim (fault "Chunks") [
                      | some e ↦ (s3, some (concat "加载分片失败: " e))
                      | none ↦ (sync_nodes (record s3 { chunks = load_chunks bolt db }), none)
                    ]
              ]
        ]
  ]

  -- The buckets of one transaction: an error rolls it back.
  unfoldable pub create_buckets : (String → Db → String ⊎ Db) → List String → Db → String ⊎ Db
  create_buckets create [] db = inr db
  create_buckets create (name ∷ names) db = elim (create name db) [
    | inl e ↦ inl (concat (concat (concat "创建Bucket " name) " 失败: ") e)
    | inr db' ↦ create_buckets create names db'
  ]

  abbrev pub after_buckets : (String → Option String) → String ⊎ Db → Started Db
  after_buckets fault (inl e) = failed e
  after_buckets fault (inr db) = running (load_data fault db new_state).0 db

  -- `New`, for what `bolt.Open` gives. An error of `loadData` is only logged.
  unfoldable pub new_server :
      (String → Db → String ⊎ Db) → (String → Option String) → String ⊎ Db → Started Db
  unfolding create_buckets load_data
  new_server create fault (inl e) = failed (concat "打开数据库失败: " e)
  new_server create fault (inr db) = after_buckets fault (create_buckets create buckets db)
