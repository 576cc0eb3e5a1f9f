-- ===== src/Server/Persistence.antt =====
-- The persistence manager, internal/server/persistence.go, over the bbolt database, which is a
-- parameter. A value is what json.Marshal wrote for one record, or bytes that do not decode.
-- `New` (server.go) creates every bucket, so none is missing.
pub mod Database
pub mod Nodes
pub mod Recovery
pub mod Loading
pub mod Tables
pub mod Removal
use constelfs.Prelude.{
  String, List, [], ◌∷◌, ◌++◌, Option, none, some, Map, lookup, insert, get_or_nil, ltb,
  if◌then◌else◌,
}
use constelfs.Prelude.Text.{concat, has_prefix}
use constelfs.Server.State.{
  Time, NodeStatus, online, offline, Node, FileInfo, FileVersion, ChunkInfo, SpeedTestResult, Write,
  save_node, delete_node, save_speed_test, save_file, delete_file, save_version, save_chunk,
  delete_chunk,
}
use Database.{Bolt, Stored, node, file, version, chunk, speed_test}

-- json.Unmarshal at the type of a bucket's values.
abbrev pub as_node : Stored → Option Node
as_node (node n) = some n
as_node _ = none

abbrev pub as_file : Stored → Option FileInfo
as_file (file f) = some f
as_file _ = none

abbrev pub as_version : Stored → Option FileVersion
as_version (version v) = some v
as_version _ = none

abbrev pub as_chunk : Stored → Option ChunkInfo
as_chunk (chunk c) = some c
as_chunk _ = none

abbrev pub as_speed_test : Stored → Option SpeedTestResult
as_speed_test (speed_test r) = some r
as_speed_test _ = none

-- `string(b)` of the time format RFC3339 is the parameter `format`.
module _ {Db : Type 0} (bolt : Bolt Db) (format : Time → String) where
  -- A transaction that fails leaves the database as it was.
  abbrev pub commit : Db → Option Db → Db
  commit db none = db
  commit db (some db') = db'

  unfoldable pub put_node : Node → Db → Db
  put_node n db = commit db (bolt.put "Nodes" n.node_id (node n) db)

  unfoldable pub remove_node : String → Db → Db
  remove_node id db = commit db (bolt.delete "Nodes" id db)

  unfoldable pub put_file : FileInfo → Db → Db
  put_file f db = commit db (bolt.put "Files" f.file_id (file f) db)

  unfoldable pub remove_file : String → Db → Db
  remove_file id db = commit db (bolt.delete "Files" id db)

  unfoldable pub put_version : String → FileVersion → Db → Db
  put_version id v db =
      commit db (bolt.put "Replicas" (concat (concat id "_") v.version_id) (version v) db)

  unfoldable pub put_chunk : ChunkInfo → Db → Db
  put_chunk c db = commit db (bolt.put "Chunks" c.chunk_id (chunk c) db)

  unfoldable pub remove_chunk : String → Db → Db
  remove_chunk id db = commit db (bolt.delete "Chunks" id db)

  unfoldable pub put_speed_test : String → SpeedTestResult → Db → Db
  put_speed_test id r db =
      commit db
        (bolt.put "SpeedTests" (concat (concat id "_") (format r.test_time)) (speed_test r) db)

  -- What each transaction does to the database.
  unfoldable pub apply : Write → Db → Db
  unfolding put_node remove_node put_file remove_file put_version put_chunk remove_chunk
      put_speed_test
  apply (save_node n) db = put_node n db
  apply (delete_node id) db = remove_node id db
  apply (save_speed_test id r) db = put_speed_test id r db
  apply (save_file f) db = put_file f db
  apply (delete_file id) db = remove_file id db
  apply (save_version id v) db = put_version id v db
  apply (save_chunk c) db = put_chunk c db
  apply (delete_chunk id) db = remove_chunk id db

  unfoldable pub replay : List Write → Db → Db
  unfolding apply
  replay [] db = db
  replay (w ∷ ws) db = replay ws (apply w db)

-- After a restart, a node that was online is offline until its next heartbeat.
abbrev pub restarted : NodeStatus → NodeStatus
restarted online = offline
restarted st = st

abbrev pub restart_node : Node → Node
restart_node n = record n { status = restarted n.status }

-- `LoadNodes`, over the bucket's pairs in the order of `ForEach`.
unfoldable pub load_nodes_loop : Map Node → Map Stored → Map Node
load_nodes_loop nodes [] = nodes
load_nodes_loop nodes ((k, v) ∷ m) =
    load_nodes_loop
      (elim (as_node v) [ none ↦ nodes | some n ↦ insert n.node_id (restart_node n) nodes ]) m

unfoldable pub load_files_loop : Map FileInfo → Map Stored → Map FileInfo
load_files_loop files [] = files
load_files_loop files ((k, v) ∷ m) =
    load_files_loop (elim (as_file v) [ none ↦ files | some f ↦ insert f.file_id f files ]) m

unfoldable pub load_versions_loop : Map (List FileVersion) → Map Stored → Map (List FileVersion)
load_versions_loop versions [] = versions
load_versions_loop versions ((k, v) ∷ m) =
    load_versions_loop
      (elim (as_version v) [
        | none ↦ versions
        | some w ↦ insert w.file_id (get_or_nil (lookup w.file_id versions) ++ (w ∷ [])) versions
      ])
      m

unfoldable pub load_chunks_loop : Map ChunkInfo → Map Stored → Map ChunkInfo
load_chunks_loop chunks [] = chunks
load_chunks_loop chunks ((k, v) ∷ m) =
    load_chunks_loop (elim (as_chunk v) [ none ↦ chunks | some c ↦ insert c.chunk_id c chunks ]) m

-- The later of two results: the loop body of `GetLatestSpeedTest`.
abbrev pub later : Option SpeedTestResult → SpeedTestResult → Option SpeedTestResult
later none r = some r
later (some l) r = if ltb l.test_time r.test_time then some r else some l

-- The cursor visits the keys with the prefix, which stand together in the order of the keys.
unfoldable pub latest_loop : String → Option SpeedTestResult → Map Stored → Option SpeedTestResult
latest_loop prefix latest [] = latest
latest_loop prefix latest ((k, v) ∷ m) =
    latest_loop prefix
      (if has_prefix k prefix
        then elim (as_speed_test v) [ none ↦ latest | some r ↦ later latest r ]
        else latest)
      m

module _ {Db : Type 0} (bolt : Bolt Db) where
  unfoldable pub load_nodes : Db → Map Node
  unfolding load_nodes_loop
  load_nodes db = load_nodes_loop [] (bolt.entries "Nodes" db)

  unfoldable pub load_files : Db → Map FileInfo
  unfolding load_files_loop
  load_files db = load_files_loop [] (bolt.entries "Files" db)

  unfoldable pub load_versions : Db → Map (List FileVersion)
  unfolding load_versions_loop
  load_versions db = load_versions_loop [] (bolt.entries "Replicas" db)

  unfoldable pub load_chunks : Db → Map ChunkInfo
  unfolding load_chunks_loop
  load_chunks db = load_chunks_loop [] (bolt.entries "Chunks" db)

  unfoldable pub get_latest_speed_test : String → Db → Option SpeedTestResult
  unfolding latest_loop
  get_latest_speed_test id db = latest_loop (concat id "_") none (bolt.entries "SpeedTests" db)
