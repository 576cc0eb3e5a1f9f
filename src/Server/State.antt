-- ===== src/Server/State.antt =====
-- The records that the central server keeps (internal/server/node.go, version.go, storage.go,
-- server.go), and what it does to the outside world: database transactions and requests to nodes.
use constelfs.Prelude.{ℕ, String, Bool, true, List, [], ◌∷◌, ◌++◌, Map, ℤ, if◌then◌else◌}

-- The bit pattern of a float64. Arithmetic on floats is a parameter (`Scheduler.Floats`).
abbrev pub Float : Type 0
Float = ℕ

-- 1.0
abbrev pub one : Float
one = 0x3ff0000000000000

-- A time.Time in nanoseconds; 0 is the zero value, before every reading of the clock.
abbrev pub Time : Type 0
Time = ℕ

pub data NodeStatus : Type 0 where
  registered configured online offline maintenance : NodeStatus

pub record Node : Type 0 where
  pub id : ℤ
  pub node_id : String
  pub ip_address : String
  pub port : ℤ
  pub status : NodeStatus
  pub storage_path : String
  pub total_disk_space : ℤ
  pub allocated_space : ℤ
  pub used_space : ℤ
  pub cpu_usage : Float
  pub memory_usage : Float
  pub disk_usage : Float
  pub upload_speed : Float
  pub download_speed : Float
  pub online_rate : Float
  pub last_heartbeat : Time
  pub last_speed_test : Time
  pub configured_at : Time
  pub created_at : Time

pub record FileInfo : Type 0 where
  pub file_id : String
  pub file_name : String
  pub file_path : String
  pub is_directory : Bool
  pub latest_version : ℕ
  pub version_count : ℤ
  pub max_versions : ℕ
  pub encryption_key : String
  pub size : ℤ
  pub created_at : Time
  pub updated_at : Time

pub record FileVersion : Type 0 where
  pub version_id : String
  pub file_id : String
  pub version : ℕ
  pub size : ℤ
  pub hash : String
  pub chunk_ids : List String
  pub node_ids : List String
  pub created_at : Time

pub record ChunkInfo : Type 0 where
  pub chunk_id : String
  pub file_id : String
  pub index : ℕ
  pub size : ℤ
  pub hash : String
  pub replicas : List String
  pub status : String
  pub created_at : Time

pub record SpeedTestResult : Type 0 where
  pub upload_speed : Float
  pub download_speed : Float
  pub latency : ℤ
  pub test_time : Time

-- A call of the persistence manager, one database transaction each. Its error is only logged.
pub data Write : Type 0 where
  save_node : Node → Write
  delete_node : String → Write
  save_speed_test : String → SpeedTestResult → Write
  save_file : FileInfo → Write
  delete_file : String → Write
  save_version : String → FileVersion → Write
  save_chunk : ChunkInfo → Write
  delete_chunk : String → Write

-- A DELETE request for a chunk, sent to the address of a node. Its outcome is only logged.
pub record Deletion : Type 0 where
  pub ip_address : String
  pub port : ℤ
  pub chunk_id : String

-- The server with the managers that it owns. `synced` tells that `syncNodes` has made the
-- managers share the server's own node map: before that, each has an empty map of its own.
-- `persist` tells that the persistence managers are not nil. `writes` and `deletions` are the
-- transactions and the requests made so far, in order.
pub record Server : Type 0 where
  pub nodes : Map Node
  pub synced : Bool
  pub files : Map FileInfo
  pub versions : Map (List FileVersion)
  pub chunks : Map ChunkInfo
  pub persist : Bool
  pub writes : List Write
  pub deletions : List Deletion

-- `UpdateNodes` of the file, replication and download managers: Go maps are references, so what
-- the managers see afterwards is always the server's map.
unfoldable pub sync_nodes : Server → Server
sync_nodes s = record s { synced = true }

-- The node map of a manager.
unfoldable pub manager_nodes : Server → Map Node
manager_nodes s = if s.synced then s.nodes else []

-- `if persist != nil { … }`.
unfoldable pub save : Write → Server → Server
save w s = if s.persist then record s { writes = s.writes ++ (w ∷ []) } else s

pub record WriteRequest : Type 0 where
  pub file_id : String
  pub file_name : String
  pub file_size : ℤ
  pub replicas : ℤ

-- A WriteResponse with `Success` true, or one with `Success` false and its error.
pub data WriteResponse : Type 0 where
  prepared : String → List String → List String → List String → WriteResponse
  refused : String → WriteResponse

-- What a handler writes to the client. The code is that of `http.Error`; a body has code 200.
pub data Response : Type 0 where
  error : ℕ → String → Response
  success : Response
  node_list : List Node → Response
  node_info : Node → Response
  node_registered : String → NodeStatus → Response
  node_configured : Node → Response
  file_list : List FileInfo → String → Response
  file_info : FileInfo → List FileVersion → Response
  version_created : FileVersion → Response
  rolled_back : FileVersion → Response
  file_created : String → String → ℤ → ℕ → Response
  uploaded : String → String → ℤ → ℕ → FileVersion → Response
  content : String → List ℕ → Response
  written : WriteResponse → Response
  chunk_info : ChunkInfo → Response
  key_info : String → Response
  -- The handler panics; net/http recovers and drops the connection.
  aborted : Response
