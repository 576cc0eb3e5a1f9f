-- ===== src/Examples/Data.antt =====
-- Test data: a node that is online, a server that knows it, a file with its versions.
use constelfs.Prelude.{ℕ, String, Bool, true, List, [], ◌∷◌, Map, pos}
use constelfs.Server.State.{
  Float, Node, NodeStatus, online, configured, FileInfo, FileVersion, ChunkInfo, Server, one,
}

abbrev pub node_of : String → NodeStatus → Float → Node
node_of id status speed = record {
  id = pos 1;
  node_id = id;
  ip_address = "10.0.0.1";
  port = pos 9000;
  status = status;
  storage_path = "/data";
  total_disk_space = pos 1000;
  allocated_space = pos 500;
  used_space = pos 20;
  cpu_usage = 0;
  memory_usage = 0;
  disk_usage = 0;
  upload_speed = speed;
  download_speed = 0;
  online_rate = one;
  last_heartbeat = 1000;
  last_speed_test = 0;
  configured_at = 500;
  created_at = 100;
}

abbrev pub node_a : Node
node_a = node_of "a" online 7

abbrev pub node_b : Node
node_b = node_of "b" online 9

abbrev pub node_c : Node
node_c = node_of "c" configured 5

abbrev pub three_nodes : Map Node
three_nodes = ("a", node_a) ∷ ("b", node_b) ∷ ("c", node_c) ∷ []

abbrev pub chunk_x : ChunkInfo
chunk_x = record {
  chunk_id = "x";
  file_id = "f";
  index = 0;
  size = pos 3;
  hash = "h";
  replicas = "a" ∷ "b" ∷ [];
  status = "success";
  created_at = 1000;
}

abbrev pub version_of : ℕ → List String → FileVersion
version_of n chunk_ids = record {
  version_id = "v";
  file_id = "f";
  version = n;
  size = pos 3;
  hash = "h";
  chunk_ids = chunk_ids;
  node_ids = [];
  created_at = 1000;
}

-- A file that keeps two versions, and has two.
abbrev pub full_file : FileInfo
full_file = record {
  file_id = "f";
  file_name = "notes";
  file_path = "/notes";
  is_directory = Bool.false;
  latest_version = 2;
  version_count = pos 2;
  max_versions = 2;
  encryption_key = "";
  size = pos 3;
  created_at = 1000;
  updated_at = 1000;
}

abbrev pub empty_server : Server
empty_server = record {
  nodes = [];
  synced = true;
  files = [];
  versions = [];
  chunks = [];
  persist = true;
  writes = [];
  deletions = [];
}

abbrev pub two_versions : List FileVersion
two_versions = version_of 1 ("x" ∷ []) ∷ version_of 2 [] ∷ []

abbrev pub full_server : Server
full_server = record empty_server {
  nodes = three_nodes;
  files = ("f", full_file) ∷ [];
  versions = ("f", two_versions) ∷ [];
  chunks = ("x", chunk_x) ∷ [];
}
