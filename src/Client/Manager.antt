-- ===== src/Client/Manager.antt =====
-- The client's other calls, internal/client/client.go, against the server's handlers. What encoding/json does with the
-- fields of the server's answers is written out: a field that the answer does not have is zero.
use constelfs.Prelude.{
  ℕ, String, Bool, false, List, [], ◌∷◌, map, Option, none, some, ℤ, pos, lookup, ◌==◌, Map,
}
use constelfs.Prelude.Text.{concat}
use constelfs.Server.State.{
  Time, Node, NodeStatus, registered, configured, online, offline, maintenance,
  FileInfo as ServerFile, Server, Response, error, file_list, node_list,
}
use constelfs.Server.Nodes.{get, delete, handle_nodes, NodeBody}
use constelfs.Server.Transfer.{Network}
use constelfs.Server.Versions.{VersionSort}
use constelfs.Server.Routes.{handle_files, handle_file}

pub record FileInfo : Type 0 where
  pub file_id : String
  pub file_name : String
  pub file_path : String
  pub file_size : ℤ
  pub is_directory : Bool
  pub latest_version : ℕ
  pub version_count : ℤ
  pub max_versions : ℕ
  pub encryption_key : String

pub record NodeInfo : Type 0 where
  pub node_id : String
  pub ip_address : String
  pub status : String

-- The numbers in the JSON text of a file, under the names that the server's tags give them.
abbrev numbers_of : ServerFile → Map ℤ
numbers_of f =
    ("latest_version", pos f.latest_version)
    ∷ ("version_count", f.version_count)
    ∷ ("max_versions", pos f.max_versions)
    ∷ ("size", f.size)
    ∷ []

-- json.Unmarshal leaves a number 0 whose name is not in the text.
abbrev decode_number : Option ℤ → ℤ
decode_number none = pos 0
decode_number (some n) = n

abbrev decode_file : ServerFile → FileInfo
decode_file f = record {
  file_id = f.file_id;
  file_name = f.file_name;
  file_path = f.file_path;
  file_size = decode_number (lookup "file_size" (numbers_of f));
  is_directory = f.is_directory;
  latest_version = f.latest_version;
  version_count = f.version_count;
  max_versions = f.max_versions;
  encryption_key = f.encryption_key;
}

abbrev status_text : NodeStatus → String
status_text registered = "registered"
status_text configured = "configured"
status_text online = "online"
status_text offline = "offline"
status_text maintenance = "maintenance"

abbrev decode_node : Node → NodeInfo
decode_node n = record {
  node_id = n.node_id;
  ip_address = n.ip_address;
  status = status_text n.status;
}

abbrev files_in : Response → Option (List FileInfo)
files_in (file_list files dir) = some (map decode_file files)
files_in _ = none

abbrev nodes_in : Response → Option (List NodeInfo)
nodes_in (node_list nodes) = some (map decode_node nodes)
nodes_in _ = none

abbrev status_of : Response → ℕ
status_of (error code text) = code
status_of _ = 200

-- `List`, at `HandleFiles`.
unfoldable pub client_list : Server → Time → String → Option (List FileInfo)
unfolding handle_files
client_list s now dir = files_in (handle_files s now get dir none).1

-- `ListNodes`, at `handleNodes`, for a request with a body that is empty.
unfoldable pub client_list_nodes : Server → Time → NodeBody → Option (List NodeInfo)
unfolding handle_nodes
client_list_nodes s now body = nodes_in (handle_nodes s now get body).1

-- `parse` is what the server reads as the path of a URL, if it is one.
module _ (sort : VersionSort) (net : Network) (parse : String → Option String) where
  -- `Delete`, at `HandleFile`, and whether it returns nil.
  unfoldable pub client_delete : Server → Time → String → Server × Bool
  unfolding handle_file
  client_delete s now id = elim (parse (concat "/api/v1/files/" id)) [
    | none ↦ (s, false)
    | some path ↦
        let (t, resp) = handle_file sort net s now delete none path in (t, status_of resp == 200)
  ]
