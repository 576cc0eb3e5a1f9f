-- ===== src/Config.antt =====
-- The configuration files: `DefaultConfig` and `LoadConfig` of internal/client/config.go,
-- internal/node/config.go and internal/server/config.go. The file is read by os.ReadFile and decoded by
-- yaml.v3, a parameter that sets the fields which the text names and leaves the others.
use constelfs.Prelude.{ℕ, String, Bool, false, List, Option, none, some, ℤ, pos}

-- What os.ReadFile gives.
pub data Read : Type 0 where
  absent : Read
  unreadable : Read
  content : List ℕ → Read

-- `LoadConfig` over the defaults; `none` is an error.
abbrev load_config : {C : Type 0} → (List ℕ → C → Option C) → C → Read → Option C
load_config decode defaults absent = some defaults
load_config decode defaults unreadable = none
load_config decode defaults (content bytes) = decode bytes defaults

pub record ClientConfig : Type 0 where
  pub server_addr : String
  pub encrypt : Bool

abbrev pub default_client : ClientConfig
default_client = record { server_addr = "http://193.134.209.37:8080"; encrypt = false }

unfoldable pub load_client :
    (List ℕ → ClientConfig → Option ClientConfig) → Read → Option ClientConfig
load_client decode = load_config decode default_client

pub record NodeConfig : Type 0 where
  pub node_id : String
  pub server_addr : String
  pub advertise_ip : String
  pub port : ℤ
  pub storage_path : String
  pub heartbeat_interval : ℤ
  pub log_level : String

-- `hostname` is that of os.Hostname.
abbrev pub default_node : String → NodeConfig
default_node hostname = record {
  node_id = hostname;
  server_addr = "http://193.134.209.37:8080";
  advertise_ip = "0.0.0.0";
  port = pos 8081;
  storage_path = "/data/constelfs";
  heartbeat_interval = pos 30;
  log_level = "info";
}

unfoldable pub load_node :
    String → (List ℕ → NodeConfig → Option NodeConfig) → Read → Option NodeConfig
load_node hostname decode = load_config decode (default_node hostname)

pub record ServerConfig : Type 0 where
  pub http_port : ℤ
  pub grpc_port : ℤ
  pub database_path : String
  pub log_level : String

abbrev pub default_server : ServerConfig
default_server = record {
  http_port = pos 8080;
  grpc_port = pos 9090;
  database_path = "data/constelfs.db";
  log_level = "info";
}

unfoldable pub load_server :
    (List ℕ → ServerConfig → Option ServerConfig) → Read → Option ServerConfig
load_server decode = load_config decode default_server
