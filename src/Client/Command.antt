-- ===== src/Client/Command.antt =====
-- The client's command line: `main` of cmd/client/main.go. What a command does is in `Client.Uploader`,
-- `Client.Downloader` and `Client.Manager`; here they are a record of functions.
pub mod Parsing
pub mod Defaults
use constelfs.Prelude.{
  ℕ, String, Bool, List, [], ◌∷◌, map, Option, none, some, ℤ, pos, str_eq, if◌then◌else◌,
}
use constelfs.Prelude.Text.{concat, format_int}
use constelfs.Config.{ClientConfig, Read, load_client}
use constelfs.Client.Manager.{FileInfo, NodeInfo}
use Parsing.{Flags, Parse, parsed, quit, parse_flags}

pub data Command : Type 0 where
  upload : String → ℤ → Command
  download : String → String → Command
  list : String → Command
  delete : String → Command
  nodes : Command
  -- The arguments that a command needs are missing: the line that says how it is used.
  incomplete : String → Command
  unknown : String → Command

abbrev pub default_path : String
default_path = "config/client.yaml"

abbrev pub defaults : Flags
defaults = record { config = default_path; replicas = pos 3 }

abbrev upload_command : ℤ → List String → Command
upload_command replicas [] = incomplete "用法: constelfs-client upload <文件路径> [--replicas=3]"
upload_command replicas (path ∷ more) = upload path replicas

abbrev download_command : List String → Command
download_command (id ∷ path ∷ more) = download id path
download_command _ = incomplete "用法: constelfs-client download <文件ID> <本地路径>"

abbrev list_command : List String → Command
list_command [] = list "/"
list_command (path ∷ more) = list path

abbrev delete_command : List String → Command
delete_command [] = incomplete "用法: constelfs-client delete <文件ID>"
delete_command (id ∷ more) = delete id

-- The switch on `os.Args[1]`, with the arguments behind it.
abbrev pub command_of : ℤ → String → List String → Command
command_of replicas name args =
    if str_eq name "upload"
    then upload_command replicas args
    else if str_eq name "download"
    then download_command args
    else if str_eq name "list"
    then list_command args
    else if str_eq name "delete"
    then delete_command args
    else if str_eq name "nodes"
    then nodes
    else unknown name

-- What the command line asks for: the configuration file and the command, or an exit code.
pub data Plan : Type 0 where
  runs : String → Command → Plan
  exits : ℕ → Plan

abbrev pub with_flags : Parse → String → List String → Plan
with_flags (quit code) name args = exits code
with_flags (parsed flags) name args = runs flags.config (command_of flags.replicas name args)

-- The arguments behind the program's name; `parse_int` is strconv.ParseInt at base 0.
unfoldable pub plan : (String → Option ℤ) → List String → Plan
unfolding parse_flags
plan parse_int [] = exits 1
plan parse_int (name ∷ args) = with_flags (parse_flags parse_int defaults (name ∷ args)) name args

-- The client's operations, each with nil or an error.
pub record Operations : Type 0 where
  pub do_upload : String → ℤ → Option String
  pub do_download : String → String → Bool
  pub do_list : String → Option (List FileInfo)
  pub do_delete : String → Bool
  pub do_nodes : Option (List NodeInfo)

-- What is printed to the standard output, and the exit code; log.Fatalf exits with 1.
pub record Ended : Type 0 where
  pub lines : List String
  pub code : ℕ

abbrev fatal : Ended
fatal = record { lines = []; code = 1 }

abbrev ok : List String → Ended
ok lines = record { lines = lines; code = 0 }

abbrev usage : List String
usage =
    "ConstelFS 客户端" ∷ "" ∷ "用法:" ∷ "  constelfs-client upload <文件路径> [--replicas=3]"
    ∷ "  constelfs-client download <文件ID> <本地路径>" ∷ "  constelfs-client list [目录路径]"
    ∷ "  constelfs-client delete <文件ID>" ∷ "  constelfs-client nodes" ∷ []

abbrev file_line : FileInfo → String
file_line f =
    concat f.file_id (concat "\t" (concat (format_int f.file_size) (concat "\t" f.file_name)))

abbrev node_line : NodeInfo → String
node_line n = concat n.node_id (concat "\t" (concat n.ip_address (concat "\t" n.status)))

unfoldable pub execute : Operations → Command → Ended
execute ops (upload path replicas) = elim (ops.do_upload path replicas) [
  | none ↦ fatal
  | some id ↦ ok (concat "上传成功! 文件ID: " id ∷ [])
]
execute ops (download id path) = if ops.do_download id path then ok ("下载成功" ∷ []) else fatal
execute ops (list path) = elim (ops.do_list path) [
  | none ↦ fatal
  | some files ↦ ok (map file_line files)
]
execute ops (delete id) = if ops.do_delete id then ok ("删除成功" ∷ []) else fatal
execute ops nodes = elim ops.do_nodes [ none ↦ fatal | some ns ↦ ok (map node_line ns) ]
execute ops (incomplete line) = record { lines = line ∷ []; code = 1 }
execute ops (unknown name) = record { lines = concat "未知命令: " name ∷ usage; code = 1 }

abbrev with_config : (ClientConfig → Operations) → Command → Option ClientConfig → Ended
with_config client command none = fatal
with_config client command (some config) = execute (client config) command

-- `main`. `read` gives the configuration file of a path, and `client` what client.New makes of it.
-- Without arguments it prints the usage; the texts of the flag package are left out.
unfoldable pub main :
    (String → Option ℤ)
    → (List ℕ → ClientConfig → Option ClientConfig)
    → (String → Read)
    → (ClientConfig → Operations)
    → List String
    → Ended
unfolding plan execute load_client
main parse_int decode read client [] = record { lines = usage; code = 1 }
main parse_int decode read client (name ∷ args) = elim (plan parse_int (name ∷ args)) [
  | exits code ↦ record { lines = []; code = code }
  | runs path command ↦ with_config client command (load_client decode (read path))
]
