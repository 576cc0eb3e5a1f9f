-- ===== src/Agent/Startup.antt =====
-- The start of a storage node: `main` of cmd/node/main.go up to the wait for a signal, `New`, `Start`, `register` and
-- the gauges of internal/node/agent.go, `Init` of storage.go, and disk_unix.go. Arithmetic on float64 values
-- (`Server.Scheduler.Floats`), the system calls and filepath.Join are parameters; the server is that of
-- `Server.Nodes`. Logs and the
-- text of an error of `LoadConfig` are left out.
pub mod Registration
use constelfs.Prelude.{
  ℕ, ◌-◌, ◌+◌, ◌*◌, ◌%◌, ◌^◌, String, List, [], ◌∷◌, Option, none, some, map, ℤ, pos, negsuc, ltb,
  ltb_ℤ, Bool, if◌then◌else◌,
}
use constelfs.Prelude.Text.{concat}
use constelfs.Config.{NodeConfig}
use constelfs.Server.State.{Float, Time, Server, Response, error}
use constelfs.Server.Nodes.{NodeBody, post, handle_nodes}
use constelfs.Server.Scheduler.{Floats}
use constelfs.Agent.Heartbeats.{Gauges, marshal, register_request}

-- The fields of a syscall.Statfs_t that are read. `block_size` is converted to a uint64.
pub record Statfs : Type 0 where
  pub blocks : ℕ
  pub available : ℕ
  pub block_size : ℕ

-- int64 of a uint64.
abbrev pub int64 : ℕ → ℤ
int64 n = if ltb n (2 ^ 63) then pos n else negsuc (2 ^ 64 - n - 1)

-- The product of two uint64.
abbrev times : ℕ → ℕ → ℕ
times a b = a * b % 2 ^ 64

-- `getTotalDiskSpace`; `none` where syscall.Statfs fails.
unfoldable pub total_disk_space : Option Statfs → ℤ
total_disk_space none = pos (1024 * 1024 * 1024 * 100)
total_disk_space (some st) = int64 (times st.blocks st.block_size)

-- What the runtime and the file system tell at one time.
pub record System : Type 0 where
  pub cpus : ℕ
  pub goroutines : ℕ
  pub memory : ℕ
  pub statfs : Option Statfs

-- How a call of the http client ends: the server is not reached, its answer is lost, or it is received.
pub data Link : Type 0 where
  unreached : String → Link
  lost : String → Link
  intact : Link

-- What becomes of the process: it ends with an error or a panic, or stays and sends heartbeats, without or with its
-- HTTP server.
pub data Outcome : Type 0 where
  config_failed : Outcome
  fatal : String → Outcome
  panicked : Outcome
  silent : Outcome
  serving : Outcome

module _ (f : Floats) where
  -- `if usage > 100 { usage = 100 }`
  abbrev capped : Float → Float
  capped usage = if f.gt usage 0x4059000000000000 then 0x4059000000000000 else usage

  -- `getCPUUsage`; the last constant is 5.
  unfoldable pub cpu_usage : System → Float
  cpu_usage sys =
      capped
        (f.mul (f.div (f.of_int (pos sys.goroutines)) (f.of_int (pos sys.cpus))) 0x4014000000000000)

  -- `getMemoryUsage`; the constants are 2 ^ 30 and 100.
  unfoldable pub memory_usage : System → Float
  memory_usage sys =
      if ltb 0 sys.memory
      then capped (f.mul (f.div (f.of_int (pos sys.memory)) 0x41d0000000000000) 0x4059000000000000)
      else 0

  -- `getDiskUsage`
  unfoldable pub disk_usage : Option Statfs → Float
  disk_usage none = 0
  disk_usage (some st) =
      let total = times st.blocks st.block_size in
      let free = times st.available st.block_size in
      let used = (total + 2 ^ 64 - free) % 2 ^ 64 in
      f.mul (f.div (f.of_int (pos used)) (f.of_int (pos total))) 0x4059000000000000

  abbrev pub gauges : System → Gauges
  gauges sys = record {
    cpu_usage = cpu_usage sys;
    memory_usage = memory_usage sys;
    disk_usage = disk_usage sys.statfs;
    total_disk = total_disk_space sys.statfs;
  }

abbrev pub directories : List String
directories = "chunks" ∷ "temp" ∷ "meta" ∷ []

-- The loop of `Init`: the first error. `mkdir` gives that of os.MkdirAll.
unfoldable pub make_dirs : (String → Option String) → List String → Option String
make_dirs mkdir [] = none
make_dirs mkdir (dir ∷ dirs) = elim (mkdir dir) [
  | some e ↦ some (concat "创建目录 " (concat dir (concat " 失败: " e)))
  | none ↦ make_dirs mkdir dirs
]

unfoldable pub init_storage :
    (String → Option String) → (String → String → String) → String → Option String
unfolding make_dirs
init_storage mkdir join path = make_dirs mkdir (map (join path) directories)

-- fmt.Errorf with a text before the error.
abbrev pub wrapped : String → Option String → Option String
wrapped text none = none
wrapped text (some e) = some (concat text e)

-- `New`: its error.
unfoldable pub new_agent :
    (String → Option String) → (String → String → String) → NodeConfig → Option String
unfolding init_storage
new_agent mkdir join config = wrapped "初始化存储失败: " (init_storage mkdir join config.storage_path)

-- The check of the status code of `register`; `line` is the status as the client receives it.
abbrev pub after_post : (ℕ → String) → Server × Response → Server × Option String
after_post line (s, error code text) = (s, some (concat "注册失败: " (line code)))
after_post line (s, reply) = (s, none)

-- The request of `register` as the server decodes it: what the body is at other types does not matter.
abbrev pub registration : NodeConfig → Gauges → NodeBody
registration config g = record {
  register = marshal g (register_request config g);
  configure = none;
  heartbeat = none;
  speed_test = none;
}

unfoldable pub register :
    (ℕ → String) → Link → NodeConfig → Gauges → Server → Time → Server × Option String
unfolding handle_nodes
register line (unreached e) config g s now = (s, some e)
register line (lost e) config g s now =
    ((handle_nodes s now post (registration config g)).0, some e)
register line intact config g s now =
    after_post line (handle_nodes s now post (registration config g))

-- `Start`: where it returns nil the two goroutines run.
unfoldable pub start :
    (ℕ → String) → Link → NodeConfig → Gauges → Server → Time → Server × Option String
unfolding register
start line link config g s now =
    let (s', e) = register line link config g s now in (s', wrapped "注册失败: " e)

-- time.Duration of the interval times time.Second, in int64.
abbrev interval : ℤ → ℤ
interval (pos n) = int64 (n * 1000000000 % 2 ^ 64)
interval (negsuc n) = int64 ((2 ^ 64 - (n + 1) * 1000000000 % 2 ^ 64) % 2 ^ 64)

abbrev pub is_interval : ℤ → Bool
is_interval n = ltb_ℤ (pos 0) (interval n)

-- What the goroutines of `Start` do to the process: time.NewTicker panics for an interval that is not positive, which
-- ends it; the error of ListenAndServe is only logged.
abbrev pub goroutines : NodeConfig → Bool → Outcome
goroutines config listens =
    if is_interval config.heartbeat_interval then if listens then serving else silent else panicked

abbrev pub after_start : NodeConfig → Bool → Server × Option String → Server × Outcome
after_start config listens (s, some e) = (s, fatal (concat "启动节点代理失败: " e))
after_start config listens (s, none) = (s, goroutines config listens)

-- `main`, with the configuration that `LoadConfig` gives; `listens` tells whether ListenAndServe can serve the port.
unfoldable pub boot :
    Floats
    → (String → Option String)
    → (String → String → String)
    → (ℕ → String)
    → Link
    → Bool
    → System
    → Option NodeConfig
    → Server
    → Time
    → Server × Outcome
unfolding new_agent start
boot f mkdir join line link listens sys none s now = (s, config_failed)
boot f mkdir join line link listens sys (some config) s now = elim (new_agent mkdir join config) [
  | some e ↦ (s, fatal (concat "创建节点代理失败: " e))
  | none ↦ after_start config listens (start line link config (gauges f sys) s now)
]
