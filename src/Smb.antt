-- ===== src/Smb.antt =====
-- The SMB server, internal/smb/smb.go: it writes the configuration of Samba and runs Samba's programs, which are a
-- parameter, as are the file system and filepath.Dir. Logs are left out. No other part uses it.
pub mod Sharing
use constelfs.Prelude.{String, Bool, true, false, List, [], ◌∷◌, Option, none, some, if◌then◌else◌}
use constelfs.Prelude.Text.{concat}

pub record SmbConfig : Type 0 where
  pub listen_addr : String
  pub share_name : String
  pub share_path : String
  pub read_only : Bool
  pub guest_ok : Bool

pub record SmbServer : Type 0 where
  pub config : SmbConfig
  pub smbd_path : String
  pub config_path : String

unfoldable new_smb_server : SmbConfig → SmbServer
new_smb_server config = record {
  config = config;
  smbd_path = "/usr/sbin/smbd";
  config_path = "/etc/samba/smb.conf";
}

abbrev lines : List String → String
lines [] = ""
lines (l ∷ ls) = concat l (concat "\n" (lines ls))

-- The template, executed.
unfoldable pub config_text : SmbConfig → String
config_text config = lines (
    "[global]"
    ∷ "   workgroup = WORKGROUP"
    ∷ "   server string = ConstelFS"
    ∷ "   security = user"
    ∷ "   map to guest = Bad User"
    ∷ "   dns proxy = no"
    ∷ ""
    ∷ concat "[" (concat config.share_name "]")
    ∷ concat "   path = " config.share_path
    ∷ "   browsable = yes"
    ∷ concat "   writable = " (if config.read_only then "no" else "yes")
    ∷ concat "   guest ok = " (if config.guest_ok then "yes" else "no")
    ∷ "   create mask = 0644"
    ∷ "   directory mask = 0755"
    ∷ "   valid users = @constelfs"
    ∷ [])

-- What the source calls: each call gives the world behind it, and its error. `write` appends to a file that was
-- created; `run` waits for a command, whose input is its last text, and `spawn` does not.
pub record Host (W : Type 0) : Type 0 where
  pub mkdir_all : String → W → W × Option String
  pub create : String → W → W × Option String
  pub write : String → String → W → W × Option String
  pub spawn : String → List String → W → W × Option String
  pub run : String → List String → String → W → W × Option String

module _ {W : Type 0} (host : Host W) (dir : String → String) where
  -- `if err := …; err != nil { return fmt.Errorf(…) }`, and what follows it.
  abbrev pub attempt : String → W × Option String → (W → W × Option String) → W × Option String
  attempt text (w, some e) next = (w, some (concat text e))
  attempt text (w, none) next = next w

  abbrev pub done : W → W × Option String
  done w = (w, none)

  unfoldable pub generate_config : SmbServer → W → W × Option String
  unfolding config_text
  generate_config s w = attempt "创建配置目录失败: " (host.mkdir_all (dir s.config_path) w) (λ w1.
      attempt "创建配置文件失败: " (host.create s.config_path w1)
        (λ w2. attempt "生成配置失败: " (host.write s.config_path (config_text s.config) w2) done))

  -- `Start`.
  unfoldable pub start_smb : SmbServer → W → W × Option String
  unfolding generate_config
  start_smb s w = attempt "" (generate_config s w) (λ w1.
      attempt "创建共享目录失败: " (host.mkdir_all s.config.share_path w1) (λ w2.
        attempt "启动smbd失败: " (host.spawn s.smbd_path ("-D" ∷ "--no-process-group" ∷ []) w2) done))

  -- `Stop`.
  unfoldable stop_smb : W → W × Option String
  stop_smb w = host.run "killall" ("smbd" ∷ []) "" w

  -- `AddUser`: an error of useradd is ignored.
  unfoldable add_user : String → String → W → W × Option String
  add_user name password w =
      let (w1, ignored) = host.run "useradd" ("-M" ∷ "-s" ∷ "/sbin/nologin" ∷ name ∷ []) "" w in
      attempt "设置SMB密码失败: "
        (host.run "smbpasswd" ("-a" ∷ "-s" ∷ name ∷ []) (lines (password ∷ password ∷ [])) w1) done

  unfoldable remove_user : String → W → W × Option String
  remove_user name w = attempt "移除SMB用户失败: " (host.run "smbpasswd" ("-x" ∷ name ∷ []) "" w) done

  abbrev ended_well : W × Option String → W × Bool
  ended_well (w, none) = (w, true)
  ended_well (w, some e) = (w, false)

  -- `IsRunning`.
  unfoldable smbd_runs : W → W × Bool
  smbd_runs w = ended_well (host.run "pgrep" ("smbd" ∷ []) "" w)

unfoldable get_share_path : SmbServer → String
get_share_path s = s.config.share_path

unfoldable pub set_share_path : String → SmbServer → SmbServer
set_share_path path s = record s { config = record s.config { share_path = path } }
