-- ===== src/Smb/Sharing.antt =====
-- What the start of the SMB server (internal/smb/smb.go) leaves on the disk.
use constelfs.Prelude.{String, List, [], ◌∷◌, Option, none, some, ◌≡◌, refl, ap, ◌∙◌}
use constelfs.Smb.{
  SmbServer, config_text, Host, attempt, generate_config, start_smb, set_share_path,
}

-- `text_at` is the text of a file. Creating a file that succeeds empties it, writing to a new file puts its text
-- there, and neither making a directory nor starting a program changes a file.
pub record IsHost {W : Type 0} (host : Host W) (text_at : String → W → Option String) : Type 0 where
  pub creates :
      (p : String) (w : W) → (host.create p w).1 ≡ none → text_at p (host.create p w).0 ≡ some ""
  pub writes :
      (p text : String) (w : W)
      → text_at p w ≡ some ""
      → (host.write p text w).1 ≡ none
      → text_at p (host.write p text w).0 ≡ some text
  pub makes : (d p : String) (w : W) → text_at p (host.mkdir_all d w).0 ≡ text_at p w
  pub spawns :
      (program p : String) (args : List String) (w : W)
      → text_at p (host.spawn program args w).0 ≡ text_at p w

module _ {W : Type 0} {host : Host W} {text_at : String → W → Option String}
    (laws : IsHost host text_at) (dir : String → String) where
  -- Where an attempt ends without an error, the call did, and what follows it.
  attempt-none :
      (text : String) (r : W × Option String) (next : W → W × Option String)
      → (attempt host dir text r next).1 ≡ none
      → (r.1 ≡ none) × ((next r.0).1 ≡ none) × (attempt host dir text r next ≡ next r.0)
  attempt-none text (w, none) next e = (refl, e, refl)
  attempt-none text (w, some err) next e = absurd (cc e)

  -- Where `GenerateConfig` returns nil, the configuration file has the text of the template.
  generate_config-text :
      (s : SmbServer) (w : W)
      → (generate_config host dir s w).1 ≡ none
      → text_at s.config_path (generate_config host dir s w).0 ≡ some (config_text s.config)
  unfolding generate_config
  generate_config-text s w e =
      let (made, later, after) = attempt-none _ (host.mkdir_all (dir s.config_path) w) _ e in
      let w1 = (host.mkdir_all (dir s.config_path) w).0 in
      let (created, last, behind) = attempt-none _ (host.create s.config_path w1) _ later in
      let w2 = (host.create s.config_path w1).0 in
      let (written, ends, end) =
        attempt-none _ (host.write s.config_path (config_text s.config) w2) _ last in
      ap (λ r. text_at s.config_path r.0) (after ∙ behind ∙ end)
      ∙ laws.writes s.config_path (config_text s.config) w2 (laws.creates s.config_path w1 created)
          written

  -- Where `Start` returns nil, with the share path that was set before, the configuration file has the template's text
  -- for that path.
  start_smb-text :
      (s : SmbServer) (path : String) (w : W)
      → let t = set_share_path path s in
        (start_smb host dir t w).1 ≡ none
        → text_at s.config_path (start_smb host dir t w).0
          ≡ some (config_text (record s.config { share_path = path }))
  unfolding start_smb set_share_path
  start_smb-text s path w e =
      let t = set_share_path path s in
      let (configured, later, after) = attempt-none _ (generate_config host dir t w) _ e in
      let w1 = (generate_config host dir t w).0 in
      let (made, last, behind) = attempt-none _ (host.mkdir_all path w1) _ later in
      let w2 = (host.mkdir_all path w1).0 in
      let (started, ends, end) =
        attempt-none _ (host.spawn s.smbd_path ("-D" ∷ "--no-process-group" ∷ []) w2) _ last in
      ap (λ r. text_at s.config_path r.0) (after ∙ behind ∙ end)
      ∙ laws.spawns s.smbd_path s.config_path _ w2
      ∙ laws.makes path s.config_path w1
      ∙ generate_config-text t w configured
