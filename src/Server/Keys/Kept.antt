-- ===== src/Server/Keys/Kept.antt =====
-- A key that was saved is given back (internal/server/encryption_api.go).
use constelfs.Prelude.{
  String, Bool, true, false, Option, none, some, lookup, ◌≡◌, refl, sym, ap, ◌∙◌, str_eq,
  if◌then◌else◌, Bool-cases, Option-cases, inl, inr,
}
use constelfs.Prelude.Text.{concat, trim_prefix, split}
use constelfs.Prelude.Text.Names.{has_char, trim_prefix-concat, split-slash}
use constelfs.Server.State.{error, success}
use constelfs.Server.Nodes.{get, post}
use constelfs.Server.Persistence.Database.{Bolt, IsBolt, text}
use constelfs.Server.Keys.{
  as_text, after_save, key_reply, save_encryption_key, get_encryption_key, dispatch_encryption,
  handle_encryption,
}

-- The path of a file's key.
abbrev pub key_path : String → String
key_path id = concat "/api/v1/encryption/" (concat "key" (concat "/" id))

module _ {Db : Type 0} (bolt : Bolt Db) (laws : IsBolt bolt) where
  -- The two routes.
  handle-post :
      (readable : Bool) (db : Db) (body : Option (String × String))
      → handle_encryption bolt true readable db post body "/api/v1/encryption/key"
        ≡ save_encryption_key bolt true db body
  unfolding handle_encryption dispatch_encryption trim_prefix split
  handle-post readable db body = refl

  handle-get :
      (db : Db) (body : Option (String × String)) (id : String)
      → has_char b'/' id ≡ false
      → handle_encryption bolt true true db get body
          (concat "/api/v1/encryption/" (concat "key" (concat "/" id)))
        ≡ (db, get_encryption_key bolt true true db id)
  unfolding handle_encryption dispatch_encryption has_char
  handle-get db body id plain =
      let word : has_char b'/' "key" ≡ false = refl in
      rw (trim_prefix-concat "/api/v1/encryption/" (concat "key" (concat "/" id)))
        (rw (split-slash "key" id word plain) refl)

  save_encryption_key-success :
      (db : Db) (id key : String)
      → (save_encryption_key bolt true db (some (id, key))).1 ≡ success
      → bolt.put "EncryptionKeys" id (text key) db
        ≡ some (save_encryption_key bolt true db (some (id, key))).0
  unfolding save_encryption_key
  save_encryption_key-success db id key h =
      elim (Option-cases (bolt.put "EncryptionKeys" id (text key) db)) [
        | inl e ↦
            let fails : save_encryption_key bolt true db (some (id, key))
                ≡ (db, error 500 "保存密钥失败") =
              ap (after_save bolt db) e in
            absurd (cc (ap (λ r. r.1) fails, h))
        | inr (db', e) ↦ e ∙ ap (λ o. some (after_save bolt db o).0) (sym e)
      ]

  get_encryption_key-put :
      (db db' : Db) (id key j : String)
      → bolt.put "EncryptionKeys" id (text key) db ≡ some db'
      → get_encryption_key bolt true true db' j
        ≡ (if str_eq id j then key_reply bolt key else get_encryption_key bolt true true db j)
  unfolding get_encryption_key
  get_encryption_key-put db db' id key j e =
      let found = laws.entries-put "EncryptionKeys" id (text key) db db' e "EncryptionKeys" j in
      elim (Bool-cases (str_eq id j)) [
        | inl f ↦
            let here : lookup j (bolt.entries "EncryptionKeys" db') ≡ some (text key) =
              found ∙ rw f refl in
            rw f (ap (λ o. key_reply bolt (as_text o)) here)
        | inr f ↦
            let here : lookup j (bolt.entries "EncryptionKeys" db')
                ≡ lookup j (bolt.entries "EncryptionKeys" db) =
              found ∙ rw f refl in
            rw f (ap (λ o. key_reply bolt (as_text o)) here)
      ]

  -- Once the POST of a file's key is answered with success by a server with a database, the GET of that file's key
  -- gives it, or 404 if it is empty, and the GET of each other file's key gives what it gave before. The ids
  -- asked for have no slash.
  pub key-kept :
      (db : Db) (id key j : String)
      → has_char b'/' j ≡ false
      → let (db', answer) =
          handle_encryption bolt true true db post (some (id, key)) "/api/v1/encryption/key" in
        answer ≡ success
        → handle_encryption bolt true true db' get none (key_path j) ≡ (
          db',
          if str_eq id j
              then key_reply bolt key
              else (handle_encryption bolt true true db get none (key_path j)).1,
        )
  key-kept db id key j plain h =
      let saved = handle-post true db (some (id, key)) in
      let after = (save_encryption_key bolt true db (some (id, key))).0 in
      let put = save_encryption_key-success db id key (ap (λ r. r.1) (sym saved) ∙ h) in
      let before = ap (λ r. r.1) (handle-get db none j plain) in
      ap (λ r. handle_encryption bolt true true r.0 get none (key_path j)) saved
      ∙ handle-get after none j plain
      ∙ ap (λ r. (after, r))
          (get_encryption_key-put db after id key j put
            ∙ ap (λ r. if str_eq id j then key_reply bolt key else r) (sym before))
      ∙ ap
          (λ d. (
            d,
            if str_eq id j
                then key_reply bolt key
                else (handle_encryption bolt true true db get none (key_path j)).1,
          ))
          (ap (λ r. r.0) (sym saved))
