-- ===== src/Server/Keys.antt =====
-- The keys of encrypted files: the routes of internal/server/encryption_api.go, over the bbolt database, which is a
-- parameter, and the key map of the encryption manager (encryption.go), which the routes do not use.
pub mod Kept
use constelfs.Prelude.{
  String, Bool, true, false, List, [], ◌∷◌, Option, none, some, Map, lookup, insert, remove, str_eq,
  ◌&&◌, if◌then◌else◌,
}
use constelfs.Prelude.Text.{trim_prefix, split}
use constelfs.Server.State.{Response, error, success, key_info}
use constelfs.Server.Nodes.{Method, get, post}
use constelfs.Server.Routes.{is_get, is_post}
use constelfs.Server.Persistence.Database.{Bolt, Stored, text}

-- The bucket holds texts only.
abbrev pub as_text : Option Stored → String
as_text (some (text t)) = t
as_text _ = ""

module _ {Db : Type 0} (bolt : Bolt Db) where
  abbrev pub after_save : Db → Option Db → Db × Response
  after_save db none = (db, error 500 "保存密钥失败")
  after_save db (some db') = (db', success)

  -- `saveEncryptionKey`: `persist` tells whether the server has a database, and `body` is the file's id and its key,
  -- if the request decodes.
  unfoldable pub save_encryption_key : Bool → Db → Option (String × String) → Db × Response
  save_encryption_key persist db none = (db, error 400 "Invalid request")
  save_encryption_key true db (some (id, key)) =
      after_save db (bolt.put "EncryptionKeys" id (text key) db)
  save_encryption_key false db (some (id, key)) = (db, success)

  abbrev pub key_reply : String → Response
  key_reply key = if str_eq key "" then error 404 "密钥不存在" else key_info key

  -- `getEncryptionKey`; a read-only transaction fails if the database is shut.
  unfoldable pub get_encryption_key : Bool → Bool → Db → String → Response
  get_encryption_key false readable db id = error 500 "持久化未启用"
  get_encryption_key true false db id = error 500 "获取密钥失败"
  get_encryption_key true true db id =
      key_reply (as_text (lookup id (bolt.entries "EncryptionKeys" db)))

  -- The switch of `HandleEncryption` on the parts of the path.
  unfoldable pub dispatch_encryption :
      Bool → Bool → Db → Method → Option (String × String) → List String → Db × Response
  unfolding save_encryption_key get_encryption_key
  dispatch_encryption persist readable db m body (a ∷ []) =
      if str_eq a "key" && is_post m
      then save_encryption_key persist db body
      else (db, error 404 "Not found")
  dispatch_encryption persist readable db m body (a ∷ id ∷ []) =
      if str_eq a "key" && is_get m
      then (db, get_encryption_key persist readable db id)
      else (db, error 404 "Not found")
  dispatch_encryption persist readable db m body _ = (db, error 404 "Not found")

  -- `HandleEncryption`.
  unfoldable pub handle_encryption :
      Bool → Bool → Db → Method → Option (String × String) → String → Db × Response
  unfolding dispatch_encryption
  handle_encryption persist readable db m body path =
      dispatch_encryption persist readable db m body
        (split (trim_prefix path "/api/v1/encryption/"))

-- `SaveKey`, `GetKey` and `DeleteKey` of the encryption manager.
unfoldable pub save_key : Map String → String → String → Map String
save_key keys id key = insert id key keys

unfoldable pub get_key : Map String → String → Option String
get_key keys id = lookup id keys

unfoldable pub delete_key : Map String → String → Map String
delete_key keys id = remove id keys
