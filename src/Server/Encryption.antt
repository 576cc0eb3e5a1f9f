-- ===== src/Server/Encryption.antt =====
-- Encryption of files: internal/server/encryption.go and encryption_integration.go. AES-GCM, base64 and the
-- bytes of a text are parameters; a random value is an argument, `none` where the source of random bytes fails.
-- A method of the integration that writes holds its lock, and is one step.
pub mod Roundtrip
use constelfs.Prelude.{
  ℕ, String, Bool, true, false, ◌||◌, List, ◌++◌, Option, none, some, Map, lookup, insert, remove,
  length, take, drop, ltb, ◌==◌, if◌then◌else◌, not,
}

-- The standard library's functions, for texts of type `Text`: base64, the bytes of a text and the text of bytes,
-- and `Seal` and `Open` of AES-GCM for a key and a nonce.
pub record Crypto (Text : Type 0) : Type 0 where
  pub encode : List ℕ → Text
  pub decode : Text → Option (List ℕ)
  pub to_bytes : Text → List ℕ
  pub of_bytes : List ℕ → Text
  pub seal : List ℕ → List ℕ → List ℕ → List ℕ
  pub open_sealed : List ℕ → List ℕ → List ℕ → Option (List ℕ)

-- The lengths that `aes.NewCipher` takes.
abbrev pub is_key : List ℕ → Bool
is_key key = length key == 16 || length key == 24 || length key == 32

module _ {Text : Type 0} (crypto : Crypto Text) where
  -- `GenerateKey`, from 32 random bytes.
  unfoldable pub generate_key : Option (List ℕ) → Option Text
  generate_key none = none
  generate_key (some bytes) = some (crypto.encode bytes)

  abbrev pub sealed : List ℕ → Option (List ℕ) → List ℕ → Option (List ℕ)
  sealed key none bytes = none
  sealed key (some nonce) bytes = some (nonce ++ crypto.seal key nonce bytes)

  -- `Encrypt`, with the nonce, of 12 bytes, in front of the sealed data.
  unfoldable pub encrypt : Option (List ℕ) → List ℕ → Text → Option (List ℕ)
  encrypt nonce bytes text = elim (crypto.decode text) [
    | none ↦ none
    | some key ↦ if is_key key then sealed key nonce bytes else none
  ]

  -- `Decrypt`.
  unfoldable pub decrypt : List ℕ → Text → Option (List ℕ)
  decrypt bytes text = elim (crypto.decode text) [
    | none ↦ none
    | some key ↦
        if not (is_key key)
        then none
        else if ltb (length bytes) 12
        then none
        else crypto.open_sealed key (take 12 bytes) (drop 12 bytes)
  ]

  -- `GenerateKeyForFile`.
  unfoldable pub generate_key_for_file :
      Map Text → String → Option (List ℕ) → Map Text × Option Text
  unfolding generate_key
  generate_key_for_file keys id random = elim (generate_key random) [
    | none ↦ (keys, none)
    | some key ↦ (insert id key keys, some key)
  ]

  -- `GetKeyForFile`.
  unfoldable pub get_key_for_file : Map Text → String → Option Text
  get_key_for_file keys id = lookup id keys

  -- `EncryptData`.
  unfoldable pub encrypt_data : Map Text → String → Option (List ℕ) → List ℕ → Option (List ℕ)
  unfolding get_key_for_file encrypt
  encrypt_data keys id nonce bytes = elim (get_key_for_file keys id) [
    | none ↦ none
    | some key ↦ encrypt nonce bytes key
  ]

  -- `DecryptData`.
  unfoldable pub decrypt_data : Map Text → String → List ℕ → Option (List ℕ)
  unfolding get_key_for_file decrypt
  decrypt_data keys id bytes = elim (get_key_for_file keys id) [
    | none ↦ none
    | some key ↦ decrypt bytes key
  ]

  -- `DeleteKeyForFile`.
  unfoldable pub delete_key_for_file : Map Text → String → Map Text
  delete_key_for_file keys id = remove id keys

  -- `ExportKey`: the key's text once more in base64.
  unfoldable pub export_key : Map Text → String → Option Text
  unfolding get_key_for_file
  export_key keys id = elim (get_key_for_file keys id) [
    | none ↦ none
    | some key ↦ some (crypto.encode (crypto.to_bytes key))
  ]

  -- `ImportKey`, with whether it returns nil.
  unfoldable pub import_key : Map Text → String → Text → Map Text × Bool
  import_key keys id text = elim (crypto.decode text) [
    | none ↦ (keys, false)
    | some bytes ↦ (insert id (crypto.of_bytes bytes) keys, true)
  ]
