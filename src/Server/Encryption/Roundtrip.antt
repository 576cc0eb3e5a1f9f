-- ===== src/Server/Encryption/Roundtrip.antt =====
-- What is encrypted for a file is decrypted again (internal/server/encryption.go, encryption_integration.go).
use constelfs.Prelude.{
  ℕ, String, true, false, List, ◌++◌, some, Map, lookup, ◌≡◌, refl, arith, length, take, drop, ltb,
  length-append, take-append_length, drop-append_length, lookup-insert_self, insert,
}
use constelfs.Server.Encryption.{
  Crypto, is_key, generate_key, encrypt, decrypt, generate_key_for_file, get_key_for_file,
  encrypt_data, decrypt_data, export_key, import_key,
}

-- Base64 can be undone, and AES-GCM opens what it sealed with the same key and nonce.
pub record IsCipher {Text : Type 0} (crypto : Crypto Text) : Type 0 where
  pub decode-encode : (bytes : List ℕ) → crypto.decode (crypto.encode bytes) ≡ some bytes
  pub open_sealed-seal :
      (key nonce bytes : List ℕ)
      → is_key key ≡ true
      → length nonce ≡ 12
      → crypto.open_sealed key nonce (crypto.seal key nonce bytes) ≡ some bytes

-- And the bytes of a text can be undone.
pub record IsCrypto {Text : Type 0} (crypto : Crypto Text) : Type 0 where
  pub cipher : IsCipher crypto
  pub of_bytes-to_bytes : (text : Text) → crypto.of_bytes (crypto.to_bytes text) ≡ text

module _ {Text : Type 0} {crypto : Crypto Text} (laws : IsCipher crypto) where
  pub decrypt-encrypt :
      (key nonce bytes : List ℕ)
      → is_key key ≡ true
      → length nonce ≡ 12
      → decrypt crypto (nonce ++ crypto.seal key nonce bytes) (crypto.encode key) ≡ some bytes
  unfolding decrypt
  decrypt-encrypt key nonce bytes k n =
      let c = crypto.seal key nonce bytes in
      let long : ltb (length (nonce ++ c)) 12 ≡ false = ground (arith, length-append nonce c, n) in
      let front : take 12 (nonce ++ c) ≡ nonce = rw (← n) (take-append_length nonce c) in
      let back : drop 12 (nonce ++ c) ≡ c = rw (← n) (drop-append_length nonce c) in
      rw (decrypt, laws.decode-encode key)
        (rw (k, long, front, back) (laws.open_sealed-seal key nonce bytes k n))

  pub encrypt_lem :
      (key nonce bytes : List ℕ)
      → is_key key ≡ true
      → encrypt crypto (some nonce) bytes (crypto.encode key)
        ≡ some (nonce ++ crypto.seal key nonce bytes)
  unfolding encrypt
  encrypt_lem key nonce bytes k = rw (encrypt, laws.decode-encode key) (rw k refl)

module _ {Text : Type 0} {crypto : Crypto Text} (laws : IsCrypto crypto) where
  -- The key of a file decides what `EncryptData`, `DecryptData` and `ExportKey` do.
  decrypt_data_known :
      (keys : Map Text) (id : String) (key nonce bytes : List ℕ)
      → lookup id keys ≡ some (crypto.encode key)
      → is_key key ≡ true
      → length nonce ≡ 12
      → decrypt_data crypto keys id (nonce ++ crypto.seal key nonce bytes) ≡ some bytes
  unfolding decrypt_data get_key_for_file
  decrypt_data_known keys id key nonce bytes e k n =
      rw (decrypt_data, e) (decrypt-encrypt laws.cipher key nonce bytes k n)

  encrypt_data_known :
      (keys : Map Text) (id : String) (key nonce bytes : List ℕ)
      → lookup id keys ≡ some (crypto.encode key)
      → is_key key ≡ true
      → encrypt_data crypto keys id (some nonce) bytes ≡ some (nonce ++ crypto.seal key nonce bytes)
  unfolding encrypt_data get_key_for_file
  encrypt_data_known keys id key nonce bytes e k =
      rw (encrypt_data, e) (encrypt_lem laws.cipher key nonce bytes k)

  export_key_known :
      (keys : Map Text) (id : String) (key : Text)
      → lookup id keys ≡ some key
      → export_key crypto keys id ≡ some (crypto.encode (crypto.to_bytes key))
  unfolding export_key get_key_for_file
  export_key_known keys id key e = rw (export_key, e) refl

  lookup-import_key :
      (keys : Map Text) (id : String) (key : Text)
      → lookup id (import_key crypto keys id (crypto.encode (crypto.to_bytes key))).0 ≡ some key
  unfolding import_key
  lookup-import_key keys id key =
      rw (import_key, laws.cipher.decode-encode (crypto.to_bytes key))
        (rw (laws.of_bytes-to_bytes key) (lookup-insert_self id key keys))

  -- After a key is generated for a file from 32 random bytes, data encrypted for it with any nonce of 12 bytes is
  -- decrypted to itself for the file; and so it is for any file to which the exported key is imported.
  pub decrypt_data-encrypt_data :
      (keys : Map Text) (id copy : String) (random nonce bytes : List ℕ)
      → length random ≡ 32
      → length nonce ≡ 12
      → let keys' = (generate_key_for_file crypto keys id (some random)).0 in
        (cipher : List ℕ) × (exported : Text) × (encrypt_data crypto keys' id (some nonce) bytes
          ≡ some cipher)
        × (decrypt_data crypto keys' id cipher ≡ some bytes)
        × (export_key crypto keys' id ≡ some exported)
        × (decrypt_data crypto (import_key crypto keys' copy exported).0 copy cipher ≡ some bytes)
  unfolding generate_key_for_file generate_key
  decrypt_data-encrypt_data keys id copy random nonce bytes r n =
      let k : is_key random ≡ true = ground (arith, r) in
      let key = crypto.encode random in
      let keys' = insert id key keys in
      let here : lookup id keys' ≡ some key = lookup-insert_self id key keys in
      (
        nonce ++ crypto.seal random nonce bytes,
        crypto.encode (crypto.to_bytes key),
        encrypt_data_known keys' id random nonce bytes here k,
        decrypt_data_known keys' id random nonce bytes here k n,
        export_key_known keys' id key here,
        decrypt_data_known _ copy random nonce bytes (lookup-import_key keys' copy key) k n,
      )
