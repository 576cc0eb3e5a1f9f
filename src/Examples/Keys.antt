-- ===== src/Examples/Keys.antt =====
-- The theorem on encryption, applied with texts that are their bytes and a cipher that hides nothing.
use constelfs.Prelude.{
  ℕ, zero, suc, List, [], ◌∷◌, ◌++◌, some, Map, ◌≡◌, refl, ap, length, drop, drop-append_length,
}
use constelfs.Server.Encryption.{
  Crypto, generate_key_for_file, encrypt_data, decrypt_data, export_key, import_key,
}
use constelfs.Server.Encryption.Roundtrip.{IsCrypto, decrypt_data-encrypt_data}

-- Sealed data is the key followed by the data.
abbrev keyed : Crypto (List ℕ)
keyed = record {
  encode = λ bytes. bytes;
  decode = λ text. some text;
  to_bytes = λ text. text;
  of_bytes = λ bytes. bytes;
  seal = λ key nonce bytes. key ++ bytes;
  open_sealed = λ key nonce bytes. some (drop (length key) bytes);
}

keyed-IsCrypto : IsCrypto keyed
keyed-IsCrypto = record {
  cipher = record {
    decode-encode = λ bytes. refl;
    open_sealed-seal = λ key nonce bytes k n. ap some (drop-append_length key bytes);
  };
  of_bytes-to_bytes = λ text. refl;
}

abbrev repeat : ℕ → ℕ → List ℕ
repeat zero x = []
repeat (suc n) x = x ∷ repeat n x

abbrev no_keys : Map (List ℕ)
no_keys = []

decrypt_data-encrypt_data_example :
    let keys = (generate_key_for_file keyed no_keys "f" (some (repeat 32 7))).0 in
    (cipher : List ℕ) × (exported : List ℕ) × (encrypt_data keyed keys "f"
        (some (repeat 12 1))
        (10 ∷ 20 ∷ [])
      ≡ some cipher)
    × (decrypt_data keyed keys "f" cipher ≡ some (10 ∷ 20 ∷ []))
    × (export_key keyed keys "f" ≡ some exported)
    × (decrypt_data keyed (import_key keyed keys "g" exported).0 "g" cipher ≡ some (10 ∷ 20 ∷ []))
decrypt_data-encrypt_data_example =
    decrypt_data-encrypt_data keyed-IsCrypto no_keys "f" "g" (repeat 32 7) (repeat 12 1)
      (10 ∷ 20 ∷ []) refl refl
