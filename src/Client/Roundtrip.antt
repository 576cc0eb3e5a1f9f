-- ===== src/Client/Roundtrip.antt =====
-- An upload by the client (internal/client/uploader.go).
use constelfs.Prelude.{
  ℕ, ◌-◌, ◌<◌, ◌≤◌, ◌^◌, String, Bool, true, false, List, [], ◌∷◌, ◌++◌, map, Option, none, some, ℤ,
  inl, inr, ◌⊎◌, ◌≡◌, refl, sym, ap, ◌∙◌, arith, length, Bool-cases, Option-cases, str_eq,
}
use constelfs.Server.Encryption.{Crypto, is_key, encrypt, decrypt}
use constelfs.Server.Encryption.Roundtrip.{IsCipher, decrypt-encrypt, encrypt_lem}
use constelfs.Client.Chunker.{rounds_up}
use constelfs.Client.Downloader.{decrypt_data, open_chunk}
use constelfs.Client.Uploader.{
  Call, create, Peer, LocalFile, ChunkUploader, UploadError, UploadResult, opened, encrypt_data,
  upload_data, generate_key, upload_key, upload_rounds, upload_id, create_version, after_create,
  after_rounds, upload, save_encryption_key, result_of, key_failed, Answer, lost, garbled, decoded,
}
use constelfs.Client.Uploader.Calls.{version_request, Sending, id_of, Stores}
use constelfs.Client.Uploader.Rounds.{open_all, upload_rounds-Stores, pieces_of_file}

module _ {crypto : Crypto String} (laws : IsCipher crypto) where
  -- The client's two functions are those of the server.
  encrypt_data_same :
      (iv : Option (List ℕ)) (bytes : List ℕ) (key : String)
      → encrypt_data crypto iv bytes key ≡ encrypt crypto iv bytes key
  unfolding encrypt_data encrypt
  encrypt_data_same iv bytes key = refl

  decrypt_data_same :
      (bytes : List ℕ) (key : String) → decrypt_data crypto bytes key ≡ decrypt crypto bytes key
  unfolding decrypt_data decrypt
  decrypt_data_same bytes key = refl

  encrypt_data-opened :
      (random : List ℕ) (iv : Option (List ℕ)) (piece bytes : List ℕ)
      → length random ≡ 32
      → ((n : List ℕ) → iv ≡ some n → length n ≡ 12)
      → encrypt_data crypto iv piece (crypto.encode random) ≡ some bytes
      → decrypt_data crypto bytes (crypto.encode random) ≡ some piece
  unfolding encrypt_data
  encrypt_data-opened random none piece bytes long twelve h =
      let k : is_key random ≡ true = ground (arith, long) in
      let fails : encrypt_data crypto none piece (crypto.encode random) ≡ none =
        rw (encrypt_data, laws.decode-encode random) (rw k refl) in
      absurd (cc (fails, h))
  encrypt_data-opened random (some n) piece bytes long twelve h =
      let k : is_key random ≡ true = ground (arith, long) in
      let text = crypto.encode random in
      let sent : encrypt_data crypto (some n) piece text ≡ some (n ++ crypto.seal random n piece) =
        encrypt_data_same (some n) piece text ∙ encrypt_lem laws random n piece k in
      let same : bytes ≡ n ++ crypto.seal random n piece = cc (sent, h) in
      rw same (decrypt_data_same _ text ∙ decrypt-encrypt laws random n piece k (twelve n refl))

  upload_data-opened :
      (encrypting : Bool) (random iv : Option (List ℕ)) (key : String) (piece bytes : List ℕ)
      → ((b : List ℕ) → random ≡ some b → length b ≡ 32)
      → ((n : List ℕ) → iv ≡ some n → length n ≡ 12)
      → upload_key crypto encrypting random ≡ some key
      → upload_data crypto encrypting key iv piece ≡ some bytes
      → open_chunk crypto key bytes ≡ some piece
  unfolding upload_data open_chunk upload_key generate_key
  upload_data-opened false random iv key piece bytes long twelve e h =
      let empty : key ≡ "" = cc (e) in let same : bytes ≡ piece = cc (h) in rw empty (ap some same)
  upload_data-opened true none iv key piece bytes long twelve e h = absurd (cc (e))
  upload_data-opened true (some b) iv key piece bytes long twelve e h =
      let made : key ≡ crypto.encode b = cc (e) in
      elim (Bool-cases (str_eq key "")) [
        | inl z ↦
            let plain : upload_data crypto true key iv piece ≡ some piece =
              rw (z, upload_data) refl in
            let same : bytes ≡ piece = cc (plain, h) in rw (z, open_chunk) (ap some same)
        | inr z ↦
            let secret : upload_data crypto true key iv piece ≡ encrypt_data crypto iv piece key =
              rw (z, upload_data) refl in
            rw (z, open_chunk)
              (rw made (
                encrypt_data-opened b iv piece bytes (long b refl) twelve
                  (ap (encrypt_data crypto iv piece) (sym made) ∙ sym secret ∙ h)))
      ]

module _ (peer : Peer) {crypto : Crypto String} (laws : IsCipher crypto) (sha256 : List ℕ → String)
    (u : ChunkUploader) where
  after_create-inr :
      (file : LocalFile) (key : String) (ids : List String) (calls : List Call)
      (o : Answer (Bool × String)) (r : UploadResult)
      → let done =
          result_of peer crypto sha256 u file key ids
            (after_create peer calls (upload_id peer crypto sha256 u file) key o) in
        done.1 ≡ inr r
        → (r ≡ record {
          file_id = upload_id peer crypto sha256 u file;
          chunks = ids;
          encryption_key = key;
        })
          × (done.0 ≡ save_encryption_key peer calls (upload_id peer crypto sha256 u file) key)
  after_create-inr file key ids calls lost r h = absurd (cc (h))
  after_create-inr file key ids calls garbled r h = absurd (cc (h))
  after_create-inr file key ids calls (decoded (false, e)) r h = absurd (cc (h))
  after_create-inr file key ids calls (decoded (true, e)) r h = (cc (h), refl)

  after_rounds-inr :
      (file : LocalFile) (key : String)
      (rounds : List Call × (UploadError ⊎ (List String × String))) (r : UploadResult)
      → let id = upload_id peer crypto sha256 u file in
        let done = after_rounds peer crypto sha256 u file key rounds in
        done.1 ≡ inr r
        → (ids : List String) × (hash : String) × ((rounds.1 ≡ inr (ids, hash))
            × (r ≡ record { file_id = id; chunks = ids; encryption_key = key })
            × (done.0
                ≡ save_encryption_key peer
                    (rounds.0 ++ (create (version_request file id hash ids) ∷ []))
                    id
                    key))
  unfolding create_version
  after_rounds-inr file key (calls, inl e) r h = absurd (cc (h))
  after_rounds-inr file key (calls, inr (ids, hash)) r h =
      let (result, sent) = after_create-inr file key ids _ _ r h in
      (ids, hash, (refl, result, sent))

  -- Let the upload of a file that has the size of its stat, below 2^63 - 2^28 bytes, succeed, with a key of 32
  -- random bytes if it encrypts, and nonces of 12. Then all its calls are: for each chunk, in order, a write
  -- that is granted, a PUT to each node that the answer names, each answered with 200, and a confirmation that
  -- succeeds; behind them a version of exactly these chunks, in order; and the key, unless it is empty. The
  -- bytes of the chunks, decrypted with the key of the result, are together the content of the file.
  pub upload-Stores :
      (file : LocalFile) (random : Option (List ℕ)) (nonces : ℕ → Option (List ℕ)) (replicas : ℤ)
      (r : UploadResult)
      → length file.content ≡ file.size
      → file.size < 2 ^ 63 - 2 ^ 28
      → 0 < u.chunk_size
      → u.chunk_size ≤ 2 ^ 27
      → ((b : List ℕ) → random ≡ some b → length b ≡ 32)
      → ((i : ℕ) (n : List ℕ) → nonces i ≡ some n → length n ≡ 12)
      → (upload peer crypto sha256 u (opened file) random nonces replicas).1 ≡ inr r
      → (xs : List Sending) × (stored : List Call) × (hash : String) × (Stores peer r.file_id
            replicas [] 0 xs stored
          × (r.chunks ≡ map id_of xs)
          × ((upload peer crypto sha256 u (opened file) random nonces replicas).0
              ≡ save_encryption_key peer
                  (stored ++ (create (version_request file r.file_id hash r.chunks) ∷ []))
                  r.file_id
                  r.encryption_key)
          × (open_all crypto r.encryption_key xs ≡ some file.content))
  unfolding upload
  upload-Stores file random nonces replicas r size low positive high long twelve h =
      elim (Option-cases (upload_key crypto u.encrypt random)) [
        | inl e ↦
            let fails : upload peer crypto sha256 u (opened file) random nonces replicas
                ≡ ([], inl key_failed) =
              rw (e, upload) refl in
            absurd (cc (ap (λ q. q.1) fails, h))
        | inr (key, e) ↦
            let id = upload_id peer crypto sha256 u file in
            let count = rounds_up file.size u.chunk_size in
            let rounds =
              upload_rounds peer crypto sha256 u file id key nonces replicas count 0 "" [] in
            let runs : upload peer crypto sha256 u (opened file) random nonces replicas
                ≡ after_rounds peer crypto sha256 u file key rounds =
              rw (e, upload) refl in
            let (ids, hash, (given, result, sent)) =
              after_rounds-inr file key rounds r (ap (λ q. q.1) (sym runs) ∙ h) in
            let (xs, (listed, all, whole)) =
              upload_rounds-Stores peer crypto sha256 u file id key nonces replicas
                (λ i piece bytes ready.
                  upload_data-opened laws u.encrypt random (nonces i) key piece bytes long
                    (twelve i) e ready)
                count 0 "" [] ids hash given in
            rw result (
              xs,
              rounds.0,
              hash,
              (
                all,
                listed,
                ap (λ q. q.0) runs ∙ sent,
                whole ∙ ap some (pieces_of_file u file size low positive high),
              ),
            )
      ]
