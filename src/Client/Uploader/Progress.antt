-- ===== src/Client/Uploader/Progress.antt =====
-- An upload for which every call is answered well succeeds (internal/client/uploader.go).
use constelfs.Prelude.{
  ℕ, zero, suc, String, Bool, true, false, List, [], ◌∷◌, ◌++◌, Option, none, some, ℤ, inl, inr,
  ◌⊎◌, ◌≡◌, refl, ap, ◌∙◌, arith, length, str_eq, Bool-cases,
}
use constelfs.Prelude.Text.Urls.{is_url}
use constelfs.Server.Content.{is_ok}
use constelfs.Server.Encryption.{Crypto, is_key}
use constelfs.Server.Encryption.Roundtrip.{IsCipher}
use constelfs.Client.Chunker.{rounds_up}
use constelfs.Client.Uploader.Calls.{write_call, version_request}
use constelfs.Client.Uploader.{
  create, Call, put_chunk, WriteAnswer, decoded, Peer, LocalFile, opened, ChunkError, UploadError,
  UploadResult, ChunkUploader, first_or, read_piece, generate_key, encrypt_data, upload_data,
  upload_key, upload_to_node, upload_to_nodes, after_puts, after_write, upload_chunk,
  create_version, with_chunk, after_chunk, upload_rounds, upload_id, after_rounds, upload,
}

-- Whatever was called before, each call is answered well, a write with the id of a chunk that can be sent in a URL.
pub record IsWilling (peer : Peer) : Type 0 where
  pub grants :
      (calls : List Call)
      → (a : WriteAnswer) × ((peer.on_write calls ≡ decoded a)
          × (a.success ≡ true)
          × (is_url (first_or a.chunk_id a.chunk_ids) ≡ true))
  pub takes : (calls : List Call) → is_ok (peer.on_put calls) ≡ true
  pub confirms : (calls : List Call) → peer.on_confirm calls ≡ decoded true
  pub creates : (calls : List Call) → (e : String) × (peer.on_create calls ≡ decoded (true, e))

module _ (peer : Peer) (willing : IsWilling peer) where
  upload_to_nodes-none :
      (calls : List Call) (id : String) (bytes : List ℕ) (addrs : List String)
      → is_url id ≡ true
      → (upload_to_nodes peer calls id bytes addrs).1 ≡ none
  unfolding upload_to_nodes upload_to_node
  upload_to_nodes-none calls id bytes [] sendable = refl
  upload_to_nodes-none calls id bytes (addr ∷ addrs) sendable =
      rw (sendable, willing.takes (calls ++ (put_chunk addr id bytes ∷ [])), upload_to_nodes)
        (upload_to_nodes-none _ id bytes addrs sendable)

  after_puts-id :
      (id hash : String) (r : List Call × Option String)
      → r.1 ≡ none
      → (after_puts peer id hash r).1 ≡ inr id
  after_puts-id id hash (calls, some addr) h = absurd (cc (h))
  after_puts-id id hash (calls, none) h = rw (willing.confirms _) refl

  upload_chunk-id :
      (calls : List Call) (file_id : String) (i : ℕ) (bytes : List ℕ) (hash : String) (replicas : ℤ)
      → (id : String) × ((upload_chunk peer calls file_id i bytes hash replicas).1 ≡ inr id)
  unfolding upload_chunk after_write
  upload_chunk-id calls file_id i bytes hash replicas =
      let (a, (granted, success, sendable)) =
        willing.grants (calls ++ (write_call file_id replicas i bytes ∷ [])) in
      (
        first_or a.chunk_id a.chunk_ids,
        rw granted (
            rw success
              (after_puts-id _ hash _ (upload_to_nodes-none _ _ bytes a.node_addrs sendable))),
      )

  module _ (crypto : Crypto String) (sha256 : List ℕ → String) (u : ChunkUploader) where
    -- Each piece of an upload with this key can be encrypted.
    abbrev IsReady : String → (ℕ → Option (List ℕ)) → Type 0
    IsReady key nonces =
        (i : ℕ) (piece : List ℕ)
        → (bytes : List ℕ) × (upload_data crypto u.encrypt key (nonces i) piece ≡ some bytes)

    with_chunk-next :
        (r : List Call × (UploadError ⊎ (List String × String))) (id : String) (ids : List String)
        (hash : String)
        → r.1 ≡ inr (ids, hash)
        → (with_chunk peer crypto sha256 u r id).1 ≡ inr (id ∷ ids, hash)
    with_chunk-next (calls, inl e) id ids hash h = absurd (cc (h))
    with_chunk-next (calls, inr (ids', hash')) id ids hash h =
        let same : ids' ≡ ids = cc (h) in
        let same_hash : hash' ≡ hash = cc (h) in rw (same, same_hash) refl

    after_chunk-next :
        (i : ℕ) (r : List Call × (ChunkError ⊎ String)) (id : String)
        (next : List Call → List Call × (UploadError ⊎ (List String × String)))
        → r.1 ≡ inr id
        → ((calls : List Call)
            → (ids : List String) × (hash : String) × ((next calls).1 ≡ inr (ids, hash)))
        → (ids : List String) × (hash : String) × ((after_chunk peer crypto sha256 u i r next).1
            ≡ inr (ids, hash))
    after_chunk-next i (calls, inl e) id next h rest = absurd (cc (h))
    after_chunk-next i (calls, inr id') id next h rest =
        let (ids, hash, more) = rest calls in
        (id' ∷ ids, hash, with_chunk-next (next calls) id' ids hash more)

    upload_rounds-ends :
        (file : LocalFile) (file_id key : String) (nonces : ℕ → Option (List ℕ)) (replicas : ℤ)
        → ((i : ℕ) → file.unreadable i ≡ false)
        → IsReady key nonces
        → (left i : ℕ) (last : String) (calls : List Call)
        → (ids : List String) × (hash : String) × ((upload_rounds peer crypto sha256 u file file_id
              key nonces replicas left i last calls).1
            ≡ inr (ids, hash))
    unfolding upload_rounds
    upload_rounds-ends file file_id key nonces replicas readable ready zero i last calls =
        ([], last, refl)
    upload_rounds-ends file file_id key nonces replicas readable ready (suc left) i last calls =
        let piece = read_piece u file i in
        let (bytes, e) = ready i piece in
        let (id, sent) = upload_chunk-id calls file_id i bytes (sha256 piece) replicas in
        rw (readable i, upload_rounds)
          (rw (e, upload_rounds)
            (after_chunk-next i _ id _ sent (
              upload_rounds-ends file file_id key nonces replicas readable ready left (suc i)
                (sha256 piece))))

    after_rounds-ends :
        (file : LocalFile) (key : String) (r : List Call × (UploadError ⊎ (List String × String)))
        (ids : List String) (hash : String)
        → r.1 ≡ inr (ids, hash)
        → (result : UploadResult) × ((after_rounds peer crypto sha256 u file key r).1 ≡ inr result)
    unfolding create_version
    after_rounds-ends file key (calls, inl e) ids hash h = absurd (cc (h))
    after_rounds-ends file key (calls, inr (ids', hash')) ids hash h =
        let request = version_request file (upload_id peer crypto sha256 u file) hash' ids' in
        let (e, made) = willing.creates (calls ++ (create request ∷ [])) in
        (
          record {
            file_id = upload_id peer crypto sha256 u file;
            chunks = ids';
            encryption_key = key;
          },
          rw made refl,
        )

  module _ {crypto : Crypto String} (laws : IsCipher crypto) (sha256 : List ℕ → String)
      (u : ChunkUploader) where
    encrypt_data-ends :
        (random n piece : List ℕ)
        → length random ≡ 32
        → (bytes : List ℕ) × (encrypt_data crypto (some n) piece (crypto.encode random)
            ≡ some bytes)
    unfolding encrypt_data
    encrypt_data-ends random n piece long =
        let k : is_key random ≡ true = ground (arith, long) in
        (n ++ crypto.seal random n piece, rw (encrypt_data, laws.decode-encode random) (rw k refl))

    upload_data-ends :
        (encrypting : Bool) (random n : List ℕ) (key : String) (piece : List ℕ)
        → length random ≡ 32
        → upload_key crypto encrypting (some random) ≡ some key
        → (bytes : List ℕ) × (upload_data crypto encrypting key (some n) piece ≡ some bytes)
    unfolding upload_data upload_key generate_key
    upload_data-ends false random n key piece long e = (piece, refl)
    upload_data-ends true random n key piece long e =
        let made : key ≡ crypto.encode random = cc (e) in
        elim (Bool-cases (str_eq key "")) [
          | inl z ↦ (piece, rw (z, upload_data) refl)
          | inr z ↦
              let (bytes, sent) = encrypt_data-ends random n piece long in
              (bytes, rw (z, upload_data) (ap (encrypt_data crypto (some n) piece) made ∙ sent))
        ]

    upload_key-made :
        (encrypting : Bool) (random : List ℕ)
        → (key : String) × (upload_key crypto encrypting (some random) ≡ some key)
    unfolding upload_key generate_key
    upload_key-made true random = (crypto.encode random, refl)
    upload_key-made false random = ("", refl)

    -- Let each call be answered well, the file be readable, and the source of random bytes not fail. Then `Upload`
    -- succeeds, for every file, with every number of chunks.
    pub upload-ends :
        (file : LocalFile) (random : List ℕ) (nonces : ℕ → List ℕ) (replicas : ℤ)
        → ((i : ℕ) → file.unreadable i ≡ false)
        → length random ≡ 32
        → (r : UploadResult) × ((upload peer crypto sha256 u
              (opened file)
              (some random)
              (λ i. some (nonces i))
              replicas).1
            ≡ inr r)
    unfolding upload
    upload-ends file random nonces replicas readable long =
        let (key, e) = upload_key-made u.encrypt random in
        let id = upload_id peer crypto sha256 u file in
        let (ids, hash, ends) =
          upload_rounds-ends crypto sha256 u file id key (λ i. some (nonces i)) replicas readable
            (λ i piece. upload_data-ends u.encrypt random (nonces i) key piece long e)
            (rounds_up file.size u.chunk_size) 0 "" [] in
        rw (e, upload) (after_rounds-ends crypto sha256 u file key _ ids hash ends)
