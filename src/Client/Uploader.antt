-- ===== src/Client/Uploader.antt =====
-- Uploads by the client, internal/client/uploader.go. An upload is the sequence of its calls: what the server and
-- the nodes answer to a call may depend on all calls so far. AES-GCM, base64, SHA-256 and the file are
-- parameters. The causes in the texts of errors are left out.
pub mod Calls
pub mod Rounds
pub mod Progress
use constelfs.Prelude.{
  ℕ, zero, suc, ◌+◌, ◌-◌, ◌*◌, String, Bool, true, false, List, [], ◌∷◌, ◌++◌, Option, none, some,
  ℤ, pos, inl, inr, ◌⊎◌, length, take, drop, str_eq, not, ◌&&◌, if◌then◌else◌,
}
use constelfs.Prelude.Text.{concat, decimal}
use constelfs.Prelude.Text.Urls.{is_url}
use constelfs.Server.Content.{is_ok}
use constelfs.Server.Encryption.{Crypto, is_key, sealed}
pub use constelfs.Client.Requests.{
  Call, WriteAnswer, Answer, Peer, LocalFile, Opened, ChunkError, UploadError, UploadResult,
  ChunkUploader, write, put_chunk, confirm, create, save_key, lost, garbled, decoded, not_opened,
  no_stat, opened, write_lost, write_garbled, write_refused, put_failed, confirm_lost,
  confirm_garbled, confirm_refused, open_failed, stat_failed, key_failed, read_failed,
  encrypt_failed, chunk_failed, version_lost, version_garbled, version_refused,
}
use constelfs.Client.Chunker.{clip, rounds_up}

-- A buffer of some size, behind the bytes that `ReadAt` finds.
abbrev pub zeros : ℕ → List ℕ
zeros zero = []
zeros (suc n) = 0 ∷ zeros n

-- What round `i` reads.
unfoldable pub read_piece : ChunkUploader → LocalFile → ℕ → List ℕ
read_piece u file i =
    let offset = i * u.chunk_size in
    let size = clip file.size u.chunk_size offset in
    let found = take size (drop offset file.content) in found ++ zeros (size - length found)

abbrev pub first_or : String → List String → String
first_or id [] = id
first_or id (first ∷ more) = first

module _ (crypto : Crypto String) where
  -- `generateKey`, from 32 random bytes, none if the source of random bytes fails.
  unfoldable pub generate_key : Option (List ℕ) → Option String
  generate_key none = none
  generate_key (some bytes) = some (crypto.encode bytes)

  -- `encryptData`, with the nonce in front of the sealed data.
  unfoldable pub encrypt_data : Option (List ℕ) → List ℕ → String → Option (List ℕ)
  encrypt_data nonce bytes text = elim (crypto.decode text) [
    | none ↦ none
    | some key ↦ if is_key key then sealed crypto key nonce bytes else none
  ]

  -- What is sent of a piece.
  unfoldable pub upload_data : Bool → String → Option (List ℕ) → List ℕ → Option (List ℕ)
  unfolding encrypt_data
  upload_data encrypt key nonce piece =
      if encrypt && not (str_eq key "") then encrypt_data nonce piece key else some piece

  -- The key of an upload, empty if it does not encrypt.
  unfoldable pub upload_key : Bool → Option (List ℕ) → Option String
  unfolding generate_key
  upload_key true random = generate_key random
  upload_key false random = some ""

module _ (peer : Peer) where
  -- `uploadToNode`: `http.NewRequest` refuses an id that is no URL, before any call. The id stands in the URL as it is.
  unfoldable pub upload_to_node : List Call → String → String → List ℕ → List Call × Bool
  upload_to_node calls addr id bytes =
      let calls' = calls ++ (put_chunk addr id bytes ∷ []) in
      if is_url id then (calls', is_ok (peer.on_put calls')) else (calls, false)

  -- The loop of `uploadChunk` over the nodes' addresses, and the address that it fails at.
  unfoldable pub upload_to_nodes :
      List Call → String → List ℕ → List String → List Call × Option String
  unfolding upload_to_node
  upload_to_nodes calls id bytes [] = (calls, none)
  upload_to_nodes calls id bytes (addr ∷ addrs) =
      let (calls', ok) = upload_to_node calls addr id bytes in
      let rest = upload_to_nodes calls' id bytes addrs in if ok then rest else (calls', some addr)

  abbrev pub after_confirm : List Call → String → Answer Bool → List Call × (ChunkError ⊎ String)
  after_confirm calls id lost = (calls, inl confirm_lost)
  after_confirm calls id garbled = (calls, inl confirm_garbled)
  after_confirm calls id (decoded true) = (calls, inr id)
  after_confirm calls id (decoded false) = (calls, inl confirm_refused)

  abbrev pub after_puts :
      String → String → List Call × Option String → List Call × (ChunkError ⊎ String)
  after_puts id hash (calls, some addr) = (calls, inl (put_failed addr))
  after_puts id hash (calls, none) =
      let calls' = calls ++ (confirm (record { chunk_id = id; hash = hash }) ∷ []) in
      after_confirm calls' id (peer.on_confirm calls')

  -- The rest of `uploadChunk` behind the answer to the write.
  unfoldable pub after_write :
      List Call → List ℕ → String → Answer WriteAnswer → List Call × (ChunkError ⊎ String)
  unfolding upload_to_nodes
  after_write calls bytes hash lost = (calls, inl write_lost)
  after_write calls bytes hash garbled = (calls, inl write_garbled)
  after_write calls bytes hash (decoded a) =
      let id = first_or a.chunk_id a.chunk_ids in
      if a.success
      then after_puts id hash (upload_to_nodes calls id bytes a.node_addrs)
      else (calls, inl (write_refused a.error))

  unfoldable pub upload_chunk :
      List Call → String → ℕ → List ℕ → String → ℤ → List Call × (ChunkError ⊎ String)
  unfolding after_write
  upload_chunk calls file_id i bytes hash replicas =
      let calls' =
        calls
        ++ (write (record {
          file_id = file_id;
          file_name = concat "chunk_" (decimal i);
          file_size = pos (length bytes);
          replicas = replicas;
        })
            ∷ []) in
      after_write calls' bytes hash (peer.on_write calls')

  -- `saveEncryptionKey` as `createVersion` calls it: its error is a warning.
  unfoldable pub save_encryption_key : List Call → String → String → List Call
  save_encryption_key calls file_id key =
      if str_eq key "" then calls else calls ++ (save_key file_id key ∷ [])

  abbrev pub after_create :
      List Call → String → String → Answer (Bool × String) → List Call × Option UploadError
  after_create calls file_id key lost = (calls, some version_lost)
  after_create calls file_id key garbled = (calls, some version_garbled)
  after_create calls file_id key (decoded (true, e)) = (save_encryption_key calls file_id key, none)
  after_create calls file_id key (decoded (false, e)) = (calls, some (version_refused e))

  -- `createVersion`, and its error.
  unfoldable pub create_version :
      List Call
      → String
      → LocalFile
      → String
      → List String
      → String
      → List Call × Option UploadError
  create_version calls file_id file hash chunk_ids key =
      let calls' =
        calls
        ++ (create (record {
          file_id = file_id;
          file_name = file.base;
          file_path = file.path;
          file_size = pos file.size;
          hash = hash;
          chunk_ids = chunk_ids;
          node_ids = [];
        })
            ∷ []) in
      after_create calls' file_id key (peer.on_create calls')

  module _ (crypto : Crypto String) (sha256 : List ℕ → String) (u : ChunkUploader) where
    -- The rounds behind one that has ended.
    abbrev pub with_chunk :
        List Call × (UploadError ⊎ (List String × String))
        → String
        → List Call × (UploadError ⊎ (List String × String))
    with_chunk (calls, inl e) id = (calls, inl e)
    with_chunk (calls, inr (ids, hash)) id = (calls, inr (id ∷ ids, hash))

    abbrev pub after_chunk :
        ℕ
        → List Call × (ChunkError ⊎ String)
        → (List Call → List Call × (UploadError ⊎ (List String × String)))
        → List Call × (UploadError ⊎ (List String × String))
    after_chunk i (calls, inl e) next = (calls, inl (chunk_failed i e))
    after_chunk i (calls, inr id) next = with_chunk (next calls) id

    -- The rounds that are left and the number of the next, with the hash of the piece before: the chunks' ids and
    -- the hash of the last.
    unfoldable pub upload_rounds :
        LocalFile
        → String
        → String
        → (ℕ → Option (List ℕ))
        → ℤ
        → ℕ
        → ℕ
        → String
        → List Call
        → List Call × (UploadError ⊎ (List String × String))
    unfolding upload_chunk read_piece upload_data
    upload_rounds file file_id key nonces replicas zero i last calls = (calls, inr ([], last))
    upload_rounds file file_id key nonces replicas (suc left) i last calls =
        let piece = read_piece u file i in
        let hash = sha256 piece in
        if file.unreadable i
        then (calls, inl read_failed)
        else elim (upload_data crypto u.encrypt key (nonces i) piece) [
          | none ↦ (calls, inl encrypt_failed)
          | some bytes ↦
              after_chunk i (upload_chunk calls file_id i bytes hash replicas)
                (λ calls'. upload_rounds file file_id key nonces replicas left (suc i) hash calls')
        ]

    abbrev pub upload_id : LocalFile → String
    upload_id file = concat (concat file.base "_") (decimal file.mod_time)

    abbrev pub result_of :
        LocalFile
        → String
        → List String
        → List Call × Option UploadError
        → List Call × (UploadError ⊎ UploadResult)
    result_of file key ids (calls, some e) = (calls, inl e)
    result_of file key ids (calls, none) =
        (calls, inr (record { file_id = upload_id file; chunks = ids; encryption_key = key }))

    abbrev pub after_rounds :
        LocalFile
        → String
        → List Call × (UploadError ⊎ (List String × String))
        → List Call × (UploadError ⊎ UploadResult)
    after_rounds file key (calls, inl e) = (calls, inl e)
    after_rounds file key (calls, inr (ids, hash)) =
        result_of file key ids (create_version calls (upload_id file) file hash ids key)

    -- `Upload`, with the key's random bytes and each round's nonce.
    unfoldable pub upload :
        Opened
        → Option (List ℕ)
        → (ℕ → Option (List ℕ))
        → ℤ
        → List Call × (UploadError ⊎ UploadResult)
    unfolding upload_rounds upload_key rounds_up
    upload not_opened random nonces replicas = ([], inl open_failed)
    upload no_stat random nonces replicas = ([], inl stat_failed)
    upload (opened file) random nonces replicas = elim (upload_key crypto u.encrypt random) [
      | none ↦ ([], inl key_failed)
      | some key ↦ after_rounds file key (
          upload_rounds file (upload_id file) key nonces replicas (rounds_up file.size u.chunk_size)
            0 "" [])
    ]
