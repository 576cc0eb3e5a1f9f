-- ===== src/Client/Downloader.antt =====
-- Downloads by the client, internal/client/downloader.go. What the server and the nodes answer to its GETs is a
-- parameter. The causes in the texts of errors are left out, and so are the progress lines.
use constelfs.Prelude.{
  ℕ, suc, String, Bool, true, false, List, [], ◌∷◌, ◌++◌, Option, none, some, ℤ, pos, inl, inr, ◌⊎◌,
  length, take, drop, ltb, str_eq, eq_ℤ, not, ◌==◌, if◌then◌else◌,
}
use constelfs.Prelude.Text.{concat, format_int}
use constelfs.Server.State.{FileVersion}
use constelfs.Server.Encryption.{Crypto, is_key}

-- No response, or a status with what the body decodes to.
pub data Reply (A : Type 0) : Type 0 where
  lost : Reply A
  replied : ℕ → Option A → Reply A

-- What the GETs give: a file's information, asked for the first or the second time, the key of a file, the replicas
-- of a chunk, a node's address and port, and a chunk at a node's address.
pub record Source : Type 0 where
  pub file : ℕ → String → Reply (List FileVersion)
  pub key : String → Reply String
  pub status : String → Reply (List String)
  pub node : String → Reply (String × ℤ)
  pub chunk : String → String → Reply (List ℕ)

pub data DownloadError : Type 0 where
  info_failed : DownloadError
  versions_failed : DownloadError
  no_versions : DownloadError
  unknown_version : ℤ → DownloadError
  chunk_failed : ℕ → DownloadError
  decrypt_failed : ℕ → DownloadError
  save_failed : DownloadError

-- The body behind a status that is 200.
abbrev pub ok_body : {A : Type 0} → Reply A → Option A
ok_body lost = none
ok_body (replied code body) = if code == 200 then body else none

-- The body whatever the status is.
abbrev pub any_body : {A : Type 0} → Reply A → Option A
any_body lost = none
any_body (replied code body) = body

-- `decryptData`.
module _ (crypto : Crypto String) where
  unfoldable pub decrypt_data : List ℕ → String → Option (List ℕ)
  decrypt_data bytes text = elim (crypto.decode text) [
    | none ↦ none
    | some key ↦
        if not (is_key key)
        then none
        else if ltb (length bytes) 12
        then none
        else crypto.open_sealed key (take 12 bytes) (drop 12 bytes)
  ]

  -- What a chunk is decrypted to: itself, if there is no key.
  unfoldable pub open_chunk : String → List ℕ → Option (List ℕ)
  unfolding decrypt_data
  open_chunk key bytes = if str_eq key "" then some bytes else decrypt_data bytes key

abbrev or_empty : Option String → String
or_empty none = ""
or_empty (some key) = key

module _ (source : Source) where
  -- `getFileInfo`, whether it succeeds.
  unfoldable pub get_file_info : String → Option (List FileVersion)
  get_file_info id = ok_body (source.file 0 id)

  unfoldable pub get_versions : ℕ → String → Option (List FileVersion)
  get_versions time id = ok_body (source.file time id)

  -- `getEncryptionKey`, whose error the callers drop.
  unfoldable pub get_encryption_key : String → String
  get_encryption_key id = or_empty (ok_body (source.key id))

  -- `getNodeAddress`, which does not look at the status.
  unfoldable pub get_node_address : String → Option String
  get_node_address node_id = elim (any_body (source.node node_id)) [
    | none ↦ none
    | some (ip, port) ↦ some (concat (concat ip ":") (format_int port))
  ]

  unfoldable pub download_from_node : String → String → Option (List ℕ)
  download_from_node addr id = ok_body (source.chunk addr id)

  -- The loop over the replicas.
  unfoldable pub first_replica : String → List String → Option (List ℕ)
  unfolding get_node_address download_from_node
  first_replica id [] = none
  first_replica id (node_id ∷ more) =
      let rest = first_replica id more in
      elim (get_node_address node_id) [
        | none ↦ rest
        | some addr ↦ elim (download_from_node addr id) [ none ↦ rest | some bytes ↦ some bytes ]
      ]

  unfoldable pub download_chunk : String → Option (List ℕ)
  unfolding first_replica
  download_chunk id = elim (ok_body (source.status id)) [
    | none ↦ none
    | some replicas ↦ first_replica id replicas
  ]

  module _ (crypto : Crypto String) where
    -- The loop over the chunks, with the number of the first.
    unfoldable pub gather_chunks : String → ℕ → List String → DownloadError ⊎ List ℕ
    unfolding download_chunk open_chunk
    gather_chunks key i [] = inr []
    gather_chunks key i (id ∷ ids) =
        let rest = gather_chunks key (suc i) ids in
        elim (download_chunk id) [
          | none ↦ inl (chunk_failed i)
          | some bytes ↦ elim (open_chunk crypto key bytes) [
            | none ↦ inl (decrypt_failed i)
            | some piece ↦ elim rest [ inl e ↦ inl e | inr more ↦ inr (piece ++ more) ]
          ]
        ]

    -- `os.WriteFile`, which `saves` tells the success of.
    abbrev pub saved : Bool → DownloadError ⊎ List ℕ → DownloadError ⊎ List ℕ
    saved saves (inl e) = inl e
    saved true (inr bytes) = inr bytes
    saved false (inr bytes) = inl save_failed

    abbrev pub last_of : FileVersion → List FileVersion → FileVersion
    last_of v [] = v
    last_of v (w ∷ ws) = last_of w ws

    abbrev pub of_versions : Bool → String → Option (List FileVersion) → DownloadError ⊎ List ℕ
    of_versions saves key none = inl versions_failed
    of_versions saves key (some []) = inl no_versions
    of_versions saves key (some (v ∷ vs)) =
        saved saves (gather_chunks key 0 (last_of v vs).chunk_ids)

    -- `Download`, with what it writes to the file.
    unfoldable pub download : String → Bool → DownloadError ⊎ List ℕ
    unfolding get_file_info get_versions get_encryption_key
    download id saves = elim (get_file_info id) [
      | none ↦ inl info_failed
      | some versions ↦ of_versions saves (get_encryption_key id) (get_versions 1 id)
    ]

    -- The search loop of `DownloadVersion`.
    unfoldable pub version_numbered : ℤ → List FileVersion → Option FileVersion
    version_numbered n [] = none
    version_numbered n (v ∷ vs) =
        let rest = version_numbered n vs in if eq_ℤ (pos v.version) n then some v else rest

    -- `DownloadVersion`.
    unfoldable pub download_version : String → ℤ → Bool → DownloadError ⊎ List ℕ
    unfolding get_versions get_encryption_key version_numbered gather_chunks
    download_version id n saves = elim (get_versions 0 id) [
      | none ↦ inl versions_failed
      | some versions ↦ elim (version_numbered n versions) [
        | none ↦ inl (unknown_version n)
        | some v ↦ saved saves (gather_chunks (get_encryption_key id) 0 v.chunk_ids)
      ]
    ]
