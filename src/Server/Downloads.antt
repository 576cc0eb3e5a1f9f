-- ===== src/Server/Downloads.antt =====
-- Downloads of files through the server: `downloadFile` of internal/server/file_manager.go and
-- `DownloadFromNode` of storage.go. What nodes answer is a parameter.
use constelfs.Prelude.{
  String, List, [], ◌∷◌, ◌++◌, ℕ, Option, none, some, lookup, ℤ, pos, inl, inr, ◌⊎◌, eq_ℤ, ◌||◌,
  if◌then◌else◌,
}
use constelfs.Prelude.Text.{concat}
use constelfs.Server.State.{FileInfo, FileVersion, Server, Response, error, content, manager_nodes}
use constelfs.Server.Transfer.{Network, found, all_failed, download_chunk_with_fallback}
use constelfs.Server.Files.{versions_of, find_version}

module _ (net : Network) where
  -- `DownloadFromNode`.
  unfoldable pub download_from_node : Server → String → Option (List ℕ)
  unfolding download_chunk_with_fallback
  download_from_node s id = elim (lookup id s.chunks) [
    | none ↦ none
    | some c ↦ elim c.replicas [
      | [] ↦ none
      | r ∷ rs ↦ elim (download_chunk_with_fallback net (manager_nodes s) id (r ∷ rs)) [
        | found bytes node_id ↦ some bytes
        | all_failed none ↦ some []
        | all_failed (some e) ↦ none
      ]
    ]
  ]

  -- The loop over the chunks: their bytes, or the id of the first chunk that fails.
  unfoldable pub gather : Server → List String → String ⊎ List ℕ
  unfolding download_from_node
  gather s [] = inr []
  gather s (id ∷ ids) = elim (download_from_node s id) [
    | none ↦ inl id
    | some bytes ↦ elim (gather s ids) [ inl bad ↦ inl bad | inr more ↦ inr (bytes ++ more) ]
  ]

  unfoldable pub last_version : FileVersion → List FileVersion → FileVersion
  last_version v [] = v
  last_version v (w ∷ ws) = last_version w ws

  -- The version that a download of number `n` serves; 0 stands for the latest.
  unfoldable pub target_version : FileInfo → List FileVersion → ℤ → Option FileVersion
  unfolding last_version find_version
  target_version file [] n = none
  target_version file (v ∷ vs) n =
      if eq_ℤ n (pos 0) || eq_ℤ n (pos file.latest_version)
      then some (last_version v vs)
      else find_version n (v ∷ vs)

  abbrev no_version : List FileVersion → Response
  no_version [] = error 404 "{\"error\":\"No versions available\"}"
  no_version (v ∷ vs) = error 404 "{\"error\":\"Version not found\"}"

  -- `downloadFile`; the cause of a failed chunk is left out of the text.
  unfoldable pub download_file : Server → String → ℤ → Response
  unfolding gather target_version
  download_file s id n = elim (lookup id s.files) [
    | none ↦ error 404 "{\"error\":\"File not found\"}"
    | some file ↦ elim (target_version file (versions_of s id) n) [
      | none ↦ no_version (versions_of s id)
      | some v ↦ elim (gather s v.chunk_ids) [
        | inl bad ↦ error 500 (concat (concat "Download chunk " bad) " failed")
        | inr bytes ↦ content file.file_name bytes
      ]
    ]
  ]
