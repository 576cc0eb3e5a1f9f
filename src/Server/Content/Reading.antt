-- ===== src/Server/Content/Reading.antt =====
-- What a download reads (`downloadFile` of internal/server/file_manager.go): the tables, and no transactions.
use constelfs.Prelude.{
  ℕ, String, List, [], ◌∷◌, some, lookup, insert, ◌≡◌, refl, arith, ℤ, pos, inr,
}
use constelfs.Server.State.{
  FileInfo, FileVersion, Server, Write, save, save_file, save_version, manager_nodes, content,
}
use constelfs.Server.Transfer.{Network}
use constelfs.Server.Versions.{VersionSort, cleanup_old_versions}
use constelfs.Server.Files.{versions_of, add_version}
use constelfs.Server.Downloads.{
  download_from_node, gather, last_version, target_version, download_file,
}
use constelfs.Server.Files.Invariant.{files-save, versions-save}
use constelfs.Server.Files.Rollback.{chunks-save}
use constelfs.Server.Content.Delivery.{manager_nodes-save}

module _ (net : Network) where
  pub from_node-same :
      (s t : Server) (id : String)
      → t.chunks ≡ s.chunks
      → manager_nodes t ≡ manager_nodes s
      → download_from_node net t id ≡ download_from_node net s id
  unfolding download_from_node
  from_node-same s t id chunks nodes = ground (arith, chunks, nodes)

  pub gather-same :
      (s t : Server) (ids : List String)
      → t.chunks ≡ s.chunks
      → manager_nodes t ≡ manager_nodes s
      → gather net t ids ≡ gather net s ids
  unfolding gather
  gather-same s t [] chunks nodes = refl
  gather-same s t (id ∷ ids) chunks nodes =
      ground (arith, from_node-same s t id chunks nodes, gather-same s t ids chunks nodes)

  pub download-same :
      (s t : Server) (id : String) (n : ℤ)
      → t.files ≡ s.files
      → t.versions ≡ s.versions
      → t.chunks ≡ s.chunks
      → manager_nodes t ≡ manager_nodes s
      → download_file net t id n ≡ download_file net s id n
  unfolding download_file
  download-same s t id n files versions chunks nodes =
      grind (arith, files, versions, gather-same s t)

  pub download-save :
      (s : Server) (w : Write) (id : String) (n : ℤ)
      → download_file net (save w s) id n ≡ download_file net s id n
  download-save s w id n =
      download-same s (save w s) id n (files-save w s) (versions-save w s) (chunks-save w s)
        (manager_nodes-save s s.chunks w)

  -- A file with one version.
  pub download-listed :
      (t : Server) (id : String) (file : FileInfo) (v : FileVersion) (bytes : List ℕ)
      → lookup id t.files ≡ some file
      → versions_of t id ≡ v ∷ []
      → gather net t v.chunk_ids ≡ inr bytes
      → download_file net t id (pos 0) ≡ content file.file_name bytes
  unfolding download_file target_version last_version
  download-listed t id file v bytes listed versions e =
      rw (listed, download_file) (rw (versions, download_file) (rw (e, download_file) refl))

pub add_version-first :
    (order : VersionSort) (s : Server) (id : String) (file : FileInfo) (v : FileVersion)
    → versions_of s id ≡ []
    → file.max_versions ≡ 3
    → add_version order s id file v
      ≡ save (save_version id v) (
          save
            (save_file file)
            (record s { files = insert id file s.files; versions = insert id (v ∷ []) s.versions }))
unfolding add_version cleanup_old_versions
add_version-first order s id file v empty limit =
    rw (empty, add_version) (rw (limit, add_version) refl)
