-- ===== src/Server/Versions.antt =====
-- The version manager, internal/server/version.go. A file is a shared object in the source: each
-- operation here returns it as it leaves it, and the handlers store it back.
use constelfs.Prelude.{
  ◌+◌, ◌-◌, String, Bool, List, [], ◌∷◌, ℤ, pos, length, take, drop, ltb, leb, if◌then◌else◌, ◌+ℤ◌,
  ◌-ℤ◌,
}
use constelfs.Prelude.Text.{concat, decimal}
use constelfs.Server.State.{Time, FileInfo, FileVersion, Server}
use constelfs.Server.Storage.{remove_chunk}

-- `generateVersionID`, from the clock's reading.
unfoldable pub generate_version_id : Time → String
generate_version_id now = concat "v_" (decimal now)

-- `CreateNewVersion`, with the file as it leaves it.
unfoldable pub create_new_version :
    Time → FileInfo → List String → List String → ℤ → String → FileInfo × FileVersion
create_new_version now file chunk_ids node_ids size hash = (
  record file {
    latest_version = file.latest_version + 1;
    version_count = file.version_count +ℤ pos 1;
    size = size;
    updated_at = now;
  },
  record {
    version_id = generate_version_id now;
    file_id = file.file_id;
    version = file.latest_version + 1;
    size = size;
    hash = hash;
    chunk_ids = chunk_ids;
    node_ids = node_ids;
    created_at = now;
  },
)

-- `RollbackToVersion`: a new version with the chunks of the old one.
unfoldable pub rollback_to_version : Time → FileInfo → FileVersion → FileInfo × FileVersion
rollback_to_version now file target = (
  record file {
    latest_version = file.latest_version + 1;
    version_count = file.version_count +ℤ pos 1;
    size = target.size;
    updated_at = now;
  },
  record {
    version_id = generate_version_id now;
    file_id = file.file_id;
    version = file.latest_version + 1;
    size = target.size;
    hash = target.hash;
    chunk_ids = target.chunk_ids;
    node_ids = target.node_ids;
    created_at = now;
  },
)

-- The loop of `DeleteVersion` over the chunks; an error of `DeleteChunk` is only logged.
unfoldable pub delete_chunks : Server → List String → Server
delete_chunks s [] = s
delete_chunks s (id ∷ ids) = delete_chunks (remove_chunk s id).0 ids

unfoldable pub delete_version : Server → FileVersion → Server
unfolding delete_chunks
delete_version s v = delete_chunks s v.chunk_ids

-- The loop of `CleanupOldVersions`. `DeleteVersion` returns nil always, so each version counts.
unfoldable pub delete_versions : Server → FileInfo → List FileVersion → Server × FileInfo
delete_versions s file [] = (s, file)
delete_versions s file (v ∷ vs) =
    delete_versions (delete_version s v)
      (record file { version_count = file.version_count -ℤ pos 1 }) vs

abbrev pub older : FileVersion → FileVersion → Bool
older a b = ltb a.version b.version

abbrev pub VersionSort : Type 0
VersionSort = (FileVersion → FileVersion → Bool) → List FileVersion → List FileVersion

unfoldable pub cleanup_old_versions :
    VersionSort → Server → FileInfo → List FileVersion → Server × FileInfo × List FileVersion
unfolding delete_versions
cleanup_old_versions sort s file versions =
    let sorted = sort older versions in
    let surplus = length sorted - file.max_versions in
    let (t, file') = delete_versions s file (take surplus sorted) in
    if leb (length versions) file.max_versions
    then (s, file, versions)
    else (t, file', drop surplus sorted)
