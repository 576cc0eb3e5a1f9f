-- ===== src/Client/Requests.antt =====
-- What the client sends and what it gets, internal/client/uploader.go: the calls of an upload, the answers to them,
-- and how an upload ends.
use constelfs.Prelude.{ℕ, ◌*◌, String, Bool, List}
use constelfs.Server.State.{Time, WriteRequest}
use constelfs.Server.Storage.{ConfirmRequest}
use constelfs.Server.Files.{CreateVersionRequest}
use constelfs.Server.Content.{Sent}

-- A call of the client, in the order in which it makes them.
pub data Call : Type 0 where
  write : WriteRequest → Call
  put_chunk : String → String → List ℕ → Call
  confirm : ConfirmRequest → Call
  create : CreateVersionRequest → Call
  save_key : String → String → Call

-- What the client decodes of the answer to a write.
pub record WriteAnswer : Type 0 where
  pub success : Bool
  pub chunk_id : String
  pub chunk_ids : List String
  pub nodes : List String
  pub node_addrs : List String
  pub error : String

-- No response, a body that does not decode, or what it decodes to. The status is not looked at.
pub data Answer (A : Type 0) : Type 0 where
  lost : Answer A
  garbled : Answer A
  decoded : A → Answer A

-- What a call gets, from the calls up to it.
pub record Peer : Type 0 where
  pub on_write : List Call → Answer WriteAnswer
  pub on_put : List Call → Sent
  pub on_confirm : List Call → Answer Bool
  pub on_create : List Call → Answer (Bool × String)
  pub on_key : List Call → Sent

-- A file that is open: its base name and path, its size and time of its stat, its content as `ReadAt` finds
-- it, and which rounds find it unreadable.
pub record LocalFile : Type 0 where
  pub base : String
  pub path : String
  pub size : ℕ
  pub mod_time : Time
  pub content : List ℕ
  pub unreadable : ℕ → Bool

pub data Opened : Type 0 where
  not_opened : Opened
  no_stat : Opened
  opened : LocalFile → Opened

pub data ChunkError : Type 0 where
  write_lost : ChunkError
  write_garbled : ChunkError
  write_refused : String → ChunkError
  put_failed : String → ChunkError
  confirm_lost : ChunkError
  confirm_garbled : ChunkError
  confirm_refused : ChunkError

pub data UploadError : Type 0 where
  open_failed : UploadError
  stat_failed : UploadError
  key_failed : UploadError
  read_failed : UploadError
  encrypt_failed : UploadError
  chunk_failed : ℕ → ChunkError → UploadError
  version_lost : UploadError
  version_garbled : UploadError
  version_refused : String → UploadError

-- The result of an upload that succeeds; otherwise there is none.
pub record UploadResult : Type 0 where
  pub file_id : String
  pub chunks : List String
  pub encryption_key : String

pub record ChunkUploader : Type 0 where
  pub chunk_size : ℕ
  pub encrypt : Bool

-- `NewChunkUploader`, with `DefaultChunkSize`.
abbrev new_chunk_uploader : Bool → ChunkUploader
new_chunk_uploader encrypt = record { chunk_size = 64 * 1024 * 1024; encrypt = encrypt }
