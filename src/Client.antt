-- ===== src/Client.antt =====
-- The client, internal/client.
pub mod Chunker
pub mod Requests
pub mod Uploader
pub mod Downloader
pub mod Roundtrip
pub mod Routed
pub mod Manager
pub mod World
pub mod Command
