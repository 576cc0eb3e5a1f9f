-- ===== src/Lib.antt =====
-- constelfs: a distributed file store, with a central server that keeps metadata (internal/server),
-- agents that keep chunks on the nodes (internal/node), and a client that cuts files into chunks
-- (internal/client).
--
-- How the parts interact: agents register, are configured and send heartbeats to the node registry,
-- and a checker marks silent nodes offline. A write asks the storage manager, which takes nodes from
-- the scheduler, and is confirmed when the first node has the chunk; then a goroutine makes that node
-- replicate it. The file manager keeps the files and their versions, whose clean-up and deletion
-- delete chunks through the version and storage managers. Each change goes to a bbolt database, from
-- which the server starts again.
--
-- Which file models which part:
-- - Server.State: the server's tables (server.go, node.go, version.go, storage.go) as one record; the
--   transactions and the deletion requests that were made are lists in it, in order.
-- - Server.Nodes: internal/server/node.go, one function per handler; Events is a run of the registry,
--   Lifecycle its status machine.
-- - Server.Persistence: internal/server/persistence.go over a database that is a parameter; its
--   interface is in Database, the recovery in Nodes and Recovery. Removal is about a
--   transaction that deletes several keys.
-- - Server.Scheduler: internal/server/scheduler.go; Selection is about SelectNodes.
-- - Server.Storage: internal/server/storage.go, and handleWrite and handleConfirmWrite of server.go.
-- - Server.Versions: internal/server/version.go. Server.Files: internal/server/file_manager.go without
--   upload and download, which are Server.Content and Server.Downloads; its routes are Server.Routes.
--   Below Server.Content, Delivery is about one chunk, Loop about the rounds, Reading and
--   Roundtrip about an upload and the download behind it.
-- - Server.Transfer: internal/server/replication.go and download_manager.go. Server.FaultTolerance:
--   internal/server/fault_tolerance.go.
-- - Server.Encryption: internal/server/encryption.go and encryption_integration.go. Server.Keys:
--   internal/server/encryption_api.go. Server.Router: the routes of server.go, which Client.Routed puts
--   behind the client's downloads.
-- - Server.Startup: New, loadData and syncNodes of server.go.
-- - Config: config.go of internal/client, internal/node and internal/server.
-- - Client.Command: cmd/client/main.go; Parsing is Go's flag package for its two flags.
-- - Client.Chunker: internal/client/chunker.go, and calculateChunkSize of the server.
-- - Client.Uploader and Client.Downloader: internal/client/uploader.go and downloader.go; an upload is
--   the list of its calls, whose types are in Client.Requests. Uploader.Calls is about one chunk,
--   Uploader.Rounds about all, Uploader.Progress about when it succeeds, Client.Roundtrip about the
--   whole upload.
--   Client.Manager: the other calls of internal/client/client.go, at the server's handlers.
--   Client.World: the uploader against the server's handlers and the nodes; Calls and Chunk there are about one
--   chunk, Rounds about all, Stored about the whole upload and the server's download of it.
-- - WebDav: internal/webdav/webdav.go, a table of files of its own that the other parts do not use.
-- - Smb: internal/smb/smb.go, which the other parts do not use either; Sharing is about its start.
-- - Agent.Chunks: internal/node/chunk_handler.go; Places there is filepath.Join and the files of the storage path.
--   Agent.Cluster: such agents as the network of the server.
--   Agent.Heartbeats: the requests of agent.go there and GetStorageInfo of storage.go. Agent.Startup: cmd/node/main.go,
--   New, Start, register and the gauges of agent.go, Init of storage.go, disk_unix.go. Agent.Routes: the HTTP server
--   of agent.go. Agent.SpeedTest: speedtest.go there.
-- - Prelude: maps, lists, integers, strings, the texts that http.NewRequest takes in a
--   URL (Text.Urls), and the contract of sort.Slice. Examples: test data, a
--   database in memory, and each theorem applied.
--
-- A handler that holds its lock throughout is one step on the server; the file manager's handlers take
-- no lock, and are steps too. Maps are association lists: a theorem on every list holds for every order
-- in which Go visits a map. Parameters are what the network answers, SHA-256, AES-GCM, base64, float64
-- arithmetic, sort.Slice with its contract, the multiplexer of net/http, the database with its documented
-- behaviour, commands that are run, yaml.v3, the parsing of numbers, what net/http reads
-- as the path of a URL, and the clock, one reading for each
-- step, and one for each round of an upload.
--
-- Bounds: only the printing of a number in decimals runs on fuel, n + 1 for the number n, and
-- Prelude.Text proves that more changes nothing. A retry loop recurses on the rounds that are left, which are the
-- source's own bound. Sizes in Client.Chunker wrap at 2^64 as int64 values do, and the theorems there
-- are for files below 2^63 - 2^28 bytes, where no sum wraps. The disk sizes in
-- Agent.Startup wrap so too. Version numbers and counts are unbounded.
--
-- Not modelled: the panic of DeleteChunk (internal/server/storage.go) where http.NewRequest refuses the URL of a
-- replica; the deletions of Server.Storage, Server.Versions and Server.Files are those of nodes and chunks whose URL it
-- takes. Nor are the start of the server's process, the constants of disk_windows.go, and handlers that answer fixed
-- texts; logs, waiting times and the texts of transport errors.
pub mod Prelude
pub mod Server
pub mod Smb
pub mod Config
pub mod Client
pub mod Agent
pub mod WebDav
pub mod Examples
