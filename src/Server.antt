-- ===== src/Server.antt =====
-- The central server, internal/server: its state, and one module for each of its parts.
pub mod State
pub mod Nodes
pub mod Persistence
pub mod Scheduler
pub mod Storage
pub mod Versions
pub mod Files
pub mod Transfer
pub mod FaultTolerance
pub mod Content
pub mod Downloads
pub mod Routes
pub mod Router
pub mod Startup
pub mod Keys
pub mod Encryption
