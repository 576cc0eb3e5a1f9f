-- ===== src/Agent.antt =====
-- The storage node's agent (internal/node).
pub mod Chunks
pub mod Cluster
pub mod Heartbeats
pub mod Routes
pub mod SpeedTest
pub mod Startup
