-- ===== src/Examples.antt =====
-- Inputs that the theorems apply to, and the applications.
pub mod Data
pub mod Nodes
pub mod Memory
pub mod Registry
pub mod Placement
pub mod Boots
pub mod Chunks
pub mod Transfers
pub mod Uploads
pub mod Agents
pub mod WebDavs
pub mod Keys
pub mod Secrets
pub mod Beats
pub mod Transmissions
pub mod Routing
pub mod Removals
pub mod Worlds
pub mod Speeds
pub mod Commands
