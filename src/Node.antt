-- ===== src/Node.antt =====
-- The node: what the start of a full node does, in what order, and where it stops.
pub mod Config
pub mod Calls
pub mod Startup
pub mod Partial
pub mod Tasks
pub mod Full
pub mod Progress
pub mod Milestones
pub mod Consensus
pub mod Liveness
pub mod MockTime
pub mod Every
pub mod Offline
pub mod Purge
pub mod Made
pub mod Inherents
pub mod Rpc
pub mod Digest
pub mod Served
pub mod Endpoints
pub mod Platform
pub mod Benchmarks
pub mod Command
pub mod Extrinsics
pub mod Entry
