-- ===== src/Master.antt =====
-- The crate CPCluster_masterNode.
pub mod State
pub mod Connection
pub mod Ports
pub mod Merge
pub mod Dispatch
pub mod Cleanup
pub mod Session
pub mod Tls
pub mod Startup
pub mod Start
pub mod Shell
pub mod Sections
pub mod Locks
pub mod Cluster
pub mod Invariant
mod Tests
