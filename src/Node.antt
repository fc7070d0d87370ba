-- ===== src/Node.antt =====
-- The crate CPCluster_node.
pub mod Main
pub mod Memory
pub mod Disk
pub mod DirectorySize
pub mod Ports
pub mod Complex
pub mod Tasks
pub mod Tls
pub mod Link
pub mod Loop
pub mod Direct
mod Tests
