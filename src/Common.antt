-- ===== src/Common.antt =====
-- The crate cpcluster_common.
pub mod Protocol
pub mod Framing
pub mod Wire
pub mod Address
pub mod Config
pub mod Arguments
pub mod Join
pub mod Execute
mod Tests
