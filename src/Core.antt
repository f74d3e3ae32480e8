-- ===== src/Core.antt =====
-- crates/peerline-core: the data that the other crates share.
pub mod Manifest
pub mod Event
pub mod Path
pub mod Identity
mod Tests
