-- ===== src/Transfer.antt =====
-- crates/peerline-transfer: archives.
pub mod Archive
pub mod Frames
pub mod Run
pub mod Names
pub mod Unpack
pub mod Codec
mod Tests
