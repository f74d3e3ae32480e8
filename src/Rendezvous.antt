-- ===== src/Rendezvous.antt =====
-- The rendezvous service: crates/peerline-rendezvous-model and services/peerline-rendezvous.
pub mod Model
pub mod Library
pub mod Validate
pub mod Route
pub mod Table
pub mod Signature
pub mod Auth
pub mod Reply
pub mod Shard
mod Tests
