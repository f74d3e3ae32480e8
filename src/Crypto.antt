-- ===== src/Crypto.antt =====
-- crates/peerline-crypto. What the program calls of other crates is the record `Primitives`.
pub mod Primitives
pub mod Transcript
pub mod Handshake
pub mod Opaque
pub mod Aead
mod Tests
