-- ===== src/Net.antt =====
-- crates/peerline-net: the protocol between a sender and a receiver.
pub mod Protocol
pub mod Wire
pub mod Step
pub mod Site
pub mod Session
pub mod Receiver
pub mod Receive
pub mod Direct
pub mod Sender
pub mod Pkarr
pub mod Keepalive
mod Tests
