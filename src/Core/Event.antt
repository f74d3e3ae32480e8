-- ===== src/Core/Event.antt =====
-- crates/peerline-core/src/event.rs: what the program reports.
use peerline.Base.{ℕ}
use peerline.Base.Text.{Text, Bytes}

pub data ConnectionRoute : Type 0 where
  lan_direct public_direct public_tunnel tor_onion i2p : ConnectionRoute
  libp2p_quic libp2p_dcutr libp2p_relay web_rtc_direct web_rtc_turn : ConnectionRoute

pub data TransferStage : Type 0 where
  discovering : TransferStage
  connecting : ConnectionRoute → TransferStage
  authenticating receiving_manifest transferring verifying complete : TransferStage
  failed : Text → TransferStage

pub data PeerlineLogLevel : Type 0 where
  error_level warn_level info_level debug_level trace_level : PeerlineLogLevel

pub data PeerlineEvent : Type 0 where
  shutdown : PeerlineEvent
  stage_changed : TransferStage → PeerlineEvent
  -- The identifier, the peer, the files, the bytes and the offset of a resumed transfer.
  transfer_started : Bytes → Text → ℕ → ℕ → ℕ → PeerlineEvent
  -- The identifier, the bytes done and the bytes in all.
  progress : Bytes → ℕ → ℕ → PeerlineEvent
  message : Text → PeerlineEvent
  log : PeerlineLogLevel → Text → Text → PeerlineEvent
