-- ===== src/Rendezvous/Model.antt =====
-- crates/peerline-rendezvous-model/src/lib.rs: the records that peers and the service exchange, and
-- the constants of the protocol.
use peerline.Base.{ℕ, ◌+◌, ◌-◌, List, Option}
use peerline.Base.Text.{Text}

abbrev pub default_registration_ttl_secs : ℕ
default_registration_ttl_secs = 120

abbrev pub default_keepalive_secs : ℕ
default_keepalive_secs = 60

abbrev pub registration_tolerance_secs : ℕ
registration_tolerance_secs = default_registration_ttl_secs - default_keepalive_secs

abbrev pub default_max_ttl_secs : ℕ
default_max_ttl_secs = default_registration_ttl_secs + registration_tolerance_secs

abbrev pub descriptor_protocol_version : ℕ
descriptor_protocol_version = 1

pub record PublicTunnelEndpoint : Type 0 where
  pub provider : Text
  pub url : Text

pub record TorOnionEndpoint : Type 0 where
  pub url : Text

pub record I2pEndpoint : Type 0 where
  pub url : Text

pub record PeerDescriptor : Type 0 where
  pub protocol_version : ℕ
  pub peer_id : Text
  pub direct_endpoints : List Text
  pub libp2p_endpoints : List Text
  pub public_endpoints : List PublicTunnelEndpoint
  pub tor_endpoints : List TorOnionEndpoint
  pub i2p_endpoints : List I2pEndpoint
  pub published_unix_ms : ℕ

pub record RendezvousRecord : Type 0 where
  pub sequence : ℕ
  pub expires_unix_ms : ℕ
  pub descriptor : PeerDescriptor

pub record RegisterRequest : Type 0 where
  pub ttl_seconds : ℕ
  pub descriptor : PeerDescriptor

pub record RegisterResponse : Type 0 where
  pub cookie : ℕ
  pub peer_record : RendezvousRecord

pub record UnregisterResponse : Type 0 where
  pub removed : ℕ

pub record DiscoverRequest : Type 0 where
  pub after_cookie : Option ℕ
  pub limit : Option ℕ

pub record DiscoverResponse : Type 0 where
  pub cookie : ℕ
  pub records : List RendezvousRecord
