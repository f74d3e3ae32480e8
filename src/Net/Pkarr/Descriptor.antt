-- ===== src/Net/Pkarr/Descriptor.antt =====
-- crates/peerline-net/src/pkarr.rs: `into_descriptor` and `from_signed_packet`, which read a peer's descriptor
-- out of a packet. How addresses are printed is a parameter.
use peerline.Base.{
  ℕ, ◌+◌, ◌/◌, ◌≡◌, arith, List, [], ◌∷◌, ◌++◌, Option, none, some, Result, ok, err, length,
  length-append,
}
use peerline.Base.Text.{Text, Bytes, codes}
use peerline.Net.Pkarr.{
  IpAddr, AnnouncementRecord, direct, libp2p, tor, i2p, public_tunnel, PkarrAnnouncement,
  PkarrLibrary, PkarrError, decode,
}
use peerline.Rendezvous.Model.{PeerDescriptor, descriptor_protocol_version}

abbrev public_tunnel_provider_label : Text
public_tunnel_provider_label = codes "pkarr"

-- `to_string` of socket addresses, multiaddrs and peer identifiers.
pub record Printers : Type 0 where
  pub socket_addr : IpAddr → ℕ → Text
  pub multiaddr : Bytes → Text
  pub peer_id : Bytes → Text

-- A resource record at the apex of a packet.
pub data ResourceRecord : Type 0 where
  null : Bytes → ResourceRecord
  other_record : ResourceRecord

pub record SignedPacket : Type 0 where
  pub apex_records : List ResourceRecord
  pub timestamp_micros : ℕ

pub data PacketError : Type 0 where
  missing_payload : PacketError
  not_announced : PkarrError → PacketError

-- The payload of the first NULL record.
unfoldable pub find_payload : List ResourceRecord → Option Bytes
find_payload [] = none
find_payload (null payload ∷ records) = some payload
find_payload (other_record ∷ records) = find_payload records

unfoldable pub endpoint_count : PeerDescriptor → ℕ
endpoint_count d =
    length d.direct_endpoints
    + length d.libp2p_endpoints
    + length d.public_endpoints
    + length d.tor_endpoints
    + length d.i2p_endpoints

module _ (printers : Printers) where
  unfoldable pub push_record : AnnouncementRecord → PeerDescriptor → PeerDescriptor
  push_record (direct ip port) d = record d {
    direct_endpoints = d.direct_endpoints ++ printers.socket_addr ip port ∷ [];
  }
  push_record (libp2p addr) d = record d {
    libp2p_endpoints = d.libp2p_endpoints ++ printers.multiaddr addr ∷ [];
  }
  push_record (tor url) d = record d {
    tor_endpoints = d.tor_endpoints ++ record { url = url } ∷ [];
  }
  push_record (i2p url) d = record d {
    i2p_endpoints = d.i2p_endpoints ++ record { url = url } ∷ [];
  }
  push_record (public_tunnel url) d = record d {
    public_endpoints =
        d.public_endpoints ++ record { provider = public_tunnel_provider_label; url = url } ∷ [];
  }

  -- The loop of `into_descriptor`.
  unfoldable pub push_records : List AnnouncementRecord → PeerDescriptor → PeerDescriptor
  push_records [] d = d
  push_records (r ∷ rs) d = push_records rs (push_record r d)

  unfoldable pub into_descriptor : PkarrAnnouncement → ℕ → PeerDescriptor
  into_descriptor a published_unix_ms = push_records a.records (record {
    protocol_version = descriptor_protocol_version;
    peer_id = printers.peer_id a.peer_id;
    direct_endpoints = [];
    libp2p_endpoints = [];
    public_endpoints = [];
    tor_endpoints = [];
    i2p_endpoints = [];
    published_unix_ms = published_unix_ms;
  })

  abbrev described : ℕ → Result PkarrError PkarrAnnouncement → Result PacketError PeerDescriptor
  described timestamp_micros (ok a) = ok (into_descriptor a (timestamp_micros / 1000))
  described timestamp_micros (err e) = err (not_announced e)

  abbrev announced : PkarrLibrary → ℕ → Option Bytes → Result PacketError PeerDescriptor
  announced lib timestamp_micros none = err missing_payload
  announced lib timestamp_micros (some payload) = described timestamp_micros (decode lib payload)

  unfoldable pub from_signed_packet :
      PkarrLibrary → SignedPacket → Result PacketError PeerDescriptor
  from_signed_packet lib packet =
      announced lib packet.timestamp_micros (find_payload packet.apex_records)

  push_record-count :
      (r : AnnouncementRecord) (d : PeerDescriptor)
      → endpoint_count (push_record r d) ≡ endpoint_count d + 1
  unfolding push_record endpoint_count
  push_record-count (direct ip port) d = omega (arith, length-append d.direct_endpoints _)
  push_record-count (libp2p addr) d = omega (arith, length-append d.libp2p_endpoints _)
  push_record-count (tor url) d = omega (arith, length-append d.tor_endpoints _)
  push_record-count (i2p url) d = omega (arith, length-append d.i2p_endpoints _)
  push_record-count (public_tunnel url) d = omega (arith, length-append d.public_endpoints _)

  push_records-count :
      (rs : List AnnouncementRecord) (d : PeerDescriptor)
      → endpoint_count (push_records rs d) ≡ endpoint_count d + length rs
  unfolding push_records
  push_records-count [] d = omega arith
  push_records-count (r ∷ rs) d =
      omega (arith, push_records-count rs (push_record r d), push_record-count r d)

  -- A descriptor has one endpoint for each record of the announcement that it is made from.
  into_descriptor-count :
      (a : PkarrAnnouncement) (published_unix_ms : ℕ)
      → endpoint_count (into_descriptor a published_unix_ms) ≡ length a.records
  unfolding into_descriptor endpoint_count
  into_descriptor-count a published_unix_ms = omega (arith, push_records-count a.records _)
