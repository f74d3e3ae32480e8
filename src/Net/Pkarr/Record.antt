-- ===== src/Net/Pkarr/Record.antt =====
-- pkarr.rs: `AnnouncementRecord::decode` over what `PackedRecord::from_record` packs.
use peerline.Base.{
  ℕ, ◌+◌, ◌<◌, ◌≡◌, refl, sym, ◌++◌, some, ok, arith, length, length-append, take, drop,
}
use peerline.Base.Text.{Bytes, utf8}
use peerline.Base.Words.{be_bytes}
use peerline.Net.Pkarr.{
  v4, v6, AnnouncementRecord, direct, libp2p, tor, i2p, public_tunnel, PkarrLibrary, from_record,
  decode_record,
}
use peerline.Transfer.Frames.{be_value}
use peerline.Transfer.Frames.Wire.{take_front, drop_front}

-- An address has its octets and a port its width; a multiaddr is read from its bytes, and a URL from its
-- UTF-8 and is in normal form.
abbrev pub IsReadable : PkarrLibrary → AnnouncementRecord → Type 0
IsReadable lib (direct (v4 octets) port) = (length octets ≡ 4) × (port < 65536)
IsReadable lib (direct (v6 octets) port) = (length octets ≡ 16) × (port < 65536)
IsReadable lib (libp2p addr) = lib.multiaddr_from_bytes addr ≡ some addr
IsReadable lib (tor url) =
    (lib.from_utf8 (utf8 url) ≡ some url) × (lib.normalize_tor_onion_url url ≡ some url)
IsReadable lib (i2p url) =
    (lib.from_utf8 (utf8 url) ≡ some url) × (lib.normalize_i2p_url url ≡ some url)
IsReadable lib (public_tunnel url) =
    (lib.from_utf8 (utf8 url) ≡ some url) × (lib.normalize_public_tunnel_url url ≡ some url)

take_octets : (n : ℕ) (octets rest : Bytes) → length octets ≡ n → take n (octets ++ rest) ≡ octets
take_octets n octets rest h = rw (sym h) (take_front octets rest)

drop_octets : (n : ℕ) (octets rest : Bytes) → length octets ≡ n → drop n (octets ++ rest) ≡ rest
drop_octets n octets rest h = rw (sym h) (drop_front octets rest)

port_length : (port : ℕ) → length (be_bytes 2 port) ≡ 2
unfolding be_bytes
port_length port = refl

be_value-port : (port : ℕ) → port < 65536 → be_value 0 (be_bytes 2 port) ≡ port
unfolding be_bytes
be_value-port port h = omega arith

address_length :
    (n port : ℕ) (octets : Bytes) → length octets ≡ n → length (octets ++ be_bytes 2 port) ≡ n + 2
address_length n port octets h =
    omega (arith, h, length-append octets (be_bytes 2 port), port_length port)

-- A readable record is read back from the kind and the bytes that it is packed in.
pub decode_record-from_record :
    (lib : PkarrLibrary) (r : AnnouncementRecord)
    → IsReadable lib r
    → decode_record lib (from_record lib r).kind (from_record lib r).data_bytes ≡ ok r
unfolding from_record decode_record
decode_record-from_record lib (direct (v4 octets) port) (four, fits) =
    rw
      (
        address_length 4 port octets four,
        take_octets 4 octets (be_bytes 2 port) four,
        drop_octets 4 octets (be_bytes 2 port) four,
        be_value-port port fits,
      )
      refl
decode_record-from_record lib (direct (v6 octets) port) (sixteen, fits) =
    rw
      (
        address_length 16 port octets sixteen,
        take_octets 16 octets (be_bytes 2 port) sixteen,
        drop_octets 16 octets (be_bytes 2 port) sixteen,
        be_value-port port fits,
      )
      refl
decode_record-from_record lib (libp2p addr) known = rw known refl
decode_record-from_record lib (tor url) (text, normal) = rw (text, normal) refl
decode_record-from_record lib (i2p url) (text, normal) = rw (text, normal) refl
decode_record-from_record lib (public_tunnel url) (text, normal) = rw (text, normal) refl
