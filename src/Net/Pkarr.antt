-- ===== src/Net/Pkarr.antt =====
-- crates/peerline-net/src/pkarr.rs: the announcement of a receiver's endpoints in one signed packet.
pub mod Budget
pub mod Record
pub mod Choice
pub mod Reading
pub mod Ends
pub mod Descriptor
pub mod Publisher
use peerline.Base.{
  ℕ, zero, suc, ◌+◌, ◌*◌, ◌/◌, Bool, true, false, not, ◌&&◌, ◌||◌, List, [], ◌∷◌, ◌++◌, map, Option,
  none, some, Result, ok, err, ◌>>=◌, ◌>>◌, ensure, ok_or, ◌==◌, ltb, if◌then◌else◌, length, take,
  drop, any, is_empty,
}
use peerline.Base.Text.{Text, Bytes, utf8}
use peerline.Base.Words.{be_bytes}
use peerline.Transfer.Frames.{be_value}

abbrev pub format_version : ℕ
format_version = 1

abbrev pub record_direct_v4 : ℕ
record_direct_v4 = 1

abbrev pub record_direct_v6 : ℕ
record_direct_v6 = 2

abbrev pub record_libp2p : ℕ
record_libp2p = 3

abbrev pub record_tor : ℕ
record_tor = 4

abbrev pub record_public_tunnel : ℕ
record_public_tunnel = 5

abbrev pub record_i2p : ℕ
record_i2p = 6

-- An address by its octets.
pub data IpAddr : Type 0 where
  v4 v6 : Bytes → IpAddr

-- The protocols of a multiaddr that the program asks for.
pub data Protocol : Type 0 where
  p2p_circuit web_rtc_direct quic_v1 other_protocol : Protocol
  ip4 ip6 : Bytes → Protocol
  tcp udp : ℕ → Protocol

-- A multiaddr and a peer identifier stand for themselves by their bytes.
pub data AnnouncementRecord : Type 0 where
  direct : IpAddr → ℕ → AnnouncementRecord
  libp2p : Bytes → AnnouncementRecord
  tor i2p public_tunnel : Text → AnnouncementRecord

pub record PkarrAnnouncement : Type 0 where
  pub peer_id : Bytes
  pub records : List AnnouncementRecord

pub record PackedRecord : Type 0 where
  pub kind : ℕ
  pub priority : ℕ
  pub data_bytes : Bytes

pub data PkarrError : Type 0 where
  peer_id_too_large no_usable_endpoints too_short unsupported_version truncated_peer_id : PkarrError
  invalid_peer_id truncated_header truncated_payload no_endpoints invalid_record : PkarrError
  unsupported_kind out_of_fuel : PkarrError

-- What is parsed by other crates: identifiers, multiaddrs, UTF-8, and the URLs of tunnels.
pub record PkarrLibrary : Type 0 where
  pub peer_id_from_bytes : Bytes → Option Bytes
  pub multiaddr_from_bytes : Bytes → Option Bytes
  pub protocols : Bytes → List Protocol
  pub from_utf8 : Bytes → Option Text
  pub normalize_tor_onion_url : Text → Option Text
  pub normalize_i2p_url : Text → Option Text
  pub normalize_public_tunnel_url : Text → Option Text

-- `Ipv4Addr::is_private`.
abbrev is_private : Bytes → Bool
is_private [] = false
is_private (a ∷ []) = false
is_private (a ∷ b ∷ rest) = a == 10 || ((a == 172 && b / 16 == 1) || (a == 192 && b == 168))

-- `Ipv6Addr::is_unique_local`.
abbrev is_unique_local : Bytes → Bool
is_unique_local [] = false
is_unique_local (a ∷ rest) = a / 2 == 126

unfoldable pub direct_record_priority : IpAddr → ℕ
direct_record_priority (v4 octets) = if is_private octets then 0 else 1
direct_record_priority (v6 octets) = if is_unique_local octets then 0 else 1

abbrev is_circuit : Protocol → Bool
is_circuit p2p_circuit = true
is_circuit web_rtc_direct = false
is_circuit quic_v1 = false
is_circuit other_protocol = false
is_circuit (ip4 x) = false
is_circuit (ip6 x) = false
is_circuit (tcp x) = false
is_circuit (udp x) = false

abbrev is_web_rtc_direct : Protocol → Bool
is_web_rtc_direct p2p_circuit = false
is_web_rtc_direct web_rtc_direct = true
is_web_rtc_direct quic_v1 = false
is_web_rtc_direct other_protocol = false
is_web_rtc_direct (ip4 x) = false
is_web_rtc_direct (ip6 x) = false
is_web_rtc_direct (tcp x) = false
is_web_rtc_direct (udp x) = false

abbrev is_quic_v1 : Protocol → Bool
is_quic_v1 p2p_circuit = false
is_quic_v1 web_rtc_direct = false
is_quic_v1 quic_v1 = true
is_quic_v1 other_protocol = false
is_quic_v1 (ip4 x) = false
is_quic_v1 (ip6 x) = false
is_quic_v1 (tcp x) = false
is_quic_v1 (udp x) = false

-- The key of `sort_by_key`: one record comes before another.
unfoldable pub comes_before : PackedRecord → PackedRecord → Bool
comes_before a b =
    let m = length a.data_bytes in
    let n = length b.data_bytes in
    ltb a.priority b.priority
    || (a.priority == b.priority && (ltb m n || (m == n && ltb a.kind b.kind)))

-- Behind those that it does not come before, so that the sorting is stable.
unfoldable pub insert_packed : PackedRecord → List PackedRecord → List PackedRecord
insert_packed r [] = r ∷ []
insert_packed r (s ∷ sorted) =
    let later = insert_packed r sorted in if comes_before r s then r ∷ s ∷ sorted else s ∷ later

unfoldable pub sort_packed : List PackedRecord → List PackedRecord → List PackedRecord
sort_packed sorted [] = sorted
sort_packed sorted (r ∷ rs) = sort_packed (insert_packed r sorted) rs

abbrev pub packed_bytes : PackedRecord → Bytes
packed_bytes r = r.kind ∷ length r.data_bytes ∷ r.data_bytes

unfoldable pub has_room : ℕ → Bytes → PackedRecord → Bool
has_room max_bytes payload r =
    let size = length r.data_bytes in
    not (ltb 255 size) && not (ltb max_bytes (length payload + (2 + size)))

-- The payload so far and the records that it includes, after one more record.
abbrev pub include_record : ℕ → PackedRecord → Bytes × ℕ → Bytes × ℕ
include_record max_bytes r (payload, included) =
    if has_room max_bytes payload r
    then (payload ++ packed_bytes r, suc included)
    else (payload, included)

unfoldable pub include_records : ℕ → List PackedRecord → Bytes × ℕ → Bytes × ℕ
include_records max_bytes [] state = state
include_records max_bytes (r ∷ rs) state =
    include_records max_bytes rs (include_record max_bytes r state)

abbrev pub included_payload : Bytes × ℕ → Result PkarrError Bytes
included_payload (payload, zero) = err no_usable_endpoints
included_payload (payload, suc n) = ok payload

module _ (lib : PkarrLibrary) where
  unfoldable pub libp2p_record_priority : Bytes → ℕ
  libp2p_record_priority addr =
      if any is_circuit (lib.protocols addr)
      then 7
      else if any is_web_rtc_direct (lib.protocols addr)
      then 5
      else if any is_quic_v1 (lib.protocols addr)
      then 4
      else 3

  -- `PackedRecord::from_record`.
  unfoldable pub from_record : AnnouncementRecord → PackedRecord
  from_record (direct (v4 octets) port) = record {
    kind = record_direct_v4;
    priority = direct_record_priority (v4 octets);
    data_bytes = octets ++ be_bytes 2 port;
  }
  from_record (direct (v6 octets) port) = record {
    kind = record_direct_v6;
    priority = direct_record_priority (v6 octets);
    data_bytes = octets ++ be_bytes 2 port;
  }
  from_record (libp2p addr) = record {
    kind = record_libp2p;
    priority = libp2p_record_priority addr;
    data_bytes = addr;
  }
  from_record (tor url) = record { kind = record_tor; priority = 3; data_bytes = utf8 url }
  from_record (i2p url) = record { kind = record_i2p; priority = 2; data_bytes = utf8 url }
  from_record (public_tunnel url) = record {
    kind = record_public_tunnel;
    priority = 6;
    data_bytes = utf8 url;
  }

  unfoldable pub encode_with_budget : PkarrAnnouncement → ℕ → Result PkarrError Bytes
  encode_with_budget a max_bytes =
      if ltb 255 (length a.peer_id)
      then err peer_id_too_large
      else included_payload (
          include_records max_bytes (sort_packed [] (map from_record a.records))
            (format_version ∷ length a.peer_id ∷ a.peer_id, 0))

  abbrev url_record :
      (Text → Option Text)
      → (Text → AnnouncementRecord)
      → Bytes
      → Result PkarrError AnnouncementRecord
  url_record normalize kind bytes = do
    text ← ok_or (lib.from_utf8 bytes) invalid_record
    url ← ok_or (normalize text) invalid_record
    ok (kind url)

  -- `AnnouncementRecord::decode`.
  unfoldable pub decode_record : ℕ → Bytes → Result PkarrError AnnouncementRecord
  decode_record kind bytes =
      if kind == record_direct_v4
      then (if length bytes == 6
          then ok (direct (v4 (take 4 bytes)) (be_value 0 (drop 4 bytes)))
          else err invalid_record)
      else if kind == record_direct_v6
      then (if length bytes == 18
          then ok (direct (v6 (take 16 bytes)) (be_value 0 (drop 16 bytes)))
          else err invalid_record)
      else if kind == record_libp2p
      then (do addr ← ok_or (lib.multiaddr_from_bytes bytes) invalid_record; ok (libp2p addr))
      else if kind == record_tor
      then url_record lib.normalize_tor_onion_url tor bytes
      else if kind == record_i2p
      then url_record lib.normalize_i2p_url i2p bytes
      else if kind == record_public_tunnel
      then url_record lib.normalize_public_tunnel_url public_tunnel bytes
      else err unsupported_kind

  -- The loop of `decode`, over the bytes from the cursor on.
  unfoldable pub decode_records : ℕ → Bytes → Result PkarrError (List AnnouncementRecord)
  decode_records fuel [] = ok []
  decode_records zero (kind ∷ rest) = err out_of_fuel
  decode_records (suc fuel) (kind ∷ []) = err truncated_header
  decode_records (suc fuel) (kind ∷ len ∷ rest) =
      let later = decode_records fuel (drop len rest) in
      if ltb (length rest) len
      then err truncated_payload
      else (do r ← decode_record kind (take len rest); rs ← later; ok (r ∷ rs))

  -- After the version and the length of the peer identifier.
  abbrev pub decode_after : ℕ → Bytes → Result PkarrError PkarrAnnouncement
  decode_after len rest = do
    ensure (not (ltb (length rest) len)) truncated_peer_id
    peer_id ← ok_or (lib.peer_id_from_bytes (take len rest)) invalid_peer_id
    records ← decode_records (length rest) (drop len rest)
    ensure (not (is_empty records)) no_endpoints
    ok (record { peer_id = peer_id; records = records })

  unfoldable pub decode : Bytes → Result PkarrError PkarrAnnouncement
  decode [] = err too_short
  decode (version ∷ []) = err too_short
  decode (version ∷ len ∷ rest) =
      if version == format_version then decode_after len rest else err unsupported_version
