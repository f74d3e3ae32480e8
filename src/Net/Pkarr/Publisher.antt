-- ===== src/Net/Pkarr/Publisher.antt =====
-- crates/peerline-net/src/pkarr.rs: the endpoints of a descriptor that are announced, and the publisher, which
-- remembers the payload that it published last. Parsing, signing and the network are parameters.
use peerline.Base.{
  ℕ, ◌/◌, ◌≡◌, refl, Bool, true, false, not, ◌&&◌, ◌||◌, List, [], ◌∷◌, ◌++◌, map, Option, none,
  some, Result, ok, err, ◌>>=◌, ◌>>◌, ok_or, ensure, ◌==◌, ltb, if◌then◌else◌, any, all, filter_map,
  is_empty, text_eq, text_eq_iff,
}
use peerline.Base.Text.{Text, Bytes, utf8}
use peerline.Net.Pkarr.{
  IpAddr, v4, v6, Protocol, p2p_circuit, web_rtc_direct, quic_v1, other_protocol, ip4, ip6, tcp,
  udp, AnnouncementRecord, direct, libp2p, tor, i2p, public_tunnel, PkarrAnnouncement, PkarrLibrary,
  PkarrError, invalid_peer_id, no_endpoints, direct_record_priority, libp2p_record_priority,
  encode_with_budget,
}
use peerline.Rendezvous.Model.{PeerDescriptor}

abbrev max_raw_payload_bytes : ℕ
max_raw_payload_bytes = 924

-- What other crates parse and sign.
pub record Parsers : Type 0 where
  pub socket_addr : Text → Option (IpAddr × ℕ)
  pub multiaddr : Text → Option Bytes
  pub peer_id : Text → Option Bytes
  pub sign : Bytes → Option Bytes

-- A stable sorting, by a strict order.
module _ {ℓ} {A : Type ℓ} where
  unfoldable pub insert_by : (A → A → Bool) → A → List A → List A
  insert_by before x [] = x ∷ []
  insert_by before x (y ∷ ys) =
      let later = insert_by before x ys in if before x y then x ∷ y ∷ ys else y ∷ later

  unfoldable pub sort_by : (A → A → Bool) → List A → List A → List A
  sort_by before sorted [] = sorted
  sort_by before sorted (x ∷ xs) = sort_by before (insert_by before x sorted) xs

  unfoldable pub dedup_after : (A → A → Bool) → A → List A → List A
  dedup_after same x [] = x ∷ []
  dedup_after same x (y ∷ ys) =
      let rest = dedup_after same y ys in if same x y then rest else x ∷ rest

  -- `Vec::dedup`, for an equality.
  unfoldable pub dedup : (A → A → Bool) → List A → List A
  dedup same [] = []
  dedup same (x ∷ xs) = dedup_after same x xs

unfoldable pub bytes_before : Bytes → Bytes → Bool
bytes_before s [] = false
bytes_before [] (b ∷ t) = true
bytes_before (a ∷ s) (b ∷ t) = ltb a b || (a == b && bytes_before s t)

-- Texts are ordered by their bytes.
unfoldable pub text_before : Text → Text → Bool
text_before s t = bytes_before (utf8 s) (utf8 t)

unfoldable pub addr_eq : IpAddr × ℕ → IpAddr × ℕ → Bool
addr_eq (v4 a, p) (v4 b, q) = text_eq a b && p == q
addr_eq (v6 a, p) (v6 b, q) = text_eq a b && p == q
addr_eq (v4 a, p) (v6 b, q) = false
addr_eq (v6 a, p) (v4 b, q) = false

abbrev is_unspecified : Bytes → Bool
is_unspecified octets = all (λ b. b == 0) octets

abbrev is_loopback_v6 : Bytes → Bool
is_loopback_v6 octets =
    text_eq octets (0 ∷ 0 ∷ 0 ∷ 0 ∷ 0 ∷ 0 ∷ 0 ∷ 0 ∷ 0 ∷ 0 ∷ 0 ∷ 0 ∷ 0 ∷ 0 ∷ 0 ∷ 1 ∷ [])

-- Loopback, link-local and multicast addresses, by their first two octets.
abbrev is_special_v4 : Bytes → Bool
is_special_v4 [] = false
is_special_v4 (a ∷ []) = false
is_special_v4 (a ∷ b ∷ rest) = a == 127 || ((a == 169 && b == 254) || a / 16 == 14)

abbrev is_multicast_v6 : Bytes → Bool
is_multicast_v6 [] = false
is_multicast_v6 (a ∷ rest) = a == 255

unfoldable pub is_publishable_endpoint_ip : IpAddr → Bool
is_publishable_endpoint_ip (v4 octets) =
    not (is_unspecified octets) && (not (is_special_v4 octets) && not (all (λ b. b == 255) octets))
is_publishable_endpoint_ip (v6 octets) =
    not (is_unspecified octets) && (not (is_loopback_v6 octets) && not (is_multicast_v6 octets))

abbrev is_undialable : Protocol → Bool
is_undialable (ip4 octets) = is_unspecified octets
is_undialable (ip6 octets) = is_unspecified octets
is_undialable (tcp port) = port == 0
is_undialable (udp port) = port == 0
is_undialable p2p_circuit = false
is_undialable web_rtc_direct = false
is_undialable quic_v1 = false
is_undialable other_protocol = false

abbrev keep_if {ℓ} : {A : Type ℓ} → (A → Bool) → A → Option A
keep_if test x = if test x then some x else none

abbrev parsed_if {ℓ} : {A : Type ℓ} → (A → Bool) → Option A → Option A
parsed_if test none = none
parsed_if test (some x) = keep_if test x

module _ (lib : PkarrLibrary) (parsers : Parsers) where
  unfoldable pub is_dialable_multiaddr : Bytes → Bool
  is_dialable_multiaddr addr = not (any is_undialable (lib.protocols addr))

  unfoldable pub collect_direct_endpoints : List Text → List (IpAddr × ℕ)
  collect_direct_endpoints raw = dedup addr_eq (
      sort_by (λ a b. ltb (direct_record_priority a.0) (direct_record_priority b.0)) []
        (filter_map
          (λ endpoint.
            parsed_if (λ a. is_publishable_endpoint_ip a.0) (parsers.socket_addr endpoint))
          raw))

  unfoldable pub collect_libp2p_endpoints : List Text → List Bytes
  collect_libp2p_endpoints raw = dedup text_eq (
      sort_by (λ a b. ltb (libp2p_record_priority lib a) (libp2p_record_priority lib b)) []
        (filter_map (λ endpoint. parsed_if is_dialable_multiaddr (parsers.multiaddr endpoint)) raw))

  -- The collections of the URLs of tunnels, Tor and I2P.
  unfoldable pub collect_urls : (Text → Option Text) → List Text → List Text
  collect_urls normalize raw = dedup text_eq (sort_by text_before [] (filter_map normalize raw))

  unfoldable pub descriptor_records : PeerDescriptor → List AnnouncementRecord
  descriptor_records d =
      map (λ e. direct e.0 e.1) (collect_direct_endpoints d.direct_endpoints)
      ++ (map tor (collect_urls lib.normalize_tor_onion_url (map (λ e. e.url) d.tor_endpoints))
          ++ (map i2p (collect_urls lib.normalize_i2p_url (map (λ e. e.url) d.i2p_endpoints))
              ++ (map libp2p (collect_libp2p_endpoints d.libp2p_endpoints)
                  ++ map public_tunnel (
                      collect_urls lib.normalize_public_tunnel_url
                        (map (λ e. e.url) d.public_endpoints)))))

  unfoldable pub from_descriptor : PeerDescriptor → Result PkarrError PkarrAnnouncement
  from_descriptor d = do
    peer_id ← ok_or (parsers.peer_id d.peer_id) invalid_peer_id
    ensure (not (is_empty (descriptor_records d))) no_endpoints
    ok (record { peer_id = peer_id; records = descriptor_records d })

-- The payload that was published last, and the packets that the network was given.
pub record Publisher : Type 0 where
  pub last_payload : Option Bytes
  pub packets : List Bytes

pub data PublishError : Type 0 where
  not_encoded : PkarrError → PublishError
  not_signed not_accepted : PublishError

unfoldable pub is_last : Option Bytes → Bytes → Bool
is_last none payload = false
is_last (some last) payload = text_eq last payload

-- The network answers whether it took the packet.
abbrev send_packet : Bool → Bytes → Bytes → Publisher → Result PublishError (Unit {0}) × Publisher
send_packet accepted payload packet p =
    if accepted
    then (ok tt, record { last_payload = some payload; packets = p.packets ++ packet ∷ [] })
    else (err not_accepted, record p { packets = p.packets ++ packet ∷ [] })

abbrev sign_and_send :
    Parsers → Bool → Bytes → Publisher → Result PublishError (Unit {0}) × Publisher
sign_and_send parsers accepted payload p = elim (parsers.sign payload) [
  | none ↦ (err not_signed, p)
  | some packet ↦ send_packet accepted payload packet p
]

abbrev publish_payload :
    Parsers
    → Bool
    → Bool
    → Result PkarrError Bytes
    → Publisher
    → Result PublishError (Unit {0}) × Publisher
publish_payload parsers force accepted (err e) p = (err (not_encoded e), p)
publish_payload parsers force accepted (ok payload) p =
    if not force && is_last p.last_payload payload
    then (ok tt, p)
    else sign_and_send parsers accepted payload p

module _ (lib : PkarrLibrary) (parsers : Parsers) where
  abbrev descriptor_payload : PeerDescriptor → Result PkarrError Bytes
  descriptor_payload d = do
    announcement ← from_descriptor lib parsers d
    encode_with_budget lib announcement max_raw_payload_bytes

  unfoldable pub publish_descriptor :
      PeerDescriptor → Bool → Bool → Publisher → Result PublishError (Unit {0}) × Publisher
  publish_descriptor d force accepted p =
      publish_payload parsers force accepted (descriptor_payload d) p

  -- Publishing without force what was published last answers well and gives the network nothing.
  pub publish_descriptor-last :
      (d : PeerDescriptor) (accepted : Bool) (payload : Bytes) (p : Publisher)
      → descriptor_payload d ≡ ok payload
      → p.last_payload ≡ some payload
      → publish_descriptor d false accepted p ≡ (ok tt, p)
  unfolding publish_descriptor is_last
  publish_descriptor-last d accepted payload p h k =
      rw (h, k, (text_eq_iff payload payload).1 refl) refl
