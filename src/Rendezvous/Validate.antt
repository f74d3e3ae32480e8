-- ===== src/Rendezvous/Validate.antt =====
-- services/peerline-rendezvous/src/lib.rs: what a registration may hold, with the limits of its
-- constants, and the refusals.
pub mod Exact
use Prim.Native.String.{String}
use mathlib.Core.Option
use peerline.Base.{
  ℕ, ◌≡◌, Bool, true, false, not, ◌&&◌, ◌||◌, List, ◌++◌, Option, none, some, Result, ok, err, ltb,
  leb, ◌==◌, if◌then◌else◌, length, is_empty, all, any,
}
use peerline.Base.Text.{
  Text, Bytes, codes, utf8, byte_len, is_alphanumeric, is_graphic, is_lower, is_digit, lowercase,
  first_part, last_part, strip_prefix, strip_suffix,
}
use peerline.Rendezvous.Model.{
  PeerDescriptor, PublicTunnelEndpoint, TorOnionEndpoint, I2pEndpoint, descriptor_protocol_version,
}

pub record Rejection : Type 0 where
  pub message : String
  pub status : ℕ

abbrev pub legacy_descriptor_protocol_version : ℕ
legacy_descriptor_protocol_version = 2

abbrev pub max_direct_endpoints : ℕ
max_direct_endpoints = 8

abbrev pub max_libp2p_endpoints : ℕ
max_libp2p_endpoints = 24

abbrev pub max_public_endpoints : ℕ
max_public_endpoints = 8

abbrev pub max_tor_endpoints : ℕ
max_tor_endpoints = 8

abbrev pub max_i2p_endpoints : ℕ
max_i2p_endpoints = 8

abbrev pub max_endpoint_len : ℕ
max_endpoint_len = 256

abbrev pub max_endpoint_provider_len : ℕ
max_endpoint_provider_len = 64

unfoldable pub is_valid_peer_id : Text → Bool
is_valid_peer_id peer_id =
    not (is_empty peer_id) && leb (byte_len peer_id) 128 && all is_alphanumeric (utf8 peer_id)

unfoldable pub is_valid_endpoint : Text → Bool
is_valid_endpoint endpoint =
    not (is_empty endpoint)
    && leb (byte_len endpoint) max_endpoint_len
    && all is_graphic (utf8 endpoint)

unfoldable pub is_valid_endpoint_provider : Text → Bool
is_valid_endpoint_provider provider =
    not (is_empty provider)
    && leb (byte_len provider) max_endpoint_provider_len
    && all is_graphic (utf8 provider)

unfoldable pub is_valid_public_tunnel_endpoint : PublicTunnelEndpoint → Bool
is_valid_public_tunnel_endpoint endpoint =
    is_valid_endpoint_provider endpoint.provider && is_valid_endpoint endpoint.url

unfoldable pub is_valid_tor_onion_endpoint : TorOnionEndpoint → Bool
is_valid_tor_onion_endpoint endpoint = is_valid_endpoint endpoint.url

-- `rest.split(['/', '?', '#']).next()` and the like: the text before the first such character.
is_authority_end : ℕ → Bool
is_authority_end c = c == b'/' || c == b'?' || c == b'#'

abbrev or_else : Option Text → Option Text → Option Text
or_else none o = o
or_else (some t) o = some t

i2p_host : Text → Option Text
unfolding is_authority_end strip_prefix first_part last_part lowercase
i2p_host raw =
    Option.map
      (λ rest. lowercase (
        first_part (λ c. c == b':')
          (last_part (λ c. c == b'@') (first_part is_authority_end rest))))
      (or_else (strip_prefix (codes "ws://") raw) (strip_prefix (codes "http://") raw))

is_base32 : ℕ → Bool
is_base32 byte = is_lower byte || leb b'2' byte && leb byte b'7'

unfoldable pub is_valid_i2p_b32_url : Text → Bool
unfolding i2p_host is_base32 strip_suffix is_lower utf8 byte_len all
is_valid_i2p_b32_url raw = elim (i2p_host raw) [
  | none ↦ false
  | some host ↦ elim (strip_suffix (codes ".b32.i2p") host) [
    | none ↦ false
    | some label ↦ byte_len label == 52 && all is_base32 (utf8 label)
  ]
]

unfoldable pub is_valid_i2p_endpoint : I2pEndpoint → Bool
is_valid_i2p_endpoint endpoint = is_valid_endpoint endpoint.url && is_valid_i2p_b32_url endpoint.url

abbrev pub reject {ℓ} : {A : Type ℓ} → String → ℕ → Result Rejection A
reject message status = err (record { message = message; status = status })

-- The five conditions of `validate_descriptor`, in its order.
unfoldable pub unsupported_version : PeerDescriptor → Bool
unsupported_version d =
    not (d.protocol_version == descriptor_protocol_version)
    && not (d.protocol_version == legacy_descriptor_protocol_version)

unfoldable pub no_endpoints : PeerDescriptor → Bool
no_endpoints d =
    is_empty d.direct_endpoints
    && is_empty d.libp2p_endpoints
    && is_empty d.public_endpoints
    && is_empty d.tor_endpoints
    && is_empty d.i2p_endpoints

unfoldable pub too_many_endpoints : PeerDescriptor → Bool
too_many_endpoints d =
    ltb max_direct_endpoints (length d.direct_endpoints)
    || ltb max_libp2p_endpoints (length d.libp2p_endpoints)
    || ltb max_public_endpoints (length d.public_endpoints)
    || ltb max_tor_endpoints (length d.tor_endpoints)
    || ltb max_i2p_endpoints (length d.i2p_endpoints)

unfoldable pub any_invalid_endpoint : PeerDescriptor → Bool
any_invalid_endpoint d =
    any (λ e. not (is_valid_endpoint e)) (d.direct_endpoints ++ d.libp2p_endpoints)

unfoldable pub any_invalid_tunnel : PeerDescriptor → Bool
any_invalid_tunnel d =
    any (λ e. not (is_valid_public_tunnel_endpoint e)) d.public_endpoints
    || any (λ e. not (is_valid_tor_onion_endpoint e)) d.tor_endpoints
    || any (λ e. not (is_valid_i2p_endpoint e)) d.i2p_endpoints

unfoldable pub validate_descriptor : PeerDescriptor → Result Rejection (Unit {0})
validate_descriptor d =
    if unsupported_version d
    then reject "unsupported descriptor protocol version" 400
    else if not (is_valid_peer_id d.peer_id)
    then reject "invalid peer id" 400
    else if no_endpoints d
    then reject "no advertised endpoints" 400
    else if too_many_endpoints d
    then reject "too many advertised endpoints" 400
    else if any_invalid_endpoint d
    then reject "invalid advertised endpoint" 400
    else if any_invalid_tunnel d
    then reject "invalid advertised endpoint" 400
    else ok tt
