-- ===== src/Rendezvous/Validate/Exact.antt =====
-- The descriptors that `validate_descriptor` lets pass.
use peerline.Base.{
  ◌+◌, ◌≤◌, ◌<◌, ◌≡◌, ◌↔◌, refl, Bool, true, false, not, ◌⊎◌, List, [], ◌∷◌, ◌++◌, ok, arith,
  length, is_empty, any, All, All-append,
}
use peerline.Rendezvous.Model.{PeerDescriptor}
use peerline.Rendezvous.Validate.{
  is_valid_peer_id, is_valid_endpoint, is_valid_public_tunnel_endpoint, is_valid_tor_onion_endpoint,
  is_valid_i2p_endpoint, unsupported_version, no_endpoints, too_many_endpoints,
  any_invalid_endpoint, any_invalid_tunnel, validate_descriptor,
}

abbrev Passes {ℓ} : {A : Type ℓ} → (A → Bool) → List A → Type 0
Passes p = All (λ x. p x ≡ true)

pub record IsAdvertisable (d : PeerDescriptor) : Type 0 where
  pub version : (d.protocol_version ≡ 1) ⊎ (d.protocol_version ≡ 2)
  pub peer : is_valid_peer_id d.peer_id ≡ true
  pub reachable :
      0
      < length d.direct_endpoints
        + length d.libp2p_endpoints
        + length d.public_endpoints
        + length d.tor_endpoints
        + length d.i2p_endpoints
  pub direct_count : length d.direct_endpoints ≤ 8
  pub libp2p_count : length d.libp2p_endpoints ≤ 24
  pub public_count : length d.public_endpoints ≤ 8
  pub tor_count : length d.tor_endpoints ≤ 8
  pub i2p_count : length d.i2p_endpoints ≤ 8
  pub direct : Passes is_valid_endpoint d.direct_endpoints
  pub libp2p : Passes is_valid_endpoint d.libp2p_endpoints
  pub tunnels : Passes is_valid_public_tunnel_endpoint d.public_endpoints
  pub onions : Passes is_valid_tor_onion_endpoint d.tor_endpoints
  pub i2p : Passes is_valid_i2p_endpoint d.i2p_endpoints

module _ {ℓ} {A : Type ℓ} (p : A → Bool) where
  none_fails : (xs : List A) → any (λ x. not (p x)) xs ≡ false → Passes p xs
  unfolding any
  none_fails [] h = tt
  none_fails (x ∷ xs) h = (ground (arith, h), none_fails xs (ground (arith, h)))

  Passes-all : (xs : List A) → Passes p xs → any (λ x. not (p x)) xs ≡ false
  unfolding any
  Passes-all [] h = refl
  Passes-all (x ∷ xs) h = ground (arith, h.0, Passes-all xs h.1)

  Passes-split : (xs ys : List A) → Passes p (xs ++ ys) → Passes p xs × Passes p ys
  Passes-split [] ys h = (tt, h)
  Passes-split (x ∷ xs) ys h = let rest = Passes-split xs ys h.1 in ((h.0, rest.0), rest.1)

is_empty-length {ℓ} : {A : Type ℓ} (xs : List A) → (is_empty xs ≡ true) ↔ (length xs ≡ 0)
is_empty-length [] = (λ h. refl, λ h. refl)
is_empty-length (x ∷ xs) = (λ h. cc, λ h. absurd (omega arith))

record Conditions (d : PeerDescriptor) : Type 0 where
  version : unsupported_version d ≡ false
  peer : is_valid_peer_id d.peer_id ≡ true
  some_there : no_endpoints d ≡ false
  few : too_many_endpoints d ≡ false
  plain : any_invalid_endpoint d ≡ false
  tunnels : any_invalid_tunnel d ≡ false

validate_descriptor-Conditions :
    (d : PeerDescriptor) → (validate_descriptor d ≡ ok tt) ↔ Conditions d
unfolding validate_descriptor
validate_descriptor-Conditions d = (λ h. ground (arith, h), λ c. ground arith)

Conditions-IsAdvertisable : (d : PeerDescriptor) → Conditions d → IsAdvertisable d
unfolding unsupported_version no_endpoints too_many_endpoints any_invalid_endpoint
    any_invalid_tunnel
Conditions-IsAdvertisable d c =
    let plain =
      Passes-split is_valid_endpoint d.direct_endpoints d.libp2p_endpoints
        (none_fails is_valid_endpoint _ c.plain) in
    record {
      version = ground (arith, c.version);
      peer = c.peer;
      reachable = ground (
        arith,
        c.some_there,
        is_empty-length d.direct_endpoints,
        is_empty-length d.libp2p_endpoints,
        is_empty-length d.public_endpoints,
        is_empty-length d.tor_endpoints,
        is_empty-length d.i2p_endpoints,
      );
      direct_count = ground (arith, c.few);
      libp2p_count = ground (arith, c.few);
      public_count = ground (arith, c.few);
      tor_count = ground (arith, c.few);
      i2p_count = ground (arith, c.few);
      direct = plain.0;
      libp2p = plain.1;
      tunnels =
          none_fails is_valid_public_tunnel_endpoint d.public_endpoints (ground (arith, c.tunnels));
      onions = none_fails is_valid_tor_onion_endpoint d.tor_endpoints (ground (arith, c.tunnels));
      i2p = none_fails is_valid_i2p_endpoint d.i2p_endpoints (ground (arith, c.tunnels));
    }

IsAdvertisable-Conditions : (d : PeerDescriptor) → IsAdvertisable d → Conditions d
unfolding unsupported_version no_endpoints too_many_endpoints any_invalid_endpoint
    any_invalid_tunnel
IsAdvertisable-Conditions d a = record {
  version = ground (arith, a.version);
  peer = a.peer;
  some_there = ground (
    arith,
    a.reachable,
    is_empty-length d.direct_endpoints,
    is_empty-length d.libp2p_endpoints,
    is_empty-length d.public_endpoints,
    is_empty-length d.tor_endpoints,
    is_empty-length d.i2p_endpoints,
  );
  few = ground (arith, a.direct_count, a.libp2p_count, a.public_count, a.tor_count, a.i2p_count);
  plain =
      Passes-all is_valid_endpoint _
        (All-append _ d.direct_endpoints d.libp2p_endpoints a.direct a.libp2p);
  tunnels = ground (
    arith,
    Passes-all is_valid_public_tunnel_endpoint d.public_endpoints a.tunnels,
    Passes-all is_valid_tor_onion_endpoint d.tor_endpoints a.onions,
    Passes-all is_valid_i2p_endpoint d.i2p_endpoints a.i2p,
  );
}

-- `validate_descriptor` accepts exactly the descriptors of version 1 or 2 with a valid peer id, at least
-- one endpoint, at most 8, 24, 8, 8 and 8 of the five kinds, and only valid ones.
pub validate_descriptor_iff :
    (d : PeerDescriptor) → (validate_descriptor d ≡ ok tt) ↔ IsAdvertisable d
validate_descriptor_iff d = (
  λ h. Conditions-IsAdvertisable d ((validate_descriptor-Conditions d).0 h),
  λ a. (validate_descriptor-Conditions d).1 (IsAdvertisable-Conditions d a),
)
