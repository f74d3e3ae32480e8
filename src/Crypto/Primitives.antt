-- ===== src/Crypto/Primitives.antt =====
-- The functions of third-party crates that crates/peerline-crypto and the transfer protocol call.
-- Randomness that they draw is an argument.
use peerline.Base.{ℕ, ◌≡◌, Option, some}
use peerline.Base.Text.{Bytes}

-- `hkdf` extracts with a salt from key material and expands under an info text to a length; `seal` and
-- `open_sealed` are ChaCha20-Poly1305 by key, nonce and associated data. `x_public` and
-- `diffie_hellman` are X25519. `kem_keypair` gives an ML-KEM decapsulation key with its encapsulation
-- key, `encapsulate` a ciphertext with the shared key.
pub record Primitives : Type 0 where
  pub blake3 : Bytes → Bytes
  pub hkdf : Bytes → Bytes → Bytes → ℕ → Bytes
  pub seal : Bytes → Bytes → Bytes → Bytes → Option Bytes
  pub open_sealed : Bytes → Bytes → Bytes → Bytes → Option Bytes
  pub x_public : Bytes → Bytes
  pub diffie_hellman : Bytes → Bytes → Bytes
  pub kem_keypair : Bytes → Bytes × Bytes
  pub encapsulate : Bytes → Bytes → Option (Bytes × Bytes)
  pub decapsulate : Bytes → Bytes → Option Bytes

-- The steps of `opaque_ke`, each with the parsing of its message. A start gives a state and a message.
pub record OpaqueSteps : Type 0 where
  pub new_setup : Bytes → Bytes
  pub client_registration_start : Bytes → Bytes → Option (Bytes × Bytes)
  pub server_registration_start : Bytes → Bytes → Bytes → Option Bytes
  pub client_registration_finish : Bytes → Bytes → Bytes → Bytes → Option Bytes
  pub server_registration_finish : Bytes → Option Bytes
  pub client_login_start : Bytes → Bytes → Option (Bytes × Bytes)
  pub server_login_start : Bytes → Bytes → Bytes → Bytes → Bytes → Option (Bytes × Bytes)
  pub client_login_finish : Bytes → Bytes → Bytes → Bytes → Option (Bytes × Bytes)
  pub server_login_finish : Bytes → Bytes → Option Bytes

-- What a sealed text opens to, under the same key, nonce and associated data.
pub record Opens (prims : Primitives) : Type 0 where
  pub opens :
      (key nonce aad plain cipher : Bytes)
      → prims.seal key nonce aad plain ≡ some cipher
      → prims.open_sealed key nonce aad cipher ≡ some plain

-- Both ends of a key exchange come to the same secrets.
pub record Exchanges (prims : Primitives) : Type 0 where
  pub commutes :
      (a b : Bytes)
      → prims.diffie_hellman a (prims.x_public b) ≡ prims.diffie_hellman b (prims.x_public a)
  pub decapsulates :
      (seed random cipher shared : Bytes)
      → prims.encapsulate random (prims.kem_keypair seed).1 ≡ some (cipher, shared)
      → prims.decapsulate (prims.kem_keypair seed).0 cipher ≡ some shared
