-- ===== src/Crypto/Handshake.antt =====
-- crates/peerline-crypto/src/handshake.rs: the exchange of keys that follows the login.
pub mod Agreement
use peerline.Base.{◌++◌, Option, none, some}
use mathlib.Core.Option
use peerline.Base.Text.{Bytes, codes}
use peerline.Crypto.Primitives.{Primitives}
use peerline.Crypto.Transcript.{Transcript, hash}

pub data HandshakeRole : Type 0 where
  sender receiver : HandshakeRole

pub record ClientHello : Type 0 where
  pub x25519_public : Bytes

pub record ServerHello : Type 0 where
  pub x25519_public : Bytes
  pub ml_kem_public : Bytes

pub record ClientKem : Type 0 where
  pub ml_kem_ciphertext : Bytes

pub record SessionKeys : Type 0 where
  pub send_key : Bytes
  pub recv_key : Bytes

pub record ClientHandshake : Type 0 where
  pub secret : Bytes
  pub hello : ClientHello

pub record ServerHandshake : Type 0 where
  pub secret : Bytes
  pub ml_kem_decapsulation : Bytes
  pub hello : ServerHello

module _ (prims : Primitives) where
  abbrev pub keys_of : HandshakeRole → Bytes → Bytes → SessionKeys
  keys_of sender to_receiver to_sender = record { send_key = to_receiver; recv_key = to_sender }
  keys_of receiver to_receiver to_sender = record { send_key = to_sender; recv_key = to_receiver }

  unfoldable pub derive_session_keys :
      HandshakeRole → Bytes → Bytes → Bytes → Transcript → SessionKeys
  derive_session_keys role opaque_key x25519_shared ml_kem_shared transcript =
      let input =
        opaque_key ++ (x25519_shared ++ (ml_kem_shared ++ hash prims.blake3 transcript)) in
      let expand = λ (info : Bytes). prims.hkdf (codes "peerline:session:v1") input info 32 in
      keys_of role (expand (codes "sender-to-receiver")) (expand (codes "receiver-to-sender"))

  -- `ClientHandshake::start`, with a random secret.
  unfoldable pub client_start : Bytes → ClientHandshake
  client_start secret = record {
    secret = secret;
    hello = record { x25519_public = prims.x_public secret };
  }

  -- `ClientHandshake::finish`: an encapsulation key that does not parse is an error.
  unfoldable pub client_finish :
      Bytes → ClientHandshake → ServerHello → Bytes → Transcript → Option (ClientKem × SessionKeys)
  unfolding derive_session_keys
  client_finish random client server opaque_key transcript =
      Option.map
        (λ made. (
          record { ml_kem_ciphertext = made.0 },
          derive_session_keys sender opaque_key
              (prims.diffie_hellman client.secret server.x25519_public) made.1 transcript,
        ))
        (prims.encapsulate random server.ml_kem_public)

  -- `ServerHandshake::start`, with a random secret and a seed of the key pair.
  unfoldable pub server_start : Bytes → Bytes → ServerHandshake
  server_start secret seed = record {
    secret = secret;
    ml_kem_decapsulation = (prims.kem_keypair seed).0;
    hello = record {
      x25519_public = prims.x_public secret;
      ml_kem_public = (prims.kem_keypair seed).1;
    };
  }

  -- `ServerHandshake::finish`: a ciphertext of a wrong length is an error.
  unfoldable pub server_finish :
      ServerHandshake → ClientHello → ClientKem → Bytes → Transcript → Option SessionKeys
  unfolding derive_session_keys
  server_finish server client kem opaque_key transcript =
      Option.map
        (λ shared.
          derive_session_keys receiver opaque_key
            (prims.diffie_hellman server.secret client.x25519_public) shared transcript)
        (prims.decapsulate server.ml_kem_decapsulation kem.ml_kem_ciphertext)
