-- ===== src/Crypto/Handshake/Agreement.antt =====
-- handshake.rs: the keys of both ends of the exchange, compared.
use peerline.Base.{◌≡◌, refl, sym, subst, ap, ◌∙◌, Option, none, some}
use mathlib.Core.Option
use peerline.Base.Text.{Bytes}
use peerline.Crypto.Primitives.{Primitives, Exchanges}
use peerline.Crypto.Transcript.{Transcript}
use peerline.Crypto.Handshake.{
  ClientKem, SessionKeys, receiver, derive_session_keys, client_start, client_finish, server_start,
  server_finish,
}

map-some {ℓ κ} :
    {A : Type ℓ} {B : Type κ} (f : A → B) (o : Option A) {b : B}
    → Option.map f o ≡ some b
    → (a : A) × (o ≡ some a) × (f a ≡ b)
map-some f none h = cc
map-some f (some a) h = (a, refl, cc)

module _ (prims : Primitives) (laws : Exchanges prims) where
  -- Where the client's end of a handshake succeeds, with the opaque key and the transcript of the
  -- server, the server's end succeeds, and each end sends under the key that the other receives with.
  pub server_finish-client_finish :
      (secret server_secret seed random opaque_key : Bytes) (transcript : Transcript)
      {kem : ClientKem} {keys : SessionKeys}
      → client_finish prims random
          (client_start prims secret)
          (server_start prims server_secret seed).hello
          opaque_key
          transcript
        ≡ some (kem, keys)
      → (server_keys : SessionKeys) × (server_finish prims
            (server_start prims server_secret seed)
            (client_start prims secret).hello
            kem
            opaque_key
            transcript
          ≡ some server_keys)
        × (keys.send_key ≡ server_keys.recv_key)
        × (keys.recv_key ≡ server_keys.send_key)
  unfolding client_start server_start client_finish server_finish derive_session_keys
  server_finish-client_finish secret server_secret seed random opaque_key transcript {kem} h =
      let (made, encapsulated, same) =
        map-some _ (prims.encapsulate random (prims.kem_keypair seed).1) h in
      let shared =
        λ (ours : Bytes) (theirs : Bytes). prims.diffie_hellman ours (prims.x_public theirs) in
      let keys_with =
        λ (dh : Bytes). derive_session_keys prims receiver opaque_key dh made.1 transcript in
      (
        keys_with (shared server_secret secret),
        ap
            (Option.map λ k.
              derive_session_keys prims receiver opaque_key (shared server_secret secret) k
                transcript)
            (subst (λ c. prims.decapsulate (prims.kem_keypair seed).0 c ≡ some made.1)
              (ap (λ r. r.0.ml_kem_ciphertext) same)
              (laws.decapsulates seed random made.0 made.1 encapsulated)),
        sym (ap (λ r. r.1.send_key) same)
            ∙ ap (λ dh. (keys_with dh).recv_key) (laws.commutes secret server_secret),
        sym (ap (λ r. r.1.recv_key) same)
            ∙ ap (λ dh. (keys_with dh).send_key) (laws.commutes secret server_secret),
      )
