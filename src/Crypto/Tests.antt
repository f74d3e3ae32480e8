-- ===== src/Crypto/Tests.antt =====
-- A handshake over a toy exchange, and two transcripts.
use peerline.Base.{◌≡◌, refl, [], ◌∷◌, some, arith}
use peerline.Base.Text.{codes}
use peerline.Crypto.Handshake.{
  ClientKem, SessionKeys, client_start, client_finish, server_start, server_finish,
  derive_session_keys,
}
use peerline.Crypto.Handshake.Agreement.{server_finish-client_finish}
use peerline.Crypto.Primitives.{Primitives, Exchanges}
use peerline.Crypto.Transcript.{Transcript}
use peerline.Crypto.Transcript.Binding.{hasher_input_injective}

-- Nothing is shared, and the key that is encapsulated is the random number itself.
abbrev prims : Primitives
prims = record {
  blake3 = λ b. b;
  hkdf = λ salt key info n. info;
  seal = λ key nonce aad plain. some plain;
  open_sealed = λ key nonce aad cipher. some cipher;
  x_public = λ secret. [];
  diffie_hellman = λ secret public. public;
  kem_keypair = λ seed. (seed, seed);
  encapsulate = λ random key. some (random, random);
  decapsulate = λ key cipher. some cipher;
}

prims-Exchanges : Exchanges prims
prims-Exchanges = record {
  commutes = λ a b. refl;
  decapsulates = λ seed random cipher shared e. cc;
}

abbrev transcript : Transcript
transcript = record { parts = codes "label" ∷ [] }

abbrev finished : ClientKem × SessionKeys
finished = (
  record { ml_kem_ciphertext = codes "r" },
  record { send_key = codes "sender-to-receiver"; recv_key = codes "receiver-to-sender" },
)

client_finish_toy :
    client_finish prims
      (codes "r")
      (client_start prims (codes "a"))
      (server_start prims (codes "b") (codes "s")).hello
      (codes "key")
      transcript
    ≡ some finished
unfolding client_finish client_start server_start derive_session_keys
client_finish_toy = refl

server_finish-client_finish_example :
    (server_keys : SessionKeys) × (server_finish prims
        (server_start prims (codes "b") (codes "s"))
        (client_start prims (codes "a")).hello
        finished.0
        (codes "key")
        transcript
      ≡ some server_keys)
    × (codes "sender-to-receiver" ≡ server_keys.recv_key)
    × (codes "receiver-to-sender" ≡ server_keys.send_key)
server_finish-client_finish_example =
    server_finish-client_finish prims prims-Exchanges (codes "a") (codes "b") (codes "s")
      (codes "r") (codes "key") transcript client_finish_toy

hasher_input_injective_example : codes "ab" ∷ [] ≡ codes "ab" ∷ []
hasher_input_injective_example =
    hasher_input_injective (codes "ab" ∷ []) (codes "ab" ∷ []) (omega arith, tt) (omega arith, tt)
      refl
