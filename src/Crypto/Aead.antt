-- ===== src/Crypto/Aead.antt =====
-- crates/peerline-crypto/src/aead.rs: chunks under keys of a ratchet. Erasing keys from memory is left
-- out.
use peerline.Base.{ℕ, ◌++◌, Option, none, some, Result, ok, err}
use peerline.Base.Text.{Bytes, codes}
use peerline.Base.Words.{be_bytes}
use peerline.Crypto.Primitives.{Primitives}

pub data AeadError : Type 0 where
  encrypt_failed decrypt_failed : AeadError

pub record EncryptedChunk : Type 0 where
  pub sequence : ℕ
  pub ciphertext : Bytes

pub record ChunkAead : Type 0 where
  pub chain_key : Bytes
  pub nonce_prefix : Bytes

unfoldable pub nonce : ChunkAead → ℕ → Bytes
nonce aead sequence = aead.nonce_prefix ++ be_bytes 8 sequence

abbrev pub advance : Bytes → ChunkAead → ChunkAead
advance next_chain_key aead = record aead { chain_key = next_chain_key }

module _ (prims : Primitives) where
  -- The message key and the next chain key.
  unfoldable pub derive_next : ChunkAead → ℕ → Bytes × Bytes
  derive_next aead sequence =
      let expand = λ (label : Bytes).
        prims.hkdf (codes "peerline:chunk-ratchet:v1") aead.chain_key
          (label ++ (aead.nonce_prefix ++ be_bytes 8 sequence)) 32 in
      (expand (codes "message-key"), expand (codes "chain-key"))

  abbrev pub sealed_chunk :
      ChunkAead → ℕ → Option Bytes → Bytes → Result AeadError EncryptedChunk × ChunkAead
  sealed_chunk aead sequence none next = (err encrypt_failed, aead)
  sealed_chunk aead sequence (some ciphertext) next =
      (ok (record { sequence = sequence; ciphertext = ciphertext }), advance next aead)

  unfoldable pub encrypt :
      ChunkAead → ℕ → Bytes → Bytes → Result AeadError EncryptedChunk × ChunkAead
  encrypt aead sequence aad plaintext =
      let (message_key, next) = derive_next aead sequence in
      sealed_chunk aead sequence (prims.seal message_key (nonce aead sequence) aad plaintext) next

  abbrev pub opened_chunk : ChunkAead → Option Bytes → Bytes → Result AeadError Bytes × ChunkAead
  opened_chunk aead none next = (err decrypt_failed, aead)
  opened_chunk aead (some plaintext) next = (ok plaintext, advance next aead)

  unfoldable pub decrypt : ChunkAead → Bytes → EncryptedChunk → Result AeadError Bytes × ChunkAead
  decrypt aead aad chunk =
      let (message_key, next) = derive_next aead chunk.sequence in
      opened_chunk aead
        (prims.open_sealed message_key (nonce aead chunk.sequence) aad chunk.ciphertext) next
