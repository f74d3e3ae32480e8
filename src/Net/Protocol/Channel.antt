-- ===== src/Net/Protocol/Channel.antt =====
-- protocol.rs: what one end of a secure channel encrypts and the other decrypts.
use peerline.Base.{ℕ, ◌<◌, ◌≡◌, refl, false, some, ok, err, arith, ◌==◌, ==_refl}
use peerline.Base.Text.{Bytes}
use peerline.Core.Manifest.{u64_mod}
use peerline.Crypto.Aead.{EncryptedChunk, encrypt, decrypt, derive_next, nonce, advance}
use peerline.Crypto.Primitives.{Primitives, Opens}
use peerline.Net.Protocol.{
  SecureFrame, SecureCodec, SecureChannel, sequence_mismatch, not_decrypted, secure_aad,
  next_sequence, encrypt_secure, decrypt_secure,
}

-- Encryption goes well on every frame, and what is encoded decodes.
pub record IsSound (prims : Primitives) (codec : SecureCodec) : Type 0 where
  pub opening : Opens prims
  pub seals :
      (key nonce aad plain : Bytes)
      → (cipher : Bytes) × (prims.seal key nonce aad plain ≡ some cipher)
  pub decodes : (frame : SecureFrame) → codec.decode (codec.encode frame) ≡ some frame

module _ (prims : Primitives) (codec : SecureCodec) where
  next_other : (n : ℕ) → n < u64_mod → (n == next_sequence n) ≡ false
  next_other n h = ground arith

  other_number :
      (channel : SecureChannel) (chunk : EncryptedChunk)
      → (chunk.sequence == channel.sequence) ≡ false
      → decrypt_secure prims codec channel chunk ≡ (err sequence_mismatch, channel)
  unfolding decrypt_secure
  other_number channel chunk h = rw h refl

  moves_on :
      (channel : SecureChannel) (chunk : EncryptedChunk)
      → chunk.sequence ≡ channel.sequence
      → (decrypt_secure prims codec channel chunk).1.sequence ≡ next_sequence channel.sequence
  unfolding decrypt_secure
  moves_on channel chunk h = ground arith

  -- Once a chunk with the number that is due has been looked at, no chunk with that number is accepted
  -- next, neither the same nor another, and whether the first was accepted or not.
  pub decrypt_secure_once :
      (channel : SecureChannel) (chunk again : EncryptedChunk)
      → channel.sequence < u64_mod
      → chunk.sequence ≡ channel.sequence
      → again.sequence ≡ chunk.sequence
      → let after = (decrypt_secure prims codec channel chunk).1 in
        decrypt_secure prims codec after again ≡ (err sequence_mismatch, after)
  decrypt_secure_once channel chunk again bound due same =
      other_number (decrypt_secure prims codec channel chunk).1 again
        (ground (arith, next_other channel.sequence bound, moves_on channel chunk due))

  -- A chunk that fails to open leaves the ratchet's key as it was.
  pub ratchet_stays :
      (channel : SecureChannel) (chunk : EncryptedChunk)
      → (decrypt_secure prims codec channel chunk).0 ≡ err not_decrypted
      → (decrypt_secure prims codec channel chunk).1.aead ≡ channel.aead
  unfolding decrypt_secure decrypt
  ratchet_stays channel chunk h = ground arith

  module _ (sound : IsSound prims codec) where
    -- A frame that is sent arrives, and both ends move on alike.
    pub decrypt_secure-encrypt_secure :
        (channel : SecureChannel) (frame : SecureFrame)
        → (chunk : EncryptedChunk) × (next : SecureChannel) × (encrypt_secure prims codec channel
              frame
            ≡ (ok chunk, next))
          × (decrypt_secure prims codec channel chunk ≡ (ok frame, next))
    unfolding encrypt_secure decrypt_secure encrypt decrypt
    decrypt_secure-encrypt_secure channel frame =
        let (message_key, chain) = derive_next prims channel.aead channel.sequence in
        let (cipher, sealed) =
          sound.seals message_key (nonce channel.aead channel.sequence) secure_aad
            (codec.encode frame) in
        (
          record { sequence = channel.sequence; ciphertext = cipher },
          record { aead = advance chain channel.aead; sequence = next_sequence channel.sequence },
          rw sealed refl,
          rw
              (
                ==_refl channel.sequence,
                sound.opening.opens message_key _ _ _ _ sealed,
                sound.decodes frame,
              )
              refl,
        )
