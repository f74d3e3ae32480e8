-- ===== src/Net/Protocol.antt =====
-- crates/peerline-net/src/protocol.rs: frames, the secure channel and the transcripts. Encoding and
-- decoding of frames is postcard's, a parameter.
pub mod Channel
use peerline.Base.{
  ℕ, ◌+◌, ◌*◌, ◌%◌, not, List, [], ◌∷◌, ◌++◌, Option, none, some, Result, ok, err, ◌==◌, ltb,
  if◌then◌else◌, length,
}
use peerline.Base.Text.{Text, Bytes, codes, utf8}
use peerline.Base.Words.{be_bytes}
use peerline.Core.Manifest.{Compression, TransferDescriptor, u64_mod}
use peerline.Crypto.Aead.{AeadError, EncryptedChunk, ChunkAead, encrypt, decrypt}
use peerline.Crypto.Primitives.{Primitives}
use peerline.Crypto.Transcript
use peerline.Crypto.Transcript.{Transcript}

abbrev pub protocol_version : ℕ
protocol_version = 3

abbrev pub max_frame : ℕ
max_frame = 64 * 1024 * 1024

abbrev pub secure_aad : Bytes
secure_aad = codes "peerline:secure-frame:v1"

pub data SecureFrame : Type 0 where
  header : Compression → SecureFrame
  archive_chunk : Bytes → SecureFrame
  finished : SecureFrame

pub data SecureError : Type 0 where
  not_encrypted sequence_mismatch not_decrypted malformed_frame : SecureError

-- postcard, on secure frames.
pub record SecureCodec : Type 0 where
  pub encode : SecureFrame → Bytes
  pub decode : Bytes → Option SecureFrame

-- A ratchet and the number of the next frame, at either end.
pub record SecureChannel : Type 0 where
  pub aead : ChunkAead
  pub sequence : ℕ

abbrev next_sequence : ℕ → ℕ
next_sequence sequence = (sequence + 1) % u64_mod

module _ (prims : Primitives) (codec : SecureCodec) where
  -- The number is advanced only where the encryption went well.
  abbrev pub encrypted_frame :
      SecureChannel
      → Result AeadError EncryptedChunk × ChunkAead
      → Result SecureError EncryptedChunk × SecureChannel
  encrypted_frame channel (err e, aead) = (err not_encrypted, record channel { aead = aead })
  encrypted_frame channel (ok chunk, aead) =
      (ok chunk, record { aead = aead; sequence = next_sequence channel.sequence })

  unfoldable pub encrypt_secure :
      SecureChannel → SecureFrame → Result SecureError EncryptedChunk × SecureChannel
  encrypt_secure channel frame =
      encrypted_frame channel
        (encrypt prims channel.aead channel.sequence secure_aad (codec.encode frame))

  abbrev pub decoded_frame : Option SecureFrame → Result SecureError SecureFrame
  decoded_frame none = err malformed_frame
  decoded_frame (some frame) = ok frame

  -- The number is advanced before the decryption.
  abbrev pub decrypted_frame :
      SecureChannel
      → Result AeadError Bytes × ChunkAead
      → Result SecureError SecureFrame × SecureChannel
  decrypted_frame channel (err e, aead) =
      (err not_decrypted, record { aead = aead; sequence = next_sequence channel.sequence })
  decrypted_frame channel (ok plaintext, aead) = (
    decoded_frame (codec.decode plaintext),
    record { aead = aead; sequence = next_sequence channel.sequence },
  )

  unfoldable pub decrypt_secure :
      SecureChannel → EncryptedChunk → Result SecureError SecureFrame × SecureChannel
  decrypt_secure channel chunk =
      if chunk.sequence == channel.sequence
      then decrypted_frame channel (decrypt prims channel.aead secure_aad chunk)
      else (err sequence_mismatch, channel)

-- `direct_transcript`, over the route that is given.
unfoldable pub direct_transcript_for_route : Option Text → Text → Transcript
direct_transcript_for_route name route_label =
    let base =
      Transcript.append
        (Transcript.append (Transcript.new (codes "peerline:direct:v1")) (codes "version")
          (be_bytes 2 protocol_version))
        (codes "route") (utf8 route_label) in
    elim name [
      | some n ↦ Transcript.append base (codes "name") (utf8 n)
      | none ↦ Transcript.append base (codes "name") (codes "direct-ip")
    ]

unfoldable pub direct_transcript : Option Text → Transcript
unfolding direct_transcript_for_route
direct_transcript name = direct_transcript_for_route name (codes "direct-tcp")

unfoldable pub libp2p_transcript : Text → Bytes → Text → Text → Transcript
libp2p_transcript name lookup_key receiver_peer_id route_label =
    Transcript.append
      (Transcript.append
        (Transcript.append
          (Transcript.append
            (Transcript.append (Transcript.new (codes "peerline:libp2p:v1")) (codes "version")
              (be_bytes 2 protocol_version))
            (codes "route") (utf8 route_label))
          (codes "name") (utf8 name))
        (codes "lookup-key") lookup_key)
      (codes "receiver-peer-id") (utf8 receiver_peer_id)
