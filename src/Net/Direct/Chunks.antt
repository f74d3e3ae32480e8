-- ===== src/Net/Direct/Chunks.antt =====
-- crates/peerline-net/src/direct.rs: the loop of `receive_stream` over the secure frames after the
-- header, and the frames that `complete_direct_transfer` writes.
use peerline.Base.{ℕ, List, [], ◌∷◌, ◌++◌, map, Option, none, some, Result, ok, err}
use peerline.Base.Text.{Bytes}
use peerline.Core.Manifest.{Compression, TransferDescriptor}
use peerline.Crypto.Aead.{EncryptedChunk}
use peerline.Crypto.Primitives.{Primitives}
use peerline.Net.Direct.{chunk_of}
use peerline.Net.Protocol.{
  SecureFrame, header, archive_chunk, finished, SecureChannel, SecureError, SecureCodec,
  decrypt_secure, encrypt_secure,
}
use peerline.Core.Event.{progress}
use peerline.Net.Site.{
  Site, NetError, unexpected_frame, duplicate_header, on_wire, on_secure, on_resume, report,
}
use peerline.Net.Wire.{WireFrame, secure, unexpected_end}
use peerline.Resume.{Disk, ResumeState, ResumeError, append_chunk}

-- How the archive arrived, and the frames that are left; with the site.
abbrev pub Arrived : Type 0
Arrived = Result NetError (ResumeState × List WireFrame) × Site

module _ (now : ℕ) (transfer_id : Bytes) (d : TransferDescriptor) where
  -- What follows an `append_chunk`.
  abbrev pub stored :
      Result ResumeError ℕ × ResumeState × Disk → Site → (ResumeState → Site → Arrived) → Arrived
  stored (ok total, state, disk) site rest =
      rest state (report (progress transfer_id total d.archive_bytes) (record site { disk = disk }))
  stored (err e, state, disk) site rest = (err (on_resume e), record site { disk = disk })

-- `write_secure`, frame after frame.
abbrev pub written :
    Result SecureError EncryptedChunk × SecureChannel
    → (SecureChannel → Result SecureError (List WireFrame) × SecureChannel)
    → Result SecureError (List WireFrame) × SecureChannel
written (err e, channel) rest = (err e, channel)
written (ok chunk, channel) rest =
    let (frames, channel') = rest channel in
    (elim frames [ ok fs ↦ ok (secure chunk ∷ fs) | err e ↦ err e ], channel')

module _ (prims : Primitives) (codec : SecureCodec) where
  -- `read_secure`, on a frame that was read.
  unfoldable pub open_frame :
      SecureChannel → Option EncryptedChunk → Result NetError SecureFrame × SecureChannel
  open_frame channel none = (err unexpected_frame, channel)
  open_frame channel (some chunk) =
      let (opened, next) = decrypt_secure prims codec channel chunk in
      (elim opened [ ok frame ↦ ok frame | err e ↦ err (on_secure e) ], next)

  module _ (now : ℕ) (transfer_id : Bytes) (d : TransferDescriptor) where
    abbrev pub take_frame :
        Result NetError SecureFrame
        → List WireFrame
        → ResumeState
        → Site
        → (ResumeState → Site → Arrived)
        → Arrived
    take_frame (err e) frames state site rest = (err e, site)
    take_frame (ok (header compression)) frames state site rest = (err duplicate_header, site)
    take_frame (ok (archive_chunk bytes)) frames state site rest =
        stored now transfer_id d (append_chunk now state d bytes site.disk) site rest
    take_frame (ok finished) frames state site rest = (ok (state, frames), site)

    unfoldable pub receive_chunks : List WireFrame → SecureChannel → ResumeState → Site → Arrived
    receive_chunks [] channel state site = (err (on_wire unexpected_end), site)
    receive_chunks (frame ∷ frames) channel state site =
        let (opened, channel') = open_frame channel (chunk_of frame) in
        take_frame opened frames state site
          (λ state' site'. receive_chunks frames channel' state' site')

  unfoldable pub write_frames :
      List SecureFrame → SecureChannel → Result SecureError (List WireFrame) × SecureChannel
  write_frames [] channel = (ok [], channel)
  write_frames (frame ∷ frames) channel =
      written (encrypt_secure prims codec channel frame) (write_frames frames)

-- The frames of `complete_direct_transfer`, by what its reads of the archive give.
abbrev pub transfer_frames : Compression → List Bytes → List SecureFrame
transfer_frames compression reads = header compression ∷ (map archive_chunk reads ++ finished ∷ [])
