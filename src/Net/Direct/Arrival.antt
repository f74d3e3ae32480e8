-- ===== src/Net/Direct/Arrival.antt =====
-- direct.rs: `receive_chunks` over the frames that `write_frames` gives.
use peerline.Base.{ℕ, ◌≡◌, refl, ap, sym, ◌∙◌, List, [], ◌∷◌, ◌++◌, map, some, Result, ok, err}
use peerline.Base.Text.{Bytes}
use peerline.Core.Manifest.{TransferDescriptor}
use peerline.Crypto.Aead.{EncryptedChunk}
use peerline.Crypto.Primitives.{Primitives}
use peerline.Net.Direct.Chunks.{open_frame, stored, receive_chunks, Arrived, write_frames}
use peerline.Net.Protocol.{
  SecureFrame, archive_chunk, finished, SecureChannel, SecureError, SecureCodec,
}
use peerline.Net.Protocol.Channel.{IsSound, decrypt_secure-encrypt_secure}
use peerline.Net.Site.{Site, on_resume}
use peerline.Net.Wire.{WireFrame, secure}
use peerline.Resume.{Disk, ResumeState, append_chunk}
use peerline.Resume.Transfer.{append_all}
use peerline.Resume.Sync.{AppendResult}
use peerline.Transfer.Archive.{Tree}

module _ (prims : Primitives) (codec : SecureCodec) (sound : IsSound prims codec) where
  -- The frames that come of writing, one after another.
  pub record Sent (frame : SecureFrame) (frames : List SecureFrame) (channel : SecureChannel)
      : Type 0 where
    pub chunk : EncryptedChunk
    pub next : SecureChannel
    pub later : List WireFrame
    pub end : SecureChannel
    pub writes :
        write_frames prims codec (frame ∷ frames) channel ≡ (ok (secure chunk ∷ later), end)
    pub writes_later : write_frames prims codec frames next ≡ (ok later, end)
    pub opens : open_frame prims codec channel (some chunk) ≡ (ok frame, next)

  write_frames_ok :
      (frames : List SecureFrame) (channel : SecureChannel)
      → (sent : List WireFrame) × (end : SecureChannel) × (write_frames prims codec frames channel
          ≡ (ok sent, end))
  unfolding write_frames
  write_frames_ok [] channel = ([], channel, refl)
  write_frames_ok (frame ∷ frames) channel =
      let (chunk, next, encrypts, decrypts) =
        decrypt_secure-encrypt_secure prims codec sound channel frame in
      let (later, end, writes) = write_frames_ok frames next in
      (secure chunk ∷ later, end, rw (encrypts, writes) refl)

  pub frame-Sent :
      (frame : SecureFrame) (frames : List SecureFrame) (channel : SecureChannel)
      → Sent frame frames channel
  unfolding write_frames open_frame
  frame-Sent frame frames channel =
      let (chunk, next, encrypts, decrypts) =
        decrypt_secure-encrypt_secure prims codec sound channel frame in
      let (later, end, writes) = write_frames_ok frames next in
      record {
        chunk = chunk;
        next = next;
        later = later;
        end = end;
        writes = rw (encrypts, writes) refl;
        writes_later = writes;
        opens = rw decrypts refl;
      }

-- The loop went as appending the chunks goes.
abbrev pub Follows : Tree → AppendResult → Arrived → Type 0
Follows tree (ok total, state, disk) (ok (state', left), site) =
    (state' ≡ state) × (left ≡ []) × (site.disk ≡ disk) × (site.tree ≡ tree)
Follows tree (ok total, state, disk) (err e, site) = ⊥
Follows tree (err e, state, disk) (ok arrived, site) = ⊥
Follows tree (err e, state, disk) (err e', site) =
    (e' ≡ on_resume e) × (site.disk ≡ disk) × (site.tree ≡ tree)

-- A step of `append_all`.
abbrev appended : AppendResult → (ResumeState → Disk → AppendResult) → AppendResult
appended (ok total, state, disk) rest = rest state disk
appended (err e, state, disk) rest = (err e, state, disk)

pub sent-eq :
    {w : Result SecureError (List WireFrame) × SecureChannel} {xs ys : List WireFrame}
    {e f : SecureChannel}
    → w ≡ (ok xs, e)
    → w ≡ (ok ys, f)
    → xs ≡ ys
sent-eq h k = ok-eq (ap (λ r. r.0) (sym h ∙ k))
  where
    ok-eq :
        {xs ys : List WireFrame}
        → ◌≡◌ {A = Result SecureError (List WireFrame)} (ok xs) (ok ys)
        → xs ≡ ys
    ok-eq e = cc

module _ (now : ℕ) (transfer_id : Bytes) (d : TransferDescriptor) where
  append_all_step :
      (c : Bytes) (cs : List Bytes) (r : AppendResult)
      → elim r.0 [ ok total ↦ append_all now d cs r.1 r.2 | err e ↦ r ]
        ≡ appended r (append_all now d cs)
  append_all_step c cs (ok total, state, disk) = refl
  append_all_step c cs (err e, state, disk) = refl

  stored-Follows :
      (r : AppendResult) (site : Site) (rest : ResumeState → Site → Arrived)
      (all : ResumeState → Disk → AppendResult)
      → ((state : ResumeState) (next : Site)
          → next.tree ≡ site.tree
          → Follows site.tree (all state next.disk) (rest state next))
      → Follows site.tree (appended r all) (stored now transfer_id d r site rest)
  stored-Follows (ok total, state, disk) site rest all h = h state _ refl
  stored-Follows (err e, state, disk) site rest all h = (refl, refl, refl)

  module _ (prims : Primitives) (codec : SecureCodec) (sound : IsSound prims codec) where
    none_left :
        (channel : SecureChannel) {later : List WireFrame} {end : SecureChannel}
        → write_frames prims codec [] channel ≡ (ok later, end)
        → later ≡ []
    unfolding write_frames
    none_left channel h = sent-eq h refl

    -- The frames of an archive, as they are written, make the receiver append the chunks one after
    -- another, up to the first error, and then stop at the end of the archive.
    pub receive_chunks-Follows :
        (cs : List Bytes) (channel : SecureChannel) (state : ResumeState) (site : Site)
        {sent : List WireFrame} {end : SecureChannel}
        → write_frames prims codec (map archive_chunk cs ++ finished ∷ []) channel ≡ (ok sent, end)
        → Follows site.tree
            (append_all now d cs state site.disk)
            (receive_chunks prims codec now transfer_id d sent channel state site)
    unfolding receive_chunks append_all
    receive_chunks-Follows [] channel state site {sent} writes =
        let s = frame-Sent prims codec sound finished [] channel in
        rw (sent-eq writes s.writes, s.opens) (refl, none_left s.next s.writes_later, refl, refl)
    receive_chunks-Follows (c ∷ cs) channel state site {sent} writes =
        let s =
          frame-Sent prims codec sound (archive_chunk c) (map archive_chunk cs ++ finished ∷ [])
            channel in
        rw
          (
            sent-eq writes s.writes,
            s.opens,
            append_all_step c cs (append_chunk now state d c site.disk),
          )
          (stored-Follows (append_chunk now state d c site.disk) site _ (append_all now d cs)
            λ state' next same.
              rw (← same) (receive_chunks-Follows cs s.next state' next s.writes_later))
