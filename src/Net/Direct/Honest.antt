-- ===== src/Net/Direct/Honest.antt =====
-- direct.rs: `receive_archive` over the frames of a whole transfer.
use peerline.Base.{◌<◌, ◌≡◌, refl, ap, ◌∙◌, true, List, [], ◌∷◌, ◌++◌, flatten, length, ok, err}
use peerline.Base.Text.{Bytes}
use peerline.Core.Manifest.{
  Compression, auto, uncompressed, zstd, lzma, Manifest, TransferDescriptor, u64_mod,
}
use peerline.Net.Direct.{Connection, Incoming, read_frame, write_frame, emit_direct}
use peerline.Net.Direct.Arrival.{frame-Sent, sent-eq, Follows, receive_chunks-Follows}
use peerline.Net.Direct.Chunks.{Arrived, receive_chunks, write_frames, transfer_frames}
use peerline.Net.Direct.Stream.{
  put_arrived, chunks_step, complete_step, unpack_step, conclude, receive_body, receive_archive,
}
use peerline.Net.Protocol.{header, SecureChannel}
use peerline.Net.Protocol.Channel.{IsSound}
use peerline.Net.Receiver.{same_compression}
use peerline.Core.Event.{PeerlineEvent, receiving_manifest, stage_changed, verifying}
use peerline.Net.Site.{
  Receiving, Site, report, ReceivedTransfer, received_transfer, unpack_received, complete_received,
}
use peerline.Net.Step.{run, give, modify, ◌>>=◌}
use peerline.Net.Step.Comes.{Comes, bind-Comes, lift-Comes, require-Comes, check-Comes, run-Comes}
use peerline.Net.Wire.{WireFrame}
use peerline.Resume.{ResumeState, complete_partial}
use peerline.Resume.Sync.{InSync, AppendResult}
use peerline.Resume.Transfer.{append_all, part_of, completed, resumed_transfer}
use peerline.Transfer.Archive.{Tree}
use peerline.Transfer.Codec.{unpack_archive_from_reader}

pub same_compression_refl : (c : Compression) → same_compression c c ≡ true
same_compression_refl auto = refl
same_compression_refl uncompressed = refl
same_compression_refl zstd = refl
same_compression_refl lzma = refl

-- The loop is through, and the part is the archive.
record Through (hash : Bytes → Bytes) (d : TransferDescriptor) (tree : Tree) (archive : Bytes)
    (arrived : Arrived) : Type 0 where
  pub state : ResumeState
  pub site : Site
  pub arrives : arrived ≡ (ok (state, []), site)
  pub completes : (complete_partial hash state d site.disk).0 ≡ ok archive
  pub same_tree : site.tree ≡ tree

arrived-Through :
    (hash : Bytes → Bytes) (d : TransferDescriptor) (tree : Tree) (archive : Bytes)
    (all : AppendResult) (arrived : Arrived)
    → Follows tree all arrived
    → completed hash d all ≡ ok archive
    → Through hash d tree archive arrived
arrived-Through hash d tree archive (ok total, state, disk) (ok (state', left), site)
      (same, none_left, there, kept) whole =
    record {
      state = state;
      site = site;
      arrives = rw (same, none_left) refl;
      completes = rw there whole;
      same_tree = kept;
    }
arrived-Through hash d tree archive (ok total, state, disk) (err e, site) f whole = absurd f
arrived-Through hash d tree archive (err e, state, disk) (ok arrived, site) f whole = absurd f
arrived-Through hash d tree archive (err e, state, disk) (err e', site) f whole = cc

read_frame-Comes :
    {c : Connection} {frame : WireFrame} {frames : List WireFrame}
    → c.inbox ≡ frame ∷ frames
    → Comes read_frame c frame (record c { inbox = frames })
unfolding read_frame run
read_frame-Comes h = record { eq = rw h refl }

emit_direct-Comes :
    (event : PeerlineEvent) {c : Connection}
    → Comes (emit_direct event) c tt (record c { site = report event c.site })
unfolding emit_direct modify
emit_direct-Comes event = record { eq = refl }

module _ (receiving : Receiving) (incoming : Incoming) (d : TransferDescriptor) where
  chunks_step-eq :
      (channel : SecureChannel) (state : ResumeState) (c : Connection) (tree : Tree)
      (archive : Bytes)
      (t : Through receiving.prims.blake3 d tree archive (
        receive_chunks receiving.prims receiving.secure_codec incoming.now incoming.transfer_id d
          c.inbox channel state c.site))
      → chunks_step receiving incoming d channel state c
        ≡ (ok t.state, record c { inbox = []; site = t.site })
  unfolding chunks_step
  chunks_step-eq channel state c tree archive t = ap (put_arrived c) t.arrives

  complete_step-eq :
      (state : ResumeState) (c : Connection) (archive : Bytes)
      → (complete_partial receiving.prims.blake3 state d c.site.disk).0 ≡ ok archive
      → (after : Connection) × (complete_step receiving d state c ≡ (ok archive, after))
        × (after.site.tree ≡ c.site.tree)
  unfolding complete_step complete_received
  complete_step-eq state c archive h =
      ((complete_step receiving d state c).1, rw (complete_step, complete_received, h) refl, refl)

  unpack_step-eq :
      (state : ResumeState) (c : Connection) (archive : Bytes) (manifest : Manifest) (left : Tree)
      → unpack_archive_from_reader receiving.decoders receiving.overwrite d.compression archive
          c.site.tree
        ≡ ok (manifest, left)
      → (after : Connection) × (unpack_step receiving incoming state d.compression archive c
          ≡ (ok (ok (received_transfer incoming.peer manifest)), after))
        × (after.site.tree ≡ left)
  unfolding unpack_step unpack_received
  unpack_step-eq state c archive manifest left h = (
    (unpack_step receiving incoming state d.compression archive c).1,
    rw (unpack_step, unpack_received, h) refl,
    rw (unpack_step, unpack_received, h) refl,
  )

  conclude-eq :
      (t : ReceivedTransfer) (c : Connection)
      → (after : Connection) × Comes (conclude receiving (ok t)) c t after
        × (after.site.tree ≡ c.site.tree)
  unfolding conclude write_frame emit_direct ◌>>=◌ modify give
  conclude-eq t c = ((conclude receiving (ok t) c).1, record { eq = refl }, refl)

  receive_body-eq :
      (channel : SecureChannel) (state : ResumeState) (c : Connection) (archive : Bytes)
      (manifest : Manifest) (left : Tree)
      → Through receiving.prims.blake3 d c.site.tree archive (
          receive_chunks receiving.prims receiving.secure_codec incoming.now incoming.transfer_id d
            c.inbox channel state c.site)
      → unpack_archive_from_reader receiving.decoders receiving.overwrite d.compression archive
          c.site.tree
        ≡ ok (manifest, left)
      → (after : Connection) × Comes
          (receive_body receiving incoming d state d.compression channel)
          c
          (received_transfer incoming.peer manifest)
          after
        × (after.site.tree ≡ left)
  unfolding receive_body
  receive_body-eq channel state c archive manifest left t unpacks =
      let over = record c { inbox = []; site = report (stage_changed verifying) t.site } in
      let (whole, completes, stays) = complete_step-eq t.state over archive t.completes in
      let (done, unpacks', tree_left) =
        unpack_step-eq t.state whole archive manifest left (rw (stays, t.same_tree) unpacks) in
      let (after, concludes, kept) = conclude-eq (received_transfer incoming.peer manifest) done in
      (
        after,
        bind-Comes _ (run-Comes _ (chunks_step-eq channel state c c.site.tree archive t)) (
            bind-Comes _ (emit_direct-Comes (stage_changed verifying)) (
              bind-Comes _ (run-Comes _ completes)
                (bind-Comes _ (run-Comes _ unpacks') concludes))),
        kept ∙ tree_left,
      )

module _ (receiving : Receiving) (sound : IsSound receiving.prims receiving.secure_codec) where
  -- Where the frames that come in are those that an honest sender writes over the same channel, the header, the
  -- reads of its archive and the end, and the reads are what the partial copy lacks of the archive, the
  -- receiver ends well: it reports the transfer of the archive's manifest, and leaves the destination as
  -- unpacking the archive does. The archive is not empty, is below 2^64 bytes and unpacks, the
  -- descriptor has its size and its hash, and the partial copy is in sync.
  pub receive_archive-transfer_frames :
      (incoming : Incoming) (d : TransferDescriptor) (state : ResumeState)
      (channel end : SecureChannel) (c : Connection) (archive : Bytes) (reads : List Bytes)
      (manifest : Manifest) (left : Tree)
      → InSync d state c.site.disk
      → part_of d c.site.disk ++ flatten reads ≡ archive
      → length archive ≡ d.archive_bytes
      → 0 < d.archive_bytes
      → d.archive_bytes < u64_mod
      → receiving.prims.blake3 archive ≡ d.resource_id
      → write_frames receiving.prims receiving.secure_codec
          (transfer_frames d.compression reads)
          channel
        ≡ (ok c.inbox, end)
      → unpack_archive_from_reader receiving.decoders receiving.overwrite d.compression archive
          c.site.tree
        ≡ ok (manifest, left)
      → (after : Connection) × (receive_archive receiving incoming d state channel c
          ≡ (ok (received_transfer incoming.peer manifest), after))
        × (after.site.tree ≡ left)
  unfolding receive_archive
  receive_archive-transfer_frames incoming d state channel end c archive reads manifest left v whole
        size positive small same writes unpacks =
      let s =
        frame-Sent receiving.prims receiving.secure_codec sound (header d.compression) _ channel in
      let begun : Connection = record c {
        inbox = s.later;
        site = report (stage_changed receiving_manifest) c.site;
      } in
      let (after, comes, tree_left) =
        receive_body-eq receiving incoming d s.next state begun archive manifest left
          (arrived-Through receiving.prims.blake3 d c.site.tree archive
            (append_all incoming.now d reads state c.site.disk) _
            (receive_chunks-Follows incoming.now incoming.transfer_id d receiving.prims
              receiving.secure_codec sound reads s.next state begun.site s.writes_later)
            (resumed_transfer receiving.prims.blake3 incoming.now d archive reads state c.site.disk
              v whole size positive small same))
          unpacks in
      (
        after,
        (bind-Comes _ (read_frame-Comes (sent-eq writes s.writes)) (
            bind-Comes _ (lift-Comes (ap (λ r. r.0) s.opens)) (
              bind-Comes _ (require-Comes d.compression _) (
                bind-Comes _ (check-Comes _ (same_compression_refl d.compression))
                  (bind-Comes _ (emit_direct-Comes _) (rw s.opens comes)))))).eq,
        tree_left,
      )
