-- ===== src/Net/Sender/Frames.antt =====
-- direct.rs: `send_archive`, compared with the frames that `write_frames` gives.
use peerline.Base.{
  ℕ, ◌+◌, ◌≡◌, refl, subst, sym, ap, ◌∙◌, List, [], ◌∷◌, ◌++◌, append_assoc, append-nil, map,
  Result, ok, err, length,
}
use peerline.Base.Text.{Bytes}
use peerline.Core.Event.{PeerlineEvent, progress}
use peerline.Core.Manifest.{Compression}
use peerline.Crypto.Aead.{EncryptedChunk}
use peerline.Net.Direct.Arrival.{sent-eq}
use peerline.Net.Direct.Chunks.{written, write_frames, transfer_frames}
use peerline.Net.Protocol.{
  SecureFrame, header, archive_chunk, finished, SecureChannel, SecureError, encrypt_secure,
}
use peerline.Net.Sender.{
  Sending, SendError, SendOptions, emit_event, put_chunk, send_secure, send_reads, send_archive,
}
use peerline.Net.Step.{modify, give}
use peerline.Net.Step.Comes.{Comes, bind-Comes}
use peerline.Net.Wire.{WireFrame, secure}

-- The first of the frames that were written, and what wrote the others.
record First (r : Result SecureError EncryptedChunk × SecureChannel)
    (rest : SecureChannel → Result SecureError (List WireFrame) × SecureChannel)
    (sent : List WireFrame) (end : SecureChannel) : Type 0 where
  pub chunk : EncryptedChunk
  pub next : SecureChannel
  pub later : List WireFrame
  pub first_is : r ≡ (ok chunk, next)
  pub rest_is : rest next ≡ (ok later, end)
  pub sent_is : sent ≡ secure chunk ∷ later

put_first :
    (chunk : EncryptedChunk) (w : Result SecureError (List WireFrame) × SecureChannel)
    (sent : List WireFrame) (end : SecureChannel)
    → ◌≡◌ {A = Result SecureError (List WireFrame) × SecureChannel}
        (elim w.0 [ ok fs ↦ ok (secure chunk ∷ fs) | err e ↦ err e ], w.1)
        (ok sent, end)
    → (later : List WireFrame) × (w ≡ (ok later, end)) × (sent ≡ secure chunk ∷ later)
put_first chunk (ok later, channel) sent end e =
    (later, ap (λ r. (ok later, r.1)) e, sent-eq refl (sym e))
put_first chunk (err e', channel) sent end e = cc

first_frame :
    (r : Result SecureError EncryptedChunk × SecureChannel)
    (rest : SecureChannel → Result SecureError (List WireFrame) × SecureChannel)
    (sent : List WireFrame) (end : SecureChannel)
    → written r rest ≡ (ok sent, end)
    → First r rest sent end
first_frame (err e', channel) rest sent end e = cc
first_frame (ok chunk, next) rest sent end e =
    let (later, rest_is, sent_is) = put_first chunk (rest next) sent end e in
    record {
      chunk = chunk;
      next = next;
      later = later;
      first_is = refl;
      rest_is = rest_is;
      sent_is = sent_is;
    }

emit_event-Comes :
    (event : PeerlineEvent) {s : Sending}
    → Comes (emit_event event) s tt (record s { events = s.events ++ event ∷ [] })
unfolding emit_event modify
emit_event-Comes event = record { eq = refl }

module _ (options : SendOptions) where
  -- The frames that a step writes, and the channel that it comes to.
  record Writes (m : Sending → Result SendError SecureChannel × Sending) (s : Sending)
      (sent : List WireFrame) (channel : SecureChannel) : Type 0 where
    pub after : Sending
    pub comes : Comes m s channel after
    pub outbox_is : after.outbox ≡ s.outbox ++ sent

  send_secure-Comes :
      (frame : SecureFrame) (channel next : SecureChannel) (chunk : EncryptedChunk) (s : Sending)
      → encrypt_secure options.prims options.secure_codec channel frame ≡ (ok chunk, next)
      → Comes
          (send_secure options frame channel)
          s
          next
          (record s { outbox = s.outbox ++ secure chunk ∷ [] })
  unfolding send_secure
  send_secure-Comes frame channel next chunk s h = record { eq = ap (put_chunk options s) h }

  -- The reads, and then what follows them.
  record Split (total sent_bytes : ℕ) (reads : List Bytes) (more : List SecureFrame)
      (channel end : SecureChannel) (sent : List WireFrame) (s : Sending) : Type 0 where
    pub front : List WireFrame
    pub mid : SecureChannel
    pub back : List WireFrame
    pub writes : Writes (send_reads options total sent_bytes reads channel) s front mid
    pub rest_is : write_frames options.prims options.secure_codec more mid ≡ (ok back, end)
    pub sent_is : sent ≡ front ++ back

  send_reads-Split :
      (total sent_bytes : ℕ) (reads : List Bytes) (more : List SecureFrame)
      (channel end : SecureChannel) (sent : List WireFrame) (s : Sending)
      → write_frames options.prims options.secure_codec (map archive_chunk reads ++ more) channel
        ≡ (ok sent, end)
      → Split total sent_bytes reads more channel end sent s
  unfolding send_reads write_frames give
  send_reads-Split total sent_bytes [] more channel end sent s h = record {
    front = [];
    mid = channel;
    back = sent;
    writes = record {
      after = s;
      comes = record { eq = refl };
      outbox_is = sym (append-nil s.outbox);
    };
    rest_is = h;
    sent_is = refl;
  }
  send_reads-Split total sent_bytes (bytes ∷ reads) more channel end sent s h =
      let f = first_frame _ _ sent end h in
      let s' : Sending = record s {
        outbox = s.outbox ++ secure f.chunk ∷ [];
        events = s.events ++ progress options.transfer_id (sent_bytes + length bytes) total ∷ [];
      } in
      let later =
        send_reads-Split total (sent_bytes + length bytes) reads more f.next end f.later s'
          f.rest_is in
      record {
        front = secure f.chunk ∷ later.front;
        mid = later.mid;
        back = later.back;
        writes = record {
          after = later.writes.after;
          comes =
              bind-Comes _
                (send_secure-Comes (archive_chunk bytes) channel f.next f.chunk s f.first_is)
                (bind-Comes _ (emit_event-Comes _) later.writes.comes);
          outbox_is =
              later.writes.outbox_is ∙ append_assoc s.outbox (secure f.chunk ∷ []) later.front;
        };
        rest_is = later.rest_is;
        sent_is = f.sent_is ∙ ap (◌∷◌ (secure f.chunk)) later.sent_is;
      }

  joined :
      (before : List WireFrame) (chunk : EncryptedChunk) (front back : List WireFrame)
      {sent later : List WireFrame}
      → sent ≡ secure chunk ∷ later
      → later ≡ front ++ back
      → ((before ++ secure chunk ∷ []) ++ front) ++ back ≡ before ++ sent
  joined before chunk front back h k =
      append_assoc (before ++ secure chunk ∷ []) front back
      ∙ (append_assoc before (secure chunk ∷ []) (front ++ back)
          ∙ ap (λ fs. before ++ fs) (ap (◌∷◌ (secure chunk)) (sym k) ∙ sym h))

  send_one-Writes :
      (frame : SecureFrame) (channel end : SecureChannel) (sent : List WireFrame) (s : Sending)
      → write_frames options.prims options.secure_codec (frame ∷ []) channel ≡ (ok sent, end)
      → Writes (send_secure options frame channel) s sent end
  unfolding write_frames
  send_one-Writes frame channel end sent s h =
      let f =
        first_frame (encrypt_secure options.prims options.secure_codec channel frame)
          (write_frames options.prims options.secure_codec []) sent end h in
      let after : Sending = record s { outbox = s.outbox ++ secure f.chunk ∷ [] } in
      record {
        after = after;
        comes =
            subst (λ c. Comes (send_secure options frame channel) s c after)
              (ap (λ r. r.1) f.rest_is)
              (send_secure-Comes frame channel f.next f.chunk s f.first_is);
        outbox_is =
            ap (λ fs. s.outbox ++ secure f.chunk ∷ fs) (sent-eq refl f.rest_is)
            ∙ ap (λ fs. s.outbox ++ fs) (sym f.sent_is);
      }

  -- The secure frames of a transfer, as the sender writes them with its events in between, are those that
  -- `write_frames` gives for the header, the reads and the end, and the sender comes to the same channel.
  pub send_archive-write_frames :
      (compression : Compression) (total offset : ℕ) (reads : List Bytes)
      (channel end : SecureChannel) (sent : List WireFrame) (s : Sending)
      → write_frames options.prims options.secure_codec (transfer_frames compression reads) channel
        ≡ (ok sent, end)
      → (after : Sending) × (send_archive options compression total offset reads channel s
          ≡ (ok end, after))
        × (after.outbox ≡ s.outbox ++ sent)
  unfolding send_archive write_frames
  send_archive-write_frames compression total offset reads channel end sent s h =
      let f = first_frame _ _ sent end h in
      let s' : Sending = record s { outbox = s.outbox ++ secure f.chunk ∷ [] } in
      let p = send_reads-Split total offset reads (finished ∷ []) f.next end f.later s' f.rest_is in
      let l = send_one-Writes finished p.mid end p.back p.writes.after p.rest_is in
      (
        l.after,
        (bind-Comes _ (send_secure-Comes (header compression) channel f.next f.chunk s f.first_is)
            (bind-Comes _ p.writes.comes l.comes)).eq,
        l.outbox_is
            ∙ (ap (λ fs. fs ++ p.back) p.writes.outbox_is
                ∙ joined s.outbox f.chunk p.front p.back f.sent_is p.sent_is),
      )
