-- ===== src/Net/Receiver/Orderly.antt =====
-- What every session of a receiver keeps: its descriptor was sent, the login and the handshake are gone once there is a channel, there
-- is a channel once there is a header, and a result that waits is that of an archive as promised.
pub mod Requests
use peerline.Base.{
  ℕ, ◌≡◌, ◌∙◌, refl, subst, true, false, Option, none, some, Result, ok, err, length,
}
use peerline.Base.Text.{Text, Bytes}
use peerline.Core.Manifest.{
  Compression, auto, uncompressed, zstd, lzma, Manifest, TransferDescriptor,
}
use peerline.Crypto.Aead.{EncryptedChunk, ChunkAead}
use peerline.Crypto.Handshake.{ClientHello, ServerHandshake}
use peerline.Crypto.Opaque.{OpaqueServerResponse}
use peerline.Crypto.Transcript.{Transcript}
use peerline.Net.Protocol.{SecureFrame, header, archive_chunk, finished, SecureChannel, SecureError}
use peerline.Net.Receiver.{
  Request, Stop, emit, keep_session, on_site, resumed_site, appended, decrypted, completed,
  unpacked_site, aborting, same_compression, handle_header, handle_chunk, handle_done,
  handle_unpacked, handle_intro, handle_finish, handle_frame, handle_secure, handle_inbound_request,
}
use peerline.Net.Receiver.Sessions.{Holds, AllSessions, put_session-AllSessions}
use peerline.Net.Session.{ReceiverSession, Receiver, new_session, put_session}
use peerline.Core.Event.{PeerlineEvent}
use peerline.Net.Site.{
  Receiving, Site, ReceivedTransfer, report, received_transfer, unpacked, resume_result,
  unpack_received, complete_received,
}
use peerline.Net.Site.Complete.{WasComplete}
use peerline.Net.Step.{asks, modify, run}
use peerline.Net.Step.Keeps.{
  Keeps, stop-Keeps, require-Keeps, give-Keeps, step_rules, modify-Keeps, run-Keeps, bind-Keeps,
  check-Keeps,
}
use peerline.Net.Step.Yields.{
  Yields, OnOk, bind-Yields, asks-Yields, require-Yields, check-Yields, run-Yields,
}
use peerline.Net.Wire.{
  WireFrame, client_intro, server_intro, client_finish, secure, ack, error, ClientIntro,
  ClientFinish,
}
use peerline.Resume.{ResumeState, Disk}
use peerline.Resume.Transfer.{CompleteResult, CompleteOutcome, complete_partial-Outcome}
use peerline.Transfer.Archive.{ArchiveError, Tree}
use peerline.Transfer.Codec.{unpack_archive_from_reader}
use peerline.Transfer.Run.{Failure}

pub same_compression_sound : (c d : Compression) → same_compression c d ≡ true → c ≡ d
same_compression_sound auto auto h = refl
same_compression_sound auto uncompressed h = cc
same_compression_sound auto zstd h = cc
same_compression_sound auto lzma h = cc
same_compression_sound uncompressed auto h = cc
same_compression_sound uncompressed uncompressed h = refl
same_compression_sound uncompressed zstd h = cc
same_compression_sound uncompressed lzma h = cc
same_compression_sound zstd auto h = cc
same_compression_sound zstd uncompressed h = cc
same_compression_sound zstd zstd h = refl
same_compression_sound zstd lzma h = cc
same_compression_sound lzma auto h = cc
same_compression_sound lzma uncompressed h = cc
same_compression_sound lzma zstd h = cc
same_compression_sound lzma lzma h = refl

some-eq : {c d : Compression} → some c ≡ some d → d ≡ c
some-eq e = cc

pending-eq :
    {id other : ℕ} {t u : ReceivedTransfer}
    → ◌≡◌ {A = Option (ℕ × ReceivedTransfer)} (some (id, t)) (some (other, u))
    → u ≡ t
pending-eq e = cc

-- `Sent` says of a peer which descriptors it sent.
module _ (receiving : Receiving) (Sent : Text → TransferDescriptor → Type 0) where
  -- Where a session comes from, the order in which it comes along, its compression and its result.
  pub record IsOrderly (peer : Text) (s : ReceiverSession) : Type 0 where
    pub sent : Sent peer s.descriptor
    pub keyed : s.aead ≡ none → s.compression ≡ none
    pub taken :
        (key : ChunkAead)
        → s.aead ≡ some key
        → (s.opaque_server ≡ none) × (s.server_handshake ≡ none)
    pub agreed : (c : Compression) → s.compression ≡ some c → c ≡ s.descriptor.compression
    pub complete :
        (id : ℕ) (t : ReceivedTransfer)
        → s.pending_result ≡ some (id, t)
        → WasComplete receiving peer s.descriptor t

  pub new_session-IsOrderly :
      (peer : Text) (client_hello : ClientHello) (transcript : Transcript)
      (login : OpaqueServerResponse) (handshake : ServerHandshake) (transfer_id : Bytes)
      (d : TransferDescriptor) (state : ResumeState)
      → Sent peer d
      → IsOrderly peer (new_session client_hello transcript login handshake transfer_id d state)
  new_session-IsOrderly peer client_hello transcript login handshake transfer_id d state given =
      record {
        sent = given;
        keyed = λ e. refl;
        taken = λ k e. cc;
        agreed = λ c e. cc;
        complete = λ id t e. cc;
      }

  module _ {peer : Text} {s : ReceiverSession} where
    pub without_login : IsOrderly peer s → IsOrderly peer (record s { opaque_server = none })
    without_login h = record {
      sent = h.sent;
      keyed = h.keyed;
      taken = λ key e. (refl, (h.taken key e).1);
      agreed = h.agreed;
      complete = h.complete;
    }

    pub without_handshake :
        IsOrderly peer s
        → IsOrderly peer (record s { opaque_server = none; server_handshake = none })
    without_handshake h = record {
      sent = h.sent;
      keyed = h.keyed;
      taken = λ key e. (refl, refl);
      agreed = h.agreed;
      complete = h.complete;
    }

    pub with_channel :
        (key : ChunkAead)
        → IsOrderly peer s
        → IsOrderly peer
            (record s { opaque_server = none; server_handshake = none; aead = some key })
    with_channel key h = record {
      sent = h.sent;
      keyed = λ e. cc;
      taken = λ k e. (refl, refl);
      agreed = h.agreed;
      complete = h.complete;
    }

    pub with_next :
        {old : ChunkAead} (key : ChunkAead) (sequence : ℕ)
        → s.aead ≡ some old
        → IsOrderly peer s
        → IsOrderly peer (record s { aead = some key; expected_sequence = sequence })
    with_next {old} key sequence ready h = record {
      sent = h.sent;
      keyed = λ e. cc;
      taken = λ k e. h.taken old ready;
      agreed = h.agreed;
      complete = h.complete;
    }

    pub with_state :
        (state : ResumeState)
        → IsOrderly peer s
        → IsOrderly peer (record s { resume_state = state })
    with_state state h = record {
      sent = h.sent;
      keyed = h.keyed;
      taken = h.taken;
      agreed = h.agreed;
      complete = h.complete;
    }

    pub with_error :
        (id : ℕ) → IsOrderly peer s → IsOrderly peer (record s { pending_error = some id })
    with_error id h = record {
      sent = h.sent;
      keyed = h.keyed;
      taken = h.taken;
      agreed = h.agreed;
      complete = h.complete;
    }

    pub with_result :
        (id : ℕ) (t : ReceivedTransfer)
        → WasComplete receiving peer s.descriptor t
        → IsOrderly peer s
        → IsOrderly peer (record s { pending_result = some (id, t) })
    with_result id t whole h = record {
      sent = h.sent;
      keyed = h.keyed;
      taken = h.taken;
      agreed = h.agreed;
      complete = λ other u e. rw (pending-eq e) whole;
    }

    pub with_header :
        {key : ChunkAead} (c : Compression)
        → s.aead ≡ some key
        → c ≡ s.descriptor.compression
        → IsOrderly peer s
        → IsOrderly peer (record s { compression = some c })
    with_header c ready same h = record {
      sent = h.sent;
      keyed = λ e. cc;
      taken = h.taken;
      agreed = λ other e. some-eq e ∙ same;
      complete = h.complete;
    }

  abbrev pub Orderly : Receiver → Type 0
  Orderly = AllSessions IsOrderly
