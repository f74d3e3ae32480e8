-- ===== src/Net/Sender.antt =====
-- crates/peerline-net/src/direct.rs: the sender of a direct connection. What its reads of the archive give,
-- from the resumed offset on and up to the first empty one, is an argument.
pub mod Frames
use peerline.Base.{
  ℕ, zero, suc, ◌+◌, not, List, [], ◌∷◌, ◌++◌, Option, none, some, Result, ok, err, ◌==◌, ltb,
  if◌then◌else◌, length,
}
use peerline.Base.Text.{Text, Bytes, codes, utf8}
use peerline.Base.Int.{decimal}
use peerline.Core.Event.{
  authenticating, transferring, complete, PeerlineEvent, stage_changed, transfer_started, progress,
  message,
}
use peerline.Core.Manifest.{Compression, TransferDescriptor}
use peerline.Crypto.Aead.{EncryptedChunk}
use peerline.Crypto.Handshake
use peerline.Crypto.Handshake.{ClientHandshake, ServerHello, client_start}
use peerline.Crypto.Opaque.{OpaqueClientStart, start_client_login, finish_client}
use peerline.Crypto.Primitives.{Primitives, OpaqueSteps}
use peerline.Crypto.Transcript.{Transcript}
use peerline.Net.Protocol.{
  protocol_version, SecureFrame, header, archive_chunk, finished, SecureChannel, SecureError,
  SecureCodec, encrypt_secure, direct_transcript,
}
use peerline.Net.Receiver.{version_message}
use peerline.Net.Step.{Step, ◌>>=◌, ◌>>◌, give, stop, modify, run, require, check}
use peerline.Net.Wire.{
  WireFrame, client_intro, server_intro, client_finish, secure, ack, error, ServerIntro,
}

pub data SendError : Type 0 where
  fatal : Text → SendError
  connection_ended login_failed handshake_failed unexpected_frame : SendError
  not_sent : SecureError → SendError

pub record Sending : Type 0 where
  pub inbox : List WireFrame
  pub outbox : List WireFrame
  pub events : List PeerlineEvent

pub record DirectSession : Type 0 where
  pub endpoint : Text
  pub opaque_client : OpaqueClientStart
  pub server_response : Bytes
  pub client_handshake : ClientHandshake
  pub server_hello : ServerHello
  pub transcript : Transcript
  pub resume_offset : ℕ

-- What the sender uses of a prepared archive.
pub record Outgoing : Type 0 where
  pub compression : Compression
  pub total_bytes : ℕ
  pub reads : List Bytes

pub record SentTransfer : Type 0 where
  pub endpoint : Text
  pub files : ℕ
  pub bytes : ℕ

-- The sender's options, the libraries that it is built on, and the random numbers that it draws.
pub record SendOptions : Type 0 where
  pub endpoint : Text
  pub name : Option Text
  pub code : Text
  pub prims : Primitives
  pub steps : OpaqueSteps
  pub secure_codec : SecureCodec
  pub login_random : Bytes
  pub finish_random : Bytes
  pub secret : Bytes
  pub kem_random : Bytes
  pub transfer_id : Bytes

abbrev pub Send {ℓ} : Type ℓ → Type ℓ
Send A = Step Sending SendError A

abbrev pub first_answer : Sending → Result SendError WireFrame × Sending
first_answer s = elim s.inbox [
  | [] ↦ (err connection_ended, s)
  | frame ∷ frames ↦ (ok frame, record s { inbox = frames })
]

unfoldable pub send_wire : WireFrame → Send (Unit {0})
send_wire frame = modify λ s. record s { outbox = s.outbox ++ frame ∷ [] }

unfoldable pub emit_event : PeerlineEvent → Send (Unit {0})
emit_event event = modify λ s. record s { events = s.events ++ event ∷ [] }

unfoldable pub accept_server_intro : WireFrame → Send ServerIntro
accept_server_intro (server_intro intro) =
    if intro.version == protocol_version
    then give intro
    else stop (fatal (version_message intro.version))
accept_server_intro (error text) = stop (fatal text)
accept_server_intro (client_intro intro) = stop unexpected_frame
accept_server_intro (client_finish finish) = stop unexpected_frame
accept_server_intro (secure chunk) = stop unexpected_frame
accept_server_intro ack = stop unexpected_frame

unfoldable pub accept_completion : WireFrame → Send (Unit {0})
accept_completion ack = give tt
accept_completion (error text) = stop (fatal text)
accept_completion (server_intro intro) = stop (fatal (codes "unexpected completion response"))
accept_completion (client_intro intro) = stop (fatal (codes "unexpected completion response"))
accept_completion (client_finish finish) = stop (fatal (codes "unexpected completion response"))
accept_completion (secure chunk) = stop (fatal (codes "unexpected completion response"))

abbrev pub resuming_event : ℕ → Send (Unit {0})
resuming_event zero = give tt
resuming_event (suc n) =
    emit_event (message (codes "resuming at " ++ (decimal (suc n) ++ codes " bytes")))

module _ (options : SendOptions) where
  unfoldable pub open_direct_session : TransferDescriptor → Send DirectSession
  open_direct_session descriptor = do
    opaque_client ←
        require (start_client_login options.steps options.login_random (utf8 options.code))
          login_failed
    let client_handshake = client_start options.prims options.secret
    send_wire (
        client_intro (record {
          version = protocol_version;
          name = options.name;
          descriptor = descriptor;
          opaque_request = opaque_client.request;
          client_hello = client_handshake.hello;
        }))
    frame ← run first_answer
    intro ← accept_server_intro frame
    give (record {
      endpoint = options.endpoint;
      opaque_client = opaque_client;
      server_response = intro.opaque_response;
      client_handshake = client_handshake;
      server_hello = intro.server_hello;
      transcript = direct_transcript options.name;
      resume_offset = intro.resume_offset;
    })

  abbrev pub put_chunk :
      Sending
      → Result SecureError EncryptedChunk × SecureChannel
      → Result SendError SecureChannel × Sending
  put_chunk s (ok chunk, channel) =
      (ok channel, record s { outbox = s.outbox ++ secure chunk ∷ [] })
  put_chunk s (err e, channel) = (err (not_sent e), s)

  -- `write_secure`.
  unfoldable pub send_secure : SecureFrame → SecureChannel → Send SecureChannel
  send_secure frame channel s =
      put_chunk s (encrypt_secure options.prims options.secure_codec channel frame)

  unfoldable pub send_reads : ℕ → ℕ → List Bytes → SecureChannel → Send SecureChannel
  send_reads total sent [] channel = give channel
  send_reads total sent (bytes ∷ reads) channel = do
    channel' ← send_secure (archive_chunk bytes) channel
    emit_event (progress options.transfer_id (sent + length bytes) total)
    send_reads total (sent + length bytes) reads channel'

  -- The secure frames of a transfer.
  unfoldable pub send_archive :
      Compression → ℕ → ℕ → List Bytes → SecureChannel → Send SecureChannel
  send_archive compression total offset reads channel = do
    channel' ← send_secure (header compression) channel
    channel'' ← send_reads total offset reads channel'
    send_secure finished channel''

  unfoldable pub complete_direct_transfer :
      DirectSession → TransferDescriptor → Outgoing → Send SentTransfer
  complete_direct_transfer session descriptor archive = do
    check (not (ltb descriptor.archive_bytes session.resume_offset))
        (fatal (codes "receiver requested resume offset beyond archive size"))
    emit_event (stage_changed authenticating)
    finish ←
        require
          (finish_client options.steps options.finish_random session.opaque_client
            (utf8 options.code) session.server_response)
          login_failed
    exchange ←
        require
          (Handshake.client_finish options.prims options.kem_random session.client_handshake
            session.server_hello finish.session_key session.transcript)
          handshake_failed
    send_wire (
        client_finish
          (record { opaque_finalization = finish.finalization; client_kem = exchange.0 }))
    emit_event (
        transfer_started options.transfer_id session.endpoint descriptor.files
          descriptor.archive_bytes session.resume_offset)
    resuming_event session.resume_offset
    emit_event (stage_changed transferring)
    channel ←
        send_archive archive.compression descriptor.archive_bytes session.resume_offset
          archive.reads
          (record {
            aead = record { chain_key = exchange.1.send_key; nonce_prefix = codes "pl01" };
            sequence = 0;
          })
    frame ← run first_answer
    accept_completion frame
    emit_event (stage_changed complete)
    give (record {
      endpoint = session.endpoint;
      files = descriptor.files;
      bytes = archive.total_bytes;
    })
