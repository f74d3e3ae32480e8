-- ===== src/Net/Direct/Stream.antt =====
-- crates/peerline-net/src/direct.rs: `receive_stream`, and `recv_once_bound` over a list of connections.
use peerline.Base.{ℕ, List, [], ◌∷◌, ◌++◌, Option, none, some, Result, ok, err}
use peerline.Base.Text.{Text, Bytes, codes, utf8}
use peerline.Core.Manifest.{Compression, TransferDescriptor}
use peerline.Crypto.Handshake.{server_start, server_finish}
use peerline.Crypto.Opaque.{create_server_record, start_server_login, finish_server}
use peerline.Net.Direct.{
  Connection, Incoming, Direct, read_frame, write_frame, emit_direct, finish_of, chunk_of,
  header_of, accept_intro,
}
use peerline.Net.Direct.Chunks.{Arrived, open_frame, receive_chunks}
use peerline.Net.Protocol.{protocol_version, SecureChannel, direct_transcript}
use peerline.Net.Receiver.{accepts_name, same_compression}
use peerline.Core.Event.{
  lan_direct, message, connecting, authenticating, receiving_manifest, verifying, complete, failed,
  stage_changed, transfer_started,
}
use peerline.Net.Site.{
  Receiving, Site, ReceivedTransfer, NetError, login_failed, handshake_failed, no_header,
  unexpected_frame, name_mismatch, compression_mismatch, on_archive, report, unpack_received,
  complete_received,
}
use peerline.Net.Step.{◌>>=◌, ◌>>◌, give, stop, run, lift, require, check}
use peerline.Net.Wire.{server_intro, ack, error}
use peerline.Resume.{ResumeState, resume_state}
use peerline.Transfer.Archive.{ArchiveError}

unfoldable pub resume_step :
    ℕ → TransferDescriptor → Connection → Result NetError ResumeState × Connection
resume_step now d c =
    let (state, disk) = resume_state now d c.site.disk in
    (ok state, record c { site = record c.site { disk = disk } })

abbrev pub put_arrived : Connection → Arrived → Result NetError ResumeState × Connection
put_arrived c (ok (state, frames), site) = (ok state, record c { inbox = frames; site = site })
put_arrived c (err e, site) = (err e, record c { site = site })

module _ (receiving : Receiving) where
  unfoldable pub chunks_step :
      Incoming
      → TransferDescriptor
      → SecureChannel
      → ResumeState
      → Connection
      → Result NetError ResumeState × Connection
  chunks_step incoming d channel state c = put_arrived c (
      receive_chunks receiving.prims receiving.secure_codec incoming.now incoming.transfer_id d
        c.inbox channel state c.site)

  unfoldable pub complete_step :
      TransferDescriptor → ResumeState → Connection → Result NetError Bytes × Connection
  complete_step d state c =
      let (archive, site) = complete_received receiving state d c.site in
      (archive, record c { site = site })

  unfoldable pub unpack_step :
      Incoming
      → ResumeState
      → Compression
      → Bytes
      → Connection
      → Result NetError (Result ArchiveError ReceivedTransfer) × Connection
  unpack_step incoming state compression archive c =
      let (result, site) =
        unpack_received receiving incoming.peer state compression archive c.site in
      (ok result, record c { site = site })

  unfoldable pub conclude : Result ArchiveError ReceivedTransfer → Direct ReceivedTransfer
  conclude (ok received) = do write_frame ack; emit_direct (stage_changed complete); give received
  conclude (err e) = do write_frame (error (receiving.describe e)); stop (on_archive e)

  -- From the frame after the header on.
  unfoldable pub receive_body :
      Incoming
      → TransferDescriptor
      → ResumeState
      → Compression
      → SecureChannel
      → Direct ReceivedTransfer
  receive_body incoming d state compression channel = do
    state' ← run (chunks_step incoming d channel state)
    emit_direct (stage_changed verifying)
    archive ← run (complete_step d state')
    result ← run (unpack_step incoming state' compression archive)
    conclude result

  -- From the header on.
  unfoldable pub receive_archive :
      Incoming → TransferDescriptor → ResumeState → SecureChannel → Direct ReceivedTransfer
  receive_archive incoming d state channel = do
    frame ← read_frame
    let opened = open_frame receiving.prims receiving.secure_codec channel (chunk_of frame)
    first ← lift opened.0
    compression ← require (header_of first) no_header
    check (same_compression compression d.compression) compression_mismatch
    emit_direct (stage_changed receiving_manifest)
    receive_body incoming d state compression opened.1

  unfoldable pub receive_stream : Incoming → Direct ReceivedTransfer
  receive_stream incoming = do
    frame ← read_frame
    intro ← accept_intro frame
    check (accepts_name receiving.name intro.name) name_mismatch
    state ← run (resume_step incoming.now intro.descriptor)
    emit_direct (
        transfer_started incoming.transfer_id incoming.peer intro.descriptor.files
          intro.descriptor.archive_bytes state.offset)
    emit_direct (stage_changed authenticating)
    let transcript = direct_transcript intro.name
    entry ←
        require
          (create_server_record receiving.steps incoming.record_random (utf8 receiving.code)
            (utf8 receiving.name))
          login_failed
    login ←
        require
          (start_server_login receiving.steps incoming.login_random entry intro.opaque_request)
          login_failed
    let handshake = server_start receiving.prims incoming.secret incoming.kem_seed
    write_frame (
        server_intro (record {
          version = protocol_version;
          resume_offset = state.offset;
          opaque_response = login.response;
          server_hello = handshake.hello;
        }))
    reply ← read_frame
    finish ← require (finish_of reply) unexpected_frame
    opaque_key ←
        require (finish_server receiving.steps login finish.opaque_finalization) login_failed
    keys ←
        require
          (server_finish receiving.prims handshake intro.client_hello finish.client_kem opaque_key
            transcript)
          handshake_failed
    receive_archive incoming intro.descriptor state (record {
      aead = record { chain_key = keys.recv_key; nonce_prefix = codes "pl01" };
      sequence = 0;
    })

  -- The loop of `recv_once_bound`: a connection that fails is reported, and the next one is accepted.
  module _ (message_of : NetError → Text) where
    abbrev pub next_connection :
        Text
        → Result NetError ReceivedTransfer × Connection
        → (Site → Option ReceivedTransfer × Site)
        → Option ReceivedTransfer × Site
    next_connection peer (ok received, c) rest = (some received, c.site)
    next_connection peer (err e, c) rest = rest (
        report (message (peer ++ (codes ": " ++ message_of e)))
          (report (stage_changed (failed (message_of e))) c.site))

    unfoldable pub recv_once_bound : List Incoming → Site → Option ReceivedTransfer × Site
    recv_once_bound [] site = (none, site)
    recv_once_bound (incoming ∷ later) site =
        next_connection incoming.peer
          (receive_stream incoming (record {
            inbox = incoming.frames;
            outbox = [];
            site = report (stage_changed (connecting lan_direct)) site;
          }))
          (recv_once_bound later)
