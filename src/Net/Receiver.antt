-- ===== src/Net/Receiver.antt =====
-- crates/peerline-net/src/libp2p_transfer/receiver.rs: `handle_inbound_request`, and what
-- `handle_transfer_event` does with its answers. An answer that ends a request early and an error that
-- ends the receiver are both a `Stop`.
pub mod Isolation
pub mod Sessions
pub mod Orderly
use peerline.Base.{
  ℕ, ◌+◌, Bool, true, false, not, List, [], ◌∷◌, ◌++◌, Option, none, some, Result, ok, err, ◌==◌,
  if◌then◌else◌, text_eq,
}
use mathlib.Core.Option
use peerline.Base.Int.{decimal}
use peerline.Base.Text.{Text, Bytes, codes, utf8}
use peerline.Core.Manifest.{Compression, auto, uncompressed, zstd, lzma, TransferDescriptor}
use peerline.Crypto.Aead.{EncryptedChunk, ChunkAead}
use peerline.Crypto.Handshake.{server_start, server_finish}
use peerline.Crypto.Opaque.{create_server_record, start_server_login, finish_server}
use peerline.Net.Protocol.{
  protocol_version, SecureFrame, header, archive_chunk, finished, SecureChannel, SecureError,
  decrypt_secure, libp2p_transcript,
}
use peerline.Net.Session.{ReceiverSession, new_session, Receiver, put_session}
use peerline.Core.Event.{
  TransferStage, authenticating, receiving_manifest, verifying, complete, failed, PeerlineEvent,
  stage_changed, transfer_started, progress,
}
use peerline.Net.Site.{
  Receiving, Site, ReceivedTransfer, NetError, no_session, no_login, no_handshake,
  channel_not_ready, no_header, login_failed, handshake_failed, on_secure, on_resume, report,
  resume_result, unpack_received, complete_received,
}
use peerline.Net.Step.{Step, ◌>>=◌, ◌>>◌, give, stop, asks, modify, run, require, check}
use peerline.Net.Wire.{
  WireFrame, client_intro, server_intro, client_finish, secure, ack, error, ClientIntro,
  ClientFinish,
}
use peerline.Resume.{ResumeState, resume_state, append_chunk}
use peerline.Transfer.Archive.{ArchiveError}

-- `answer` goes to the peer; `abort` is the error of a `?`, which ends the receiver.
pub data Stop : Type 0 where
  answer : WireFrame → Stop
  abort : NetError → Stop

abbrev pub Handling {ℓ} : Type ℓ → Type ℓ
Handling A = Step Receiver Stop A

-- One request, with the time and the random numbers that its handling draws.
pub record Request : Type 0 where
  pub peer : Text
  pub request_id : ℕ
  pub now : ℕ
  pub transfer_id : Bytes
  pub record_random : Bytes
  pub login_random : Bytes
  pub secret : Bytes
  pub kem_seed : Bytes

abbrev pub on_site : (Site → Site) → Receiver → Receiver
on_site f r = record r { site = f r.site }

unfoldable pub emit : PeerlineEvent → Handling (Unit {0})
emit event = modify (on_site (report event))

unfoldable pub keep_session : Text → ReceiverSession → Handling (Unit {0})
keep_session peer session = modify (put_session peer (some session))

abbrev pub same_compression : Compression → Compression → Bool
same_compression auto auto = true
same_compression auto d = false
same_compression uncompressed uncompressed = true
same_compression uncompressed d = false
same_compression zstd zstd = true
same_compression zstd d = false
same_compression lzma lzma = true
same_compression lzma d = false

abbrev pub is_some {ℓ} : {A : Type ℓ} → Option A → Bool
is_some none = false
is_some (some a) = true

abbrev pub refuse {ℓ} : {A : Type ℓ} → Text → Handling A
refuse message = stop (answer (error message))

abbrev pub version_message : ℕ → Text
version_message version =
    codes "incompatible peerline protocol version "
    ++ (decimal version ++ (codes "; expected " ++ decimal protocol_version))

-- The name matches where one is given.
abbrev pub accepts_name : Text → Option Text → Bool
accepts_name own none = true
accepts_name own (some name) = text_eq name own

unfoldable pub resumed_site : ℕ → TransferDescriptor → Receiver → Result Stop ResumeState × Receiver
resumed_site now descriptor r =
    let (state, disk) = resume_state now descriptor r.site.disk in
    (ok state, record r { site = record r.site { disk = disk } })

abbrev pub aborting {ℓ} : {A : Type ℓ} → Result NetError A → Result Stop A
aborting (ok a) = ok a
aborting (err e) = err (abort e)

-- `append_chunk` on the site, with the session that it leaves.
unfoldable pub appended : Request → ReceiverSession → Bytes → Receiver → Result Stop ℕ × Receiver
appended request session bytes r =
    let (result, state, disk) =
      append_chunk request.now session.resume_state session.descriptor bytes r.site.disk in
    (
      aborting (resume_result result),
      put_session request.peer (some (record session { resume_state = state }))
          (record r { site = record r.site { disk = disk } }),
    )

unfoldable pub decrypted :
    Text
    → ReceiverSession
    → Result SecureError SecureFrame × SecureChannel
    → Receiver
    → Result Stop (SecureFrame × ReceiverSession) × Receiver
decrypted peer session (result, channel) r =
    let session' = record session {
      aead = some channel.aead;
      expected_sequence = channel.sequence;
    } in
    (
      elim result [ ok frame ↦ ok (frame, session') | err e ↦ err (abort (on_secure e)) ],
      put_session peer (some session') r,
    )

module _ (receiving : Receiving) where
  module _ (lookup_key : Bytes) (receiver_peer_id : Text) where
    unfoldable pub handle_intro : Request → ClientIntro → Handling WireFrame
    handle_intro request intro = do
      check (intro.version == protocol_version) (answer (error (version_message intro.version)))
      check (accepts_name receiving.name intro.name)
          (answer (error (codes "receiver name mismatch")))
      let name = Option.get_or intro.name receiving.name
      state ← run (resumed_site request.now intro.descriptor)
      emit (
          transfer_started request.transfer_id request.peer intro.descriptor.files
            intro.descriptor.archive_bytes state.offset)
      emit (stage_changed authenticating)
      let transcript =
          libp2p_transcript name lookup_key receiver_peer_id (codes "libp2p-request-response")
      entry ←
          require
            (create_server_record receiving.steps request.record_random (utf8 receiving.code)
              (utf8 receiving.name))
            (abort login_failed)
      login ←
          require
            (start_server_login receiving.steps request.login_random entry intro.opaque_request)
            (abort login_failed)
      let handshake = server_start receiving.prims request.secret request.kem_seed
      keep_session request.peer (
          new_session intro.client_hello transcript login handshake request.transfer_id
            intro.descriptor state)
      give (
          server_intro (record {
            version = protocol_version;
            resume_offset = state.offset;
            opaque_response = login.response;
            server_hello = handshake.hello;
          }))

  -- The login state and the handshake are taken, whether or not what follows goes well.
  unfoldable pub handle_finish : Request → ClientFinish → Handling WireFrame
  handle_finish request finish = do
    found ← asks λ r. r.sessions request.peer
    session ← require found (abort no_session)
    login ← require session.opaque_server (abort no_login)
    keep_session request.peer (record session { opaque_server = none })
    handshake ← require session.server_handshake (abort no_handshake)
    let taken = record session { opaque_server = none; server_handshake = none }
    keep_session request.peer taken
    opaque_key ←
        require (finish_server receiving.steps login finish.opaque_finalization)
          (abort login_failed)
    keys ←
        require
          (server_finish receiving.prims handshake session.client_hello finish.client_kem opaque_key
            session.transcript)
          (abort handshake_failed)
    keep_session request.peer (record taken {
      aead = some (record { chain_key = keys.recv_key; nonce_prefix = codes "pl01" });
    })
    give ack

  unfoldable pub handle_header : Request → ReceiverSession → Compression → Handling WireFrame
  handle_header request session compression = do
    check (not (is_some session.compression)) (answer (error (codes "duplicate secure header")))
    check (same_compression compression session.descriptor.compression)
        (answer (error (codes "secure header compression mismatch")))
    keep_session request.peer (record session { compression = some compression })
    emit (stage_changed receiving_manifest)
    give ack

  unfoldable pub handle_chunk : Request → ReceiverSession → Bytes → Handling WireFrame
  handle_chunk request session bytes = do
    check (is_some session.compression)
        (answer (error (codes "secure stream must start with header")))
    bytes_done ← run (appended request session bytes)
    emit (progress session.transfer_id bytes_done session.descriptor.archive_bytes)
    give ack

  -- What follows the unpacking.
  unfoldable pub handle_unpacked :
      Request → ReceiverSession → Result ArchiveError ReceivedTransfer → Handling WireFrame
  handle_unpacked request session (ok result) = do
    emit (stage_changed complete)
    keep_session request.peer
        (record session { pending_result = some (request.request_id, result) })
    give ack
  handle_unpacked request session (err e) = do
    emit (stage_changed (failed (receiving.describe e)))
    keep_session request.peer (record session { pending_error = some request.request_id })
    give (error (receiving.describe e))

  unfoldable pub completed : ReceiverSession → Receiver → Result Stop Bytes × Receiver
  completed session r =
      let (archive, site) =
        complete_received receiving session.resume_state session.descriptor r.site in
      (aborting archive, record r { site = site })

  unfoldable pub unpacked_site :
      Request
      → ReceiverSession
      → Compression
      → Bytes
      → Receiver
      → Result Stop (Result ArchiveError ReceivedTransfer) × Receiver
  unpacked_site request session compression archive r =
      let (result, site) =
        unpack_received receiving request.peer session.resume_state compression archive r.site in
      (ok result, record r { site = site })

  unfoldable pub handle_done : Request → ReceiverSession → Handling WireFrame
  handle_done request session = do
    compression ← require session.compression (abort no_header)
    emit (stage_changed verifying)
    archive ← run (completed session)
    result ← run (unpacked_site request session compression archive)
    handle_unpacked request session result

  unfoldable pub handle_frame : Request → SecureFrame → ReceiverSession → Handling WireFrame
  handle_frame request (header compression) session = handle_header request session compression
  handle_frame request (archive_chunk bytes) session = handle_chunk request session bytes
  handle_frame request finished session = handle_done request session

  -- The number that is due moves on also where the frame is refused.
  unfoldable pub handle_secure : Request → EncryptedChunk → Handling WireFrame
  handle_secure request encrypted = do
    found ← asks λ r. r.sessions request.peer
    session ← require found (abort no_session)
    aead ← require session.aead (abort channel_not_ready)
    opened ← run (
        decrypted request.peer session (
          decrypt_secure receiving.prims receiving.secure_codec
            (record { aead = aead; sequence = session.expected_sequence }) encrypted))
    handle_frame request opened.0 opened.1

  unfoldable pub handle_inbound_request : Bytes → Text → Request → WireFrame → Handling WireFrame
  unfolding handle_intro handle_finish handle_secure
  handle_inbound_request lookup_key receiver_peer_id request (client_intro intro) =
      handle_intro lookup_key receiver_peer_id request intro
  handle_inbound_request lookup_key receiver_peer_id request (client_finish finish) =
      handle_finish request finish
  handle_inbound_request lookup_key receiver_peer_id request (secure encrypted) =
      handle_secure request encrypted
  handle_inbound_request lookup_key receiver_peer_id request ack = refuse (codes "unexpected frame")
  handle_inbound_request lookup_key receiver_peer_id request (error message) =
      refuse (codes "unexpected frame")
  handle_inbound_request lookup_key receiver_peer_id request (server_intro intro) =
      refuse (codes "unexpected libp2p frame")
