-- ===== src/Net/Receiver/Isolation.antt =====
-- receiver.rs: a request, and the sessions of the other peers.
use peerline.Base.{ℕ, ◌≡◌, refl, false, Option, some, Result, ok, err, text_eq}
use peerline.Base.Text.{Text, Bytes}
use peerline.Core.Manifest.{Compression, TransferDescriptor}
use peerline.Crypto.Aead.{EncryptedChunk}
use peerline.Net.Protocol.{SecureFrame, header, archive_chunk, finished, SecureChannel, SecureError}
use peerline.Net.Receiver.{
  emit, keep_session, handle_header, handle_chunk, handle_done, Request, resumed_site, appended,
  decrypted, completed, unpacked_site, on_site, handle_intro, handle_finish, handle_unpacked,
  handle_frame, handle_secure, handle_inbound_request,
}
use peerline.Net.Session.{ReceiverSession, Receiver, put_session}
use peerline.Core.Event.{PeerlineEvent}
use peerline.Net.Site.{report, Receiving, ReceivedTransfer}
use peerline.Net.Step.{run}
use peerline.Net.Step.Keeps.{Keeps, step_rules, stop-Keeps, modify-Keeps, run-Keeps}
use peerline.Net.Wire.{
  WireFrame, client_intro, server_intro, client_finish, secure, ack, error, ClientIntro,
  ClientFinish,
}
use peerline.Transfer.Archive.{ArchiveError}

module _ (other : Text) (session : Option ReceiverSession) where
  abbrev HasSession : Receiver → Type 0
  HasSession r = r.sessions other ≡ session

  module _ (request : Request) (apart : text_eq other request.peer ≡ false) where
    put_session-HasSession :
        (changed : Option ReceiverSession) (r : Receiver)
        → HasSession r
        → HasSession (put_session request.peer changed r)
    unfolding put_session
    put_session-HasSession changed r h = rw apart h

    keep_session-Keeps :
        (changed : ReceiverSession) → Keeps HasSession (keep_session request.peer changed)
    unfolding keep_session
    keep_session-Keeps changed =
        modify-Keeps (put_session request.peer (some changed))
          (put_session-HasSession (some changed))

    emit-Keeps : (event : PeerlineEvent) → Keeps HasSession (emit event)
    unfolding emit
    emit-Keeps event = modify-Keeps (on_site (report event)) λ r h. h

    resumed_site-Keeps :
        (now : ℕ) (descriptor : TransferDescriptor)
        → Keeps HasSession (run (resumed_site now descriptor))
    unfolding resumed_site
    resumed_site-Keeps now descriptor = run-Keeps (resumed_site now descriptor) λ r h. h

    appended-Keeps :
        (session : ReceiverSession) (bytes : Bytes)
        → Keeps HasSession (run (appended request session bytes))
    unfolding appended put_session
    appended-Keeps session bytes = run-Keeps (appended request session bytes) λ r h. rw apart h

    decrypted-Keeps :
        (session : ReceiverSession) (opened : Result SecureError SecureFrame × SecureChannel)
        → Keeps HasSession (run (decrypted request.peer session opened))
    unfolding decrypted put_session
    decrypted-Keeps session opened =
        run-Keeps (decrypted request.peer session opened) λ r h. rw apart h

    completed-Keeps :
        (receiving : Receiving) (session : ReceiverSession)
        → Keeps HasSession (run (completed receiving session))
    unfolding completed
    completed-Keeps receiving session = run-Keeps (completed receiving session) λ r h. h

    unpacked_site-Keeps :
        (receiving : Receiving) (session : ReceiverSession) (compression : Compression)
        (archive : Bytes)
        → Keeps HasSession (run (unpacked_site receiving request session compression archive))
    unfolding unpacked_site
    unpacked_site-Keeps receiving session compression archive =
        run-Keeps (unpacked_site receiving request session compression archive) λ r h. h

    ruleset session_rules = (
      step_rules, keep_session-Keeps, emit-Keeps, resumed_site-Keeps, appended-Keeps,
      decrypted-Keeps, completed-Keeps, unpacked_site-Keeps,
    )

    module _ (receiving : Receiving) where
      handle_intro-Keeps :
          (lookup_key : Bytes) (receiver_peer_id : Text) (intro : ClientIntro)
          → Keeps HasSession (handle_intro receiving lookup_key receiver_peer_id request intro)
      unfolding handle_intro
      handle_intro-Keeps lookup_key receiver_peer_id intro = search session_rules depth 20

      handle_finish-Keeps :
          (finish : ClientFinish) → Keeps HasSession (handle_finish receiving request finish)
      unfolding handle_finish
      handle_finish-Keeps finish = search session_rules depth 20

      handle_unpacked-Keeps :
          (session : ReceiverSession) (result : Result ArchiveError ReceivedTransfer)
          → Keeps HasSession (handle_unpacked receiving request session result)
      unfolding handle_unpacked
      handle_unpacked-Keeps session (ok result) = search session_rules depth 20
      handle_unpacked-Keeps session (err e) = search session_rules depth 20

      handle_frame-Keeps :
          (frame : SecureFrame) (session : ReceiverSession)
          → Keeps HasSession (handle_frame receiving request frame session)
      unfolding handle_frame handle_header handle_chunk handle_done
      handle_frame-Keeps (header compression) session = search session_rules depth 20
      handle_frame-Keeps (archive_chunk bytes) session = search session_rules depth 20
      handle_frame-Keeps finished session = search (session_rules, handle_unpacked-Keeps) depth 20

      handle_secure-Keeps :
          (encrypted : EncryptedChunk)
          → Keeps HasSession (handle_secure receiving request encrypted)
      unfolding handle_secure
      handle_secure-Keeps encrypted = search (session_rules, handle_frame-Keeps) depth 20

      pub handle_inbound_request-Keeps :
          (lookup_key : Bytes) (receiver_peer_id : Text) (frame : WireFrame)
          → Keeps HasSession
              (handle_inbound_request receiving lookup_key receiver_peer_id request frame)
      unfolding handle_inbound_request
      handle_inbound_request-Keeps lookup_key receiver_peer_id (client_intro intro) =
          handle_intro-Keeps lookup_key receiver_peer_id intro
      handle_inbound_request-Keeps lookup_key receiver_peer_id (client_finish finish) =
          handle_finish-Keeps finish
      handle_inbound_request-Keeps lookup_key receiver_peer_id (secure encrypted) =
          handle_secure-Keeps encrypted
      handle_inbound_request-Keeps lookup_key receiver_peer_id ack = stop-Keeps _
      handle_inbound_request-Keeps lookup_key receiver_peer_id (error message) = stop-Keeps _
      handle_inbound_request-Keeps lookup_key receiver_peer_id (server_intro intro) = stop-Keeps _

-- However it ends, the handling of a peer's request leaves the session of every other peer as it is: the
-- one it has, or none.
pub handle_inbound_request-sessions :
    (receiving : Receiving) (lookup_key : Bytes) (receiver_peer_id : Text) (request : Request)
    (frame : WireFrame) (r : Receiver) (other : Text)
    → text_eq other request.peer ≡ false
    → (handle_inbound_request receiving lookup_key receiver_peer_id request frame r).1.sessions
        other
      ≡ r.sessions other
handle_inbound_request-sessions receiving lookup_key receiver_peer_id request frame r other apart =
    (handle_inbound_request-Keeps other (r.sessions other) request apart receiving lookup_key
        receiver_peer_id frame).apply
      r refl
