-- ===== src/Net/Receiver/Orderly/Requests.antt =====
-- receiver.rs: the requests, and whether the sessions are orderly after them.
use peerline.Base.{ℕ, ◌≡◌, refl, subst, Option, some, Result, ok, err}
use peerline.Base.Text.{Text, Bytes}
use peerline.Core.Manifest.{Compression, TransferDescriptor}
use peerline.Crypto.Aead.{EncryptedChunk, ChunkAead}
use peerline.Net.Protocol.{SecureFrame, header, archive_chunk, finished, SecureChannel, SecureError}
use peerline.Net.Receiver.{
  Request, Stop, emit, keep_session, on_site, resumed_site, appended, decrypted, completed,
  unpacked_site, aborting, handle_header, handle_chunk, handle_done, handle_unpacked, handle_intro,
  handle_finish, handle_frame, handle_secure, handle_inbound_request,
}
use peerline.Net.Receiver.Sessions.{Holds, put_session-AllSessions}
use peerline.Net.Session.{ReceiverSession, put_session}
use peerline.Core.Event.{PeerlineEvent}
use peerline.Net.Site.{Receiving, ReceivedTransfer, NetError, report}
use peerline.Net.Site.Complete.{
  IsPromised, WasComplete, complete_received-IsPromised, unpack_received-WasComplete,
}
use peerline.Net.Step.{asks, run}
use peerline.Net.Step.Keeps.{
  Keeps, stop-Keeps, require-Keeps, give-Keeps, step_rules, modify-Keeps, run-Keeps, bind-Keeps,
  check-Keeps,
}
use peerline.Net.Step.Yields.{
  Yields, OnOk, bind-Yields, asks-Yields, require-Yields, check-Yields, run-Yields,
}
use peerline.Net.Wire.{
  WireFrame, client_intro, server_intro, client_finish, secure, ack, error, ClientIntro,
  ClientFinish,
}
use peerline.Transfer.Archive.{ArchiveError}
use peerline.Net.Receiver.Orderly.{
  IsOrderly, Orderly, same_compression_sound, without_login, without_handshake, with_channel,
  with_next, with_state, with_error, with_result, new_session-IsOrderly, with_header,
}

module _ (receiving : Receiving) (Sent : Text → TransferDescriptor → Type 0) where
  module _ (request : Request) where
    -- The session of the channel that a frame came through.
    abbrev Opened : SecureFrame × ReceiverSession → Type 0
    Opened (frame, session) =
        (key : ChunkAead) × (session.aead ≡ some key)
        × IsOrderly receiving Sent request.peer session

    keep_session-Orderly :
        (changed : ReceiverSession)
        → IsOrderly receiving Sent request.peer changed
        → Keeps (Orderly receiving Sent) (keep_session request.peer changed)
    unfolding keep_session
    keep_session-Orderly changed h =
        modify-Keeps (put_session request.peer (some changed)) λ r every.
          put_session-AllSessions (IsOrderly receiving Sent) request.peer (some changed) r h every

    emit-Orderly : (event : PeerlineEvent) → Keeps (Orderly receiving Sent) (emit event)
    unfolding emit
    emit-Orderly event = modify-Keeps (on_site (report event)) λ r h. h

    resumed_site-Orderly :
        (now : ℕ) (descriptor : TransferDescriptor)
        → Keeps (Orderly receiving Sent) (run (resumed_site now descriptor))
    unfolding resumed_site
    resumed_site-Orderly now descriptor = run-Keeps (resumed_site now descriptor) λ r h. h

    ruleset orderly_rules = (step_rules, emit-Orderly, resumed_site-Orderly)

    appended-Orderly :
        (session : ReceiverSession) (bytes : Bytes)
        → IsOrderly receiving Sent request.peer session
        → Keeps (Orderly receiving Sent) (run (appended request session bytes))
    unfolding appended
    appended-Orderly session bytes h = run-Keeps (appended request session bytes) λ r every.
        put_session-AllSessions (IsOrderly receiving Sent) request.peer _ _
          (with_state receiving Sent _ h) every

    -- Both the frame and the session.
    decrypted-Orderly :
        (session : ReceiverSession) (key : ChunkAead)
        → session.aead ≡ some key
        → IsOrderly receiving Sent request.peer session
        → (opened : Result SecureError SecureFrame × SecureChannel)
        → Yields (Orderly receiving Sent) Opened (run (decrypted request.peer session opened))
    unfolding decrypted
    decrypted-Orderly session key ready h (ok frame, channel) = run-Yields _ Opened λ r every.
        let next = with_next receiving Sent channel.aead channel.sequence ready h in
        (
          (channel.aead, refl, next),
          put_session-AllSessions (IsOrderly receiving Sent) request.peer _ _ next every,
        )
    decrypted-Orderly session key ready h (err e, channel) = run-Yields _ Opened λ r every. (
      tt,
      put_session-AllSessions (IsOrderly receiving Sent) request.peer _ _
          (with_next receiving Sent channel.aead channel.sequence ready h) every,
    )

    aborting-IsPromised :
        (d : TransferDescriptor) (archive : Result NetError Bytes)
        → OnOk (IsPromised receiving d) archive
        → OnOk (IsPromised receiving d) (aborting archive)
    aborting-IsPromised d (ok archive) h = h
    aborting-IsPromised d (err e) h = tt

    completed-Orderly :
        (session : ReceiverSession)
        → Yields
            (Orderly receiving Sent)
            (IsPromised receiving session.descriptor)
            (run (completed receiving session))
    unfolding completed
    completed-Orderly session = run-Yields _ (IsPromised receiving session.descriptor) λ r every. (
      aborting-IsPromised session.descriptor _
          (complete_received-IsPromised receiving session.resume_state session.descriptor r.site),
      every,
    )

    unpacked_site-Orderly :
        (session : ReceiverSession) (archive : Bytes)
        → IsPromised receiving session.descriptor archive
        → Yields
            (Orderly receiving Sent)
            (OnOk (WasComplete receiving request.peer session.descriptor))
            (run (unpacked_site receiving request session session.descriptor.compression archive))
    unfolding unpacked_site
    unpacked_site-Orderly session archive promised = run-Yields _ _ λ r every. (
      unpack_received-WasComplete receiving request.peer session.descriptor archive
          session.resume_state r.site promised,
      every,
    )

    handle_intro-Orderly :
        (lookup_key : Bytes) (receiver_peer_id : Text) (intro : ClientIntro)
        → Sent request.peer intro.descriptor
        → Keeps
            (Orderly receiving Sent)
            (handle_intro receiving lookup_key receiver_peer_id request intro)
    unfolding handle_intro
    handle_intro-Orderly lookup_key receiver_peer_id intro given =
        search (orderly_rules, keep_session-Orderly, new_session-IsOrderly receiving Sent) depth 20

    found-Orderly :
        Yields
          (Orderly receiving Sent)
          (Holds (IsOrderly receiving Sent) request.peer)
          (asks {E = Stop} λ r. r.sessions request.peer)
    found-Orderly = asks-Yields _ _ λ r every. every request.peer

    -- Where a session was found, it is orderly.
    held :
        {found : Option ReceiverSession} {session : ReceiverSession}
        → Holds (IsOrderly receiving Sent) request.peer found
        → found ≡ some session
        → IsOrderly receiving Sent request.peer session
    held h e = subst (Holds (IsOrderly receiving Sent) request.peer) e h

    handle_finish-Orderly :
        (finish : ClientFinish)
        → Keeps (Orderly receiving Sent) (handle_finish receiving request finish)
    unfolding handle_finish
    handle_finish-Orderly finish = bind-Yields found-Orderly λ found holds.
        bind-Yields (require-Yields found _) λ session e.
          let h = held holds e in
          bind-Keeps (require-Keeps _ _) λ login.
            bind-Keeps (keep_session-Orderly _ (without_login receiving Sent h)) λ _.
              bind-Keeps (require-Keeps _ _) λ handshake.
                bind-Keeps (keep_session-Orderly _ (without_handshake receiving Sent h)) λ _.
                  bind-Keeps (require-Keeps _ _) λ opaque_key.
                    bind-Keeps (require-Keeps _ _) λ keys.
                      bind-Keeps (keep_session-Orderly _ (with_channel receiving Sent _ h))
                        λ _. give-Keeps ack

    handle_header-Orderly :
        (session : ReceiverSession) (compression : Compression)
        → Opened (header compression, session)
        → Keeps (Orderly receiving Sent) (handle_header receiving request session compression)
    unfolding handle_header
    handle_header-Orderly session compression (key, ready, h) = bind-Keeps (check-Keeps _ _) λ _.
        bind-Yields (check-Yields _ _) λ _ same.
          search
            (
              orderly_rules,
              keep_session-Orderly,
              with_header receiving Sent compression ready
                  (same_compression_sound compression session.descriptor.compression same) h,
            )
            depth 20

    handle_chunk-Orderly :
        (session : ReceiverSession) (bytes : Bytes)
        → IsOrderly receiving Sent request.peer session
        → Keeps (Orderly receiving Sent) (handle_chunk receiving request session bytes)
    unfolding handle_chunk
    handle_chunk-Orderly session bytes h = bind-Keeps (check-Keeps _ _) λ _.
        bind-Keeps (appended-Orderly session bytes h)
          λ bytes_done. bind-Keeps (emit-Orderly _) λ _. give-Keeps ack

    handle_unpacked-Orderly :
        (session : ReceiverSession) (result : Result ArchiveError ReceivedTransfer)
        → IsOrderly receiving Sent request.peer session
        → OnOk (WasComplete receiving request.peer session.descriptor) result
        → Keeps (Orderly receiving Sent) (handle_unpacked receiving request session result)
    unfolding handle_unpacked
    handle_unpacked-Orderly session (ok t) h whole =
        search
          (
            orderly_rules,
            keep_session-Orderly,
            with_result receiving Sent request.request_id t whole h,
          )
          depth 20
    handle_unpacked-Orderly session (err e) h whole =
        search (orderly_rules, keep_session-Orderly, with_error receiving Sent request.request_id h)
          depth 20

    handle_done-Orderly :
        (session : ReceiverSession)
        → IsOrderly receiving Sent request.peer session
        → Keeps (Orderly receiving Sent) (handle_done receiving request session)
    unfolding handle_done
    handle_done-Orderly session h = bind-Yields (require-Yields session.compression _) λ c e.
        bind-Keeps (emit-Orderly _) λ _. bind-Yields (completed-Orderly session) λ archive promised.
          bind-Yields (rw (h.agreed c e) (unpacked_site-Orderly session archive promised))
            λ result whole. handle_unpacked-Orderly session result h whole

    handle_frame-Orderly :
        (frame : SecureFrame) (session : ReceiverSession)
        → Opened (frame, session)
        → Keeps (Orderly receiving Sent) (handle_frame receiving request frame session)
    unfolding handle_frame
    handle_frame-Orderly (header compression) session opened =
        handle_header-Orderly session compression opened
    handle_frame-Orderly (archive_chunk bytes) session (key, ready, h) =
        handle_chunk-Orderly session bytes h
    handle_frame-Orderly finished session (key, ready, h) = handle_done-Orderly session h

    handle_secure-Orderly :
        (encrypted : EncryptedChunk)
        → Keeps (Orderly receiving Sent) (handle_secure receiving request encrypted)
    unfolding handle_secure
    handle_secure-Orderly encrypted = bind-Yields found-Orderly λ found holds.
        bind-Yields (require-Yields found _) λ session e.
          bind-Yields (require-Yields session.aead _) λ aead ready.
            bind-Yields (decrypted-Orderly session aead ready (held holds e) _)
              λ opened known. handle_frame-Orderly opened.0 opened.1 known

    -- If the frame opens a session, its descriptor counts as sent.
    abbrev pub Introduces : WireFrame → Type 0
    Introduces (client_intro intro) = Sent request.peer intro.descriptor
    Introduces (client_finish finish) = Unit {0}
    Introduces (secure encrypted) = Unit {0}
    Introduces ack = Unit {0}
    Introduces (error message) = Unit {0}
    Introduces (server_intro intro) = Unit {0}

    pub handle_inbound_request-Orderly :
        (lookup_key : Bytes) (receiver_peer_id : Text) (frame : WireFrame)
        → Introduces frame
        → Keeps
            (Orderly receiving Sent)
            (handle_inbound_request receiving lookup_key receiver_peer_id request frame)
    unfolding handle_inbound_request
    handle_inbound_request-Orderly lookup_key receiver_peer_id (client_intro intro) given =
        handle_intro-Orderly lookup_key receiver_peer_id intro given
    handle_inbound_request-Orderly lookup_key receiver_peer_id (client_finish finish) given =
        handle_finish-Orderly finish
    handle_inbound_request-Orderly lookup_key receiver_peer_id (secure encrypted) given =
        handle_secure-Orderly encrypted
    handle_inbound_request-Orderly lookup_key receiver_peer_id ack given = stop-Keeps _
    handle_inbound_request-Orderly lookup_key receiver_peer_id (error message) given = stop-Keeps _
    handle_inbound_request-Orderly lookup_key receiver_peer_id (server_intro intro) given =
        stop-Keeps _
