-- ===== src/Net/Receive/Locked.antt =====
-- receiver.rs: the loop over events, where no login is completed.
use peerline.Base.{
  ℕ, ◌≡◌, ◌≢◌, refl, subst, List, [], ◌∷◌, All, Option, none, some, Result, ok, err, Bool-cases,
  inl, inr,
}
use peerline.Base.Text.{Text, Bytes}
use peerline.Core.Manifest.{TransferDescriptor}
use peerline.Crypto.Aead.{EncryptedChunk}
use peerline.Crypto.Opaque.{OpaqueServerResponse, finish_server}
use peerline.Net.Receive.{
  TransferEvent, request_message, response_message, response_sent, outbound_failure,
  inbound_failure, Handled, answered, due_result, due_error, after_response, follow,
  handle_transfer_event, receive,
}
use peerline.Net.Receiver.{
  Request, Stop, answer, abort, emit, keep_session, on_site, resumed_site, handle_intro,
  handle_finish, handle_secure, handle_inbound_request,
}
use peerline.Net.Receiver.Sessions.{Holds, AllSessions, put_session-AllSessions}
use peerline.Net.Session.{ReceiverSession, Receiver, put_session}
use peerline.Core.Event.{PeerlineEvent}
use peerline.Net.Site.{Receiving, ReceivedTransfer, NetError, report}
use peerline.Net.Step.{Step, asks, run, require, ◌>>=◌}
use peerline.Net.Step.Keeps.{
  Keeps, step_rules, bind-Keeps, require-Keeps, stop-Keeps, modify-Keeps, run-Keeps,
}
use peerline.Net.Step.Yields.{Yields, bind-Yields, asks-Yields, require-Yields}
use peerline.Net.Wire.{
  WireFrame, client_intro, server_intro, client_finish, secure, ack, error, ClientIntro,
  ClientFinish,
}
use peerline.Transfer.Archive.{Tree}

-- No login accepts the finalization that the frame has, if it has one.
abbrev pub Refused : Receiving → WireFrame → Type 0
Refused receiving (client_finish finish) =
    (login : OpaqueServerResponse)
    → finish_server receiving.steps login finish.opaque_finalization ≡ none
Refused receiving (client_intro intro) = Unit {0}
Refused receiving (server_intro intro) = Unit {0}
Refused receiving (secure chunk) = Unit {0}
Refused receiving ack = Unit {0}
Refused receiving (error message) = Unit {0}

abbrev pub RefusedEvent : Receiving → TransferEvent → Type 0
RefusedEvent receiving (request_message request frame) = Refused receiving frame
RefusedEvent receiving (response_message peer frame) = Unit {0}
RefusedEvent receiving (response_sent peer id) = Unit {0}
RefusedEvent receiving outbound_failure = Unit {0}
RefusedEvent receiving inbound_failure = Unit {0}

module _ (tree : Tree) where
  -- No channel and no result.
  abbrev pub IsClosed : Text → ReceiverSession → Type 0
  IsClosed peer session = (session.aead ≡ none) × (session.pending_result ≡ none)

  abbrev pub IsLocked : Receiver → Type 0
  IsLocked r = (r.site.tree ≡ tree) × AllSessions IsClosed r

  module _ (request : Request) where
    keep_session-Locked :
        (changed : ReceiverSession)
        → IsClosed request.peer changed
        → Keeps IsLocked (keep_session request.peer changed)
    unfolding keep_session put_session
    keep_session-Locked changed h =
        modify-Keeps (put_session request.peer (some changed)) λ r (same, every).
          (same, put_session-AllSessions IsClosed request.peer (some changed) r h every)

    emit-Locked : (event : PeerlineEvent) → Keeps IsLocked (emit event)
    unfolding emit
    emit-Locked event = modify-Keeps (on_site (report event)) λ r h. h

    resumed_site-Locked :
        (now : ℕ) (d : TransferDescriptor) → Keeps IsLocked (run (resumed_site now d))
    unfolding resumed_site
    resumed_site-Locked now d = run-Keeps (resumed_site now d) λ r h. h

    -- A step that needs what is not there.
    require-none {ℓ κ} :
        {A : Type ℓ} {B : Type κ} (o : Option A) (e : Stop) (next : A → Step Receiver Stop B)
        → o ≡ none
        → Keeps IsLocked (require o e >>= next)
    require-none o e next h = bind-Yields (require-Yields o e) λ a there. cc

    module _ (receiving : Receiving) where
      handle_intro-Locked :
          (lookup_key : Bytes) (receiver_peer_id : Text) (intro : ClientIntro)
          → Keeps IsLocked (handle_intro receiving lookup_key receiver_peer_id request intro)
      unfolding handle_intro
      handle_intro-Locked lookup_key receiver_peer_id intro =
          search (step_rules, emit-Locked, resumed_site-Locked, keep_session-Locked) depth 20

      found-Closed :
          Yields IsLocked
            (Holds IsClosed request.peer)
            (asks {E = Stop} λ r. r.sessions request.peer)
      found-Closed = asks-Yields _ _ λ r (same, every). every request.peer

      held :
          {found : Option ReceiverSession} {session : ReceiverSession}
          → Holds IsClosed request.peer found
          → found ≡ some session
          → IsClosed request.peer session
      held h e = subst (Holds IsClosed request.peer) e h

      handle_secure-Locked :
          (encrypted : EncryptedChunk) → Keeps IsLocked (handle_secure receiving request encrypted)
      unfolding handle_secure
      handle_secure-Locked encrypted = bind-Yields found-Closed λ found holds.
          bind-Yields (require-Yields found _)
            λ session e. require-none session.aead _ _ (held holds e).0

      handle_finish-Locked :
          (finish : ClientFinish)
          → Refused receiving (client_finish finish)
          → Keeps IsLocked (handle_finish receiving request finish)
      unfolding handle_finish
      handle_finish-Locked finish refused = bind-Yields found-Closed λ found holds.
          bind-Yields (require-Yields found _) λ session e.
            let h = held holds e in
            bind-Keeps (require-Keeps _ _) λ login. bind-Keeps (keep_session-Locked _ h) λ _.
              bind-Keeps (require-Keeps _ _) λ handshake.
                bind-Keeps (keep_session-Locked _ h) λ _. require-none _ _ _ (refused login)

      handle_inbound_request-Locked :
          (lookup_key : Bytes) (receiver_peer_id : Text) (frame : WireFrame)
          → Refused receiving frame
          → Keeps IsLocked
              (handle_inbound_request receiving lookup_key receiver_peer_id request frame)
      unfolding handle_inbound_request
      handle_inbound_request-Locked lookup_key receiver_peer_id (client_intro intro) refused =
          handle_intro-Locked lookup_key receiver_peer_id intro
      handle_inbound_request-Locked lookup_key receiver_peer_id (client_finish finish) refused =
          handle_finish-Locked finish refused
      handle_inbound_request-Locked lookup_key receiver_peer_id (secure encrypted) refused =
          handle_secure-Locked encrypted
      handle_inbound_request-Locked lookup_key receiver_peer_id ack refused = stop-Keeps _
      handle_inbound_request-Locked lookup_key receiver_peer_id (error message) refused =
          stop-Keeps _
      handle_inbound_request-Locked lookup_key receiver_peer_id (server_intro intro) refused =
          stop-Keeps _

  abbrev Shut : Handled × Receiver → Type 0
  Shut (handled, r) = IsLocked r × ((t : ReceivedTransfer) → handled.outcome ≢ ok (some t))

  answered-Shut :
      (result : Result Stop WireFrame × Receiver) → IsLocked result.1 → Shut (answered result)
  answered-Shut (ok frame, r) h = (h, λ t e. cc)
  answered-Shut (err (answer frame), r) h = (h, λ t e. cc)
  answered-Shut (err (abort e), r) h = (h, λ t e'. cc)

  nothing_due :
      (peer : Text) (id : ℕ) (session : Option ReceiverSession)
      → Holds IsClosed peer session
      → due_result id session ≡ none
  nothing_due peer id none h = refl
  nothing_due peer id (some session) (closed, empty) = rw empty refl

  after_response-Locked :
      (peer : Text) (id : ℕ) (r : Receiver)
      → IsLocked r
      → ((after_response peer id r).0 ≡ none) × IsLocked (after_response peer id r).1
  unfolding after_response put_session
  after_response-Locked peer id r (same, every) =
      let idle = nothing_due peer id (r.sessions peer) (every peer) in
      elim (Bool-cases (due_error id (r.sessions peer))) [
        | inl gone ↦
            rw (idle, gone) (refl, (same, put_session-AllSessions IsClosed peer none r tt every))
        | inr kept ↦ rw (idle, kept) (refl, (same, every))
      ]

  abbrev pub NotReceived : Result NetError (Option ReceivedTransfer) × Receiver → Type 0
  NotReceived r = IsLocked r.1 × ((t : ReceivedTransfer) → r.0 ≢ ok (some t))

  follow-NotReceived :
      (outcome : Result NetError (Option ReceivedTransfer)) (r : Receiver)
      (rest : Result NetError (Option ReceivedTransfer) × Receiver)
      → IsLocked r
      → ((t : ReceivedTransfer) → outcome ≢ ok (some t))
      → NotReceived rest
      → NotReceived (follow outcome r rest)
  follow-NotReceived (err e) r rest h not_now later = (h, λ t e'. cc)
  follow-NotReceived (ok (some t)) r rest h not_now later = absurd (not_now t refl)
  follow-NotReceived (ok none) r rest h not_now later = later

  module _ (receiving : Receiving) (lookup_key : Bytes) (receiver_peer_id : Text) where
    handle_transfer_event-Shut :
        (event : TransferEvent) (r : Receiver)
        → RefusedEvent receiving event
        → IsLocked r
        → Shut (handle_transfer_event receiving lookup_key receiver_peer_id event r)
    unfolding handle_transfer_event
    handle_transfer_event-Shut (request_message request frame) r refused h = answered-Shut _ (
        (handle_inbound_request-Locked request receiving lookup_key receiver_peer_id frame
            refused).apply
          r h)
    handle_transfer_event-Shut (response_message peer frame) r refused h = (h, λ t e. cc)
    handle_transfer_event-Shut (response_sent peer id) r refused h =
        let (idle, h') = after_response-Locked peer id r h in (h', λ t e. cc)
    handle_transfer_event-Shut outbound_failure r refused h = (h, λ t e. cc)
    handle_transfer_event-Shut inbound_failure r refused h = (h, λ t e. cc)

    -- Where no login accepts a finalization that arrives, and no session has a channel or a result yet, no
    -- transfer is reported and everything below the destination but the directory of partial archives
    -- stays as it is, whatever other frames arrive, in whatever order.
    pub receive-NotReceived :
        (events : List TransferEvent) (r : Receiver)
        → All (RefusedEvent receiving) events
        → IsLocked r
        → NotReceived (receive receiving lookup_key receiver_peer_id events r)
    unfolding receive
    receive-NotReceived [] r refused h = (h, λ t e. cc)
    receive-NotReceived (event ∷ events) r refused h =
        let (h', not_done) = handle_transfer_event-Shut event r refused.0 h in
        follow-NotReceived _ _ _ h' not_done (receive-NotReceived events _ refused.1 h')
