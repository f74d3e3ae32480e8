-- ===== src/Net/Receive/Complete.antt =====
-- What is known of a transfer that the receiver reports.
use peerline.Base.{
  ℕ, ◌≡◌, refl, All, List, [], ◌∷◌, Option, none, some, Result, ok, err, Bool-cases, ◌⊎◌, inl, inr,
  ◌||◌, arith,
}
use peerline.Base.Text.{Text, Bytes}
use peerline.Core.Manifest.{TransferDescriptor}
use peerline.Net.Receive.{
  TransferEvent, request_message, response_message, response_sent, outbound_failure,
  inbound_failure, Handled, answered, due, due_result, due_error, after_response, follow,
  handle_transfer_event, receive,
}
use peerline.Net.Receiver.{Request, Stop, answer, abort, is_some}
use peerline.Net.Receiver.Orderly.{IsOrderly, Orderly}
use peerline.Net.Receiver.Orderly.Requests.{Introduces, handle_inbound_request-Orderly}
use peerline.Net.Receiver.Sessions.{Holds, put_session-AllSessions}
use peerline.Net.Session.{ReceiverSession, Receiver}
use peerline.Net.Site.{Receiving, ReceivedTransfer, NetError}
use peerline.Net.Site.Complete.{WasComplete}
use peerline.Net.Wire.{WireFrame, client_intro, client_finish, secure, ack, error, server_intro}

follow-eq :
    (outcome : Result NetError (Option ReceivedTransfer)) (r : Receiver)
    (rest : Result NetError (Option ReceivedTransfer) × Receiver) (t : ReceivedTransfer)
    → (follow outcome r rest).0 ≡ ok (some t)
    → (outcome ≡ ok (some t)) ⊎ (rest.0 ≡ ok (some t))
follow-eq (err e) r rest t h = cc
follow-eq (ok (some u)) r rest t h = inl h
follow-eq (ok none) r rest t h = inr h

module _ (receiving : Receiving) (Sent : Text → TransferDescriptor → Type 0) where
  -- Some peer sent the transfer, as a descriptor promises that the peer sent.
  abbrev Reported : ReceivedTransfer → Type 0
  Reported t =
      (peer : Text) × (d : TransferDescriptor) × Sent peer d × WasComplete receiving peer d t

  abbrev Fine : Handled × Receiver → Type 0
  Fine (handled, r) =
      Orderly receiving Sent r
      × ((t : ReceivedTransfer) → handled.outcome ≡ ok (some t) → Reported t)

  answered-Fine :
      (result : Result Stop WireFrame × Receiver)
      → Orderly receiving Sent result.1
      → Fine (answered result)
  answered-Fine (ok frame, r) every = (every, λ t e. cc)
  answered-Fine (err (answer frame), r) every = (every, λ t e. cc)
  answered-Fine (err (abort e), r) every = (every, λ t e'. cc)

  due_was :
      (id : ℕ) (pending : Option (ℕ × ReceivedTransfer)) (t : ReceivedTransfer)
      → due id pending ≡ some t
      → pending ≡ some (id, t)
  due_was id none t e = cc
  due_was id (some (pending_id, result)) t e = ground (arith, e)

  due_result-Reported :
      (peer : Text) (id : ℕ) (session : Option ReceiverSession) (t : ReceivedTransfer)
      → Holds (IsOrderly receiving Sent) peer session
      → due_result id session ≡ some t
      → Reported t
  due_result-Reported peer id none t h e = cc
  due_result-Reported peer id (some session) t h e =
      (peer, session.descriptor, h.sent, h.complete id t (due_was id session.pending_result t e))

  after_response-Orderly :
      (peer : Text) (id : ℕ) (r : Receiver)
      → Orderly receiving Sent r
      → Orderly receiving Sent (after_response peer id r).1
  unfolding after_response
  after_response-Orderly peer id r every =
      elim (Bool-cases
        (is_some (due_result id (r.sessions peer)) || due_error id (r.sessions peer))) [
          | inl gone ↦
              rw gone (put_session-AllSessions (IsOrderly receiving Sent) peer none r tt every)
          | inr kept ↦ rw kept every
        ]

  after_response_result :
      (peer : Text) (id : ℕ) (r : Receiver)
      → (after_response peer id r).0 ≡ due_result id (r.sessions peer)
  unfolding after_response
  after_response_result peer id r = ground arith

  abbrev Announces : TransferEvent → Type 0
  Announces (request_message request frame) = Introduces receiving Sent request frame
  Announces (response_message peer frame) = Unit {0}
  Announces (response_sent peer id) = Unit {0}
  Announces outbound_failure = Unit {0}
  Announces inbound_failure = Unit {0}

  module _ (lookup_key : Bytes) (receiver_peer_id : Text) where
    handle_transfer_event-Fine :
        (event : TransferEvent) (r : Receiver)
        → Announces event
        → Orderly receiving Sent r
        → Fine (handle_transfer_event receiving lookup_key receiver_peer_id event r)
    unfolding handle_transfer_event
    handle_transfer_event-Fine (request_message request frame) r given every = answered-Fine _ (
        (handle_inbound_request-Orderly receiving Sent request lookup_key receiver_peer_id frame
            given).apply
          r every)
    handle_transfer_event-Fine (response_message peer frame) r given every = (every, λ t e. cc)
    handle_transfer_event-Fine (response_sent peer id) r given every = (
      after_response-Orderly peer id r every,
      λ t e.
          due_result-Reported peer id (r.sessions peer) t (every peer)
            (ground (arith, after_response_result peer id r, e)),
    )
    handle_transfer_event-Fine outbound_failure r given every = (every, λ t e. cc)
    handle_transfer_event-Fine inbound_failure r given every = (every, λ t e. cc)

    receive-Reported :
        (events : List TransferEvent) (r : Receiver) (t : ReceivedTransfer)
        → All Announces events
        → Orderly receiving Sent r
        → (receive receiving lookup_key receiver_peer_id events r).0 ≡ ok (some t)
        → Reported t
    unfolding receive
    receive-Reported [] r t given every e = cc
    receive-Reported (event ∷ events) r t given every e =
        let (every', known) = handle_transfer_event-Fine event r given.0 every in
        elim (follow-eq
          (handle_transfer_event receiving lookup_key receiver_peer_id event r).0.outcome _ _ t e) [
            | inl h ↦ known t h
            | inr h ↦ receive-Reported events _ t given.1 every' h
          ]

-- Among the events, a request of the peer opens a session with the descriptor.
abbrev OpensWith : Text → TransferDescriptor → Text → WireFrame → Type 0
OpensWith peer d from (client_intro intro) = (from ≡ peer) × (intro.descriptor ≡ d)
OpensWith peer d from (client_finish finish) = ⊥
OpensWith peer d from (secure encrypted) = ⊥
OpensWith peer d from ack = ⊥
OpensWith peer d from (error message) = ⊥
OpensWith peer d from (server_intro intro) = ⊥

abbrev Opens : Text → TransferDescriptor → TransferEvent → Type 0
Opens peer d (request_message request frame) = OpensWith peer d request.peer frame
Opens peer d (response_message other frame) = ⊥
Opens peer d (response_sent other id) = ⊥
Opens peer d outbound_failure = ⊥
Opens peer d inbound_failure = ⊥

abbrev pub Promised : List TransferEvent → Text → TransferDescriptor → Type 0
Promised [] peer d = ⊥
Promised (event ∷ events) peer d = Opens peer d event ⊎ Promised events peer d

announced :
    (receiving : Receiving) (Sent : Text → TransferDescriptor → Type 0)
    (events : List TransferEvent)
    → ((peer : Text) (d : TransferDescriptor) → Promised events peer d → Sent peer d)
    → All (Announces receiving Sent) events
announced receiving Sent [] h = tt
announced receiving Sent (event ∷ events) h = (
  one event λ peer d o. h peer d (inl o),
  announced receiving Sent events λ peer d o. h peer d (inr o),
)
  where
    frame_of :
        (request : Request) (frame : WireFrame)
        → ((peer : Text) (d : TransferDescriptor)
            → OpensWith peer d request.peer frame
            → Sent peer d)
        → Introduces receiving Sent request frame
    frame_of request (client_intro intro) k = k request.peer intro.descriptor (refl, refl)
    frame_of request (client_finish finish) k = tt
    frame_of request (secure encrypted) k = tt
    frame_of request ack k = tt
    frame_of request (error message) k = tt
    frame_of request (server_intro intro) k = tt

    one :
        (e : TransferEvent)
        → ((peer : Text) (d : TransferDescriptor) → Opens peer d e → Sent peer d)
        → Announces receiving Sent e
    one (request_message request frame) k = frame_of request frame k
    one (response_message peer frame) k = tt
    one (response_sent peer id) k = tt
    one outbound_failure k = tt
    one inbound_failure k = tt

module _ (receiving : Receiving) where
  -- Where the receiver starts without sessions, as `recv_libp2p` does, a transfer that it ends with is one
  -- for which a peer opened a session with a descriptor, among the events: that of an archive that has
  -- the size and the hash of that descriptor, and that unpacked without an error, with the
  -- compression of that descriptor, for that peer.
  pub receive-Promised :
      (lookup_key : Bytes) (receiver_peer_id : Text) (events : List TransferEvent) (r : Receiver)
      (t : ReceivedTransfer)
      → ((peer : Text) → r.sessions peer ≡ none)
      → (receive receiving lookup_key receiver_peer_id events r).0 ≡ ok (some t)
      → (peer : Text) × (d : TransferDescriptor) × Promised events peer d
        × WasComplete receiving peer d t
  receive-Promised lookup_key receiver_peer_id events r t fresh e =
      receive-Reported receiving (Promised events) lookup_key receiver_peer_id events r t
        (announced receiving (Promised events) events λ peer d o. o) (λ peer. rw (fresh peer) tt) e
