-- ===== src/Net/Receive/Stopped.antt =====
-- receiver.rs: the loop over events at a request that is handled with an error.
use peerline.Base.{
  ◌≡◌, refl, ap, subst, ◌∙◌, Option-cases, inl, inr, List, [], ◌∷◌, ◌++◌, Option, none, some,
  Result, ok, err,
}
use peerline.Base.Text.{Text, Bytes}
use peerline.Crypto.Aead.{EncryptedChunk, ChunkAead}
use peerline.Net.Receive.{TransferEvent, request_message, follow, handle_transfer_event, receive}
use peerline.Net.Receiver.{Request, abort, handle_secure, handle_inbound_request}
use peerline.Net.Session.{ReceiverSession, Receiver}
use peerline.Net.Site.{Receiving, ReceivedTransfer, NetError, no_session, channel_not_ready}
use peerline.Net.Step.{◌>>=◌, asks, require}
use peerline.Net.Wire.{secure}

-- The channel of a session, where there is one.
abbrev pub channel_of : Option ReceiverSession → Option ChunkAead
channel_of none = none
channel_of (some session) = session.aead

module _ (receiving : Receiving) (lookup_key : Bytes) (receiver_peer_id : Text) where
  handle_secure_refused :
      (request : Request) (encrypted : EncryptedChunk) (r : Receiver)
      → channel_of (r.sessions request.peer) ≡ none
      → (e : NetError) × (handle_secure receiving request encrypted r ≡ (err (abort e), r))
  unfolding handle_secure ◌>>=◌ asks require
  handle_secure_refused request encrypted r h = elim (Option-cases (r.sessions request.peer)) [
    | inl missing ↦ (no_session, rw missing refl)
    | inr (session, e) ↦ (channel_not_ready, rw (e, subst (λ o. channel_of o ≡ none) e h) refl)
  ]

  -- What follows the events of `before`.
  abbrev go_on :
      List TransferEvent
      → Result NetError (Option ReceivedTransfer) × Receiver
      → Result NetError (Option ReceivedTransfer) × Receiver
  go_on after (ok none, r) = receive receiving lookup_key receiver_peer_id after r
  go_on after (ok (some t), r) = (ok (some t), r)
  go_on after (err e, r) = (err e, r)

  follow-go_on :
      (outcome : Result NetError (Option ReceivedTransfer)) (r : Receiver)
      (rest : Result NetError (Option ReceivedTransfer) × Receiver) (after : List TransferEvent)
      → follow outcome r (go_on after rest) ≡ go_on after (follow outcome r rest)
  follow-go_on (err e) r rest after = refl
  follow-go_on (ok (some t)) r rest after = refl
  follow-go_on (ok none) r rest after = refl

  receive-append :
      (before after : List TransferEvent) (r : Receiver)
      → receive receiving lookup_key receiver_peer_id (before ++ after) r
        ≡ go_on after (receive receiving lookup_key receiver_peer_id before r)
  unfolding receive
  receive-append [] after r = refl
  receive-append (event ∷ before) after r =
      let (handled, r') = handle_transfer_event receiving lookup_key receiver_peer_id event r in
      ap (follow handled.outcome r') (receive-append before after r')
      ∙ follow-go_on handled.outcome r' _ after

  -- Whatever came before, and as long as it did not end the receiver: a secure frame of a peer that has no
  -- channel ends it with an error, and no event after it is handled, of whichever peer.
  pub receive_stopped :
      (before after : List TransferEvent) (r r' : Receiver) (request : Request)
      (encrypted : EncryptedChunk)
      → receive receiving lookup_key receiver_peer_id before r ≡ (ok none, r')
      → channel_of (r'.sessions request.peer) ≡ none
      → (e : NetError) × (receive receiving lookup_key receiver_peer_id
            (before ++ request_message request (secure encrypted) ∷ after)
            r
          ≡ (err e, r'))
  unfolding receive handle_transfer_event handle_inbound_request
  receive_stopped before after r r' request encrypted waits h =
      let (e, refused) = handle_secure_refused request encrypted r' h in
      (e, receive-append before _ r ∙ rw waits (rw refused refl))
