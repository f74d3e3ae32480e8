-- ===== src/Net/Receive.antt =====
-- crates/peerline-net/src/libp2p_transfer/receiver.rs: `handle_transfer_event`, and the loop of
-- `recv_libp2p` over the events that it gets of the transfer protocol.
pub mod Complete
pub mod Locked
pub mod Stopped
use peerline.Base.{
  ℕ, Bool, true, false, List, [], ◌∷◌, ◌++◌, Option, none, some, Result, ok, err, ◌==◌, ◌||◌,
  if◌then◌else◌,
}
use peerline.Base.Text.{Text, Bytes, codes}
use peerline.Net.Receiver.{Request, Stop, answer, abort, on_site, is_some, handle_inbound_request}
use peerline.Net.Session.{ReceiverSession, Receiver, put_session}
use peerline.Core.Event.{complete, failed, stage_changed}
use peerline.Net.Site.{Receiving, ReceivedTransfer, NetError, report}
use peerline.Net.Wire.{WireFrame}

pub data TransferEvent : Type 0 where
  request_message : Request → WireFrame → TransferEvent
  response_message : Text → WireFrame → TransferEvent
  response_sent : Text → ℕ → TransferEvent
  outbound_failure inbound_failure : TransferEvent

-- What one event comes to: a response for the peer, a transfer that is over, an error that ends the
-- receiver.
pub record Handled : Type 0 where
  pub response : Option WireFrame
  pub outcome : Result NetError (Option ReceivedTransfer)

abbrev pub answered : Result Stop WireFrame × Receiver → Handled × Receiver
answered (ok frame, r) = (record { response = some frame; outcome = ok none }, r)
answered (err (answer frame), r) = (record { response = some frame; outcome = ok none }, r)
answered (err (abort e), r) = (record { response = none; outcome = err e }, r)

abbrev quiet : Option ReceivedTransfer → Handled
quiet result = record { response = none; outcome = ok result }

-- A result that waits for this response.
abbrev pub due : ℕ → Option (ℕ × ReceivedTransfer) → Option ReceivedTransfer
due id none = none
due id (some (pending_id, result)) = if pending_id == id then some result else none

abbrev pub due_result : ℕ → Option ReceiverSession → Option ReceivedTransfer
due_result id none = none
due_result id (some session) = due id session.pending_result

abbrev pub due_error : ℕ → Option ReceiverSession → Bool
due_error id none = false
due_error id (some session) = elim session.pending_error [ none ↦ false | some e ↦ e == id ]

unfoldable pub after_response : Text → ℕ → Receiver → Option ReceivedTransfer × Receiver
after_response peer id r =
    let result = due_result id (r.sessions peer) in
    if is_some result || due_error id (r.sessions peer)
    then (result, put_session peer none r)
    else (result, r)

-- What ends the loop; or what the events after it come to.
abbrev pub follow :
    Result NetError (Option ReceivedTransfer)
    → Receiver
    → Result NetError (Option ReceivedTransfer) × Receiver
    → Result NetError (Option ReceivedTransfer) × Receiver
follow (err e) r rest = (err e, r)
follow (ok (some transfer)) r rest =
    (ok (some transfer), on_site (report (stage_changed complete)) r)
follow (ok none) r rest = rest

module _ (receiving : Receiving) (lookup_key : Bytes) (receiver_peer_id : Text) where
  unfoldable pub handle_transfer_event : TransferEvent → Receiver → Handled × Receiver
  handle_transfer_event (request_message request frame) r =
      answered (handle_inbound_request receiving lookup_key receiver_peer_id request frame r)
  handle_transfer_event (response_message peer frame) r = (quiet none, r)
  handle_transfer_event (response_sent peer id) r =
      let (result, r') = after_response peer id r in (quiet result, r')
  handle_transfer_event outbound_failure r = (
    quiet none,
    on_site (report (stage_changed (failed (codes "libp2p transfer request failed")))) r,
  )
  handle_transfer_event inbound_failure r = (
    quiet none,
    on_site (report (stage_changed (failed (codes "libp2p transfer request failed")))) r,
  )

  -- The loop ends with a transfer or an error, or waits for further events.
  unfoldable pub receive :
      List TransferEvent → Receiver → Result NetError (Option ReceivedTransfer) × Receiver
  receive [] r = (ok none, r)
  receive (event ∷ events) r =
      let (handled, r') = handle_transfer_event event r in
      follow handled.outcome r' (receive events r')
