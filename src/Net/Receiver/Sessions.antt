-- ===== src/Net/Receiver/Sessions.antt =====
-- What holds of every session of a receiver.
use peerline.Base.{Option, none, some, text_eq, text_eq_sound, Bool-cases, inl, inr}
use peerline.Base.Text.{Text}
use peerline.Net.Session.{ReceiverSession, Receiver, put_session}

module _ (V : Text → ReceiverSession → Type 0) where
  abbrev pub Holds : Text → Option ReceiverSession → Type 0
  Holds peer none = Unit {0}
  Holds peer (some session) = V peer session

  abbrev pub AllSessions : Receiver → Type 0
  AllSessions r = (peer : Text) → Holds peer (r.sessions peer)

  pub put_session-AllSessions :
      (peer : Text) (changed : Option ReceiverSession) (r : Receiver)
      → Holds peer changed
      → AllSessions r
      → AllSessions (put_session peer changed r)
  unfolding put_session
  put_session-AllSessions peer changed r h every other = elim (Bool-cases (text_eq other peer)) [
    | inl same ↦ rw (same, text_eq_sound other peer same) h
    | inr apart ↦ rw apart (every other)
  ]
