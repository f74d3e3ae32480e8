-- ===== src/Net/Direct/Locked.antt =====
-- direct.rs: `recv_once_bound` where no login is completed.
use peerline.Base.{◌≡◌, refl, List, [], ◌∷◌, Option, none, some, All, subst, Result, ok, err}
use peerline.Base.Text.{Text}
use peerline.Crypto.Opaque.{OpaqueServerResponse, finish_server}
use peerline.Net.Direct.{Connection, Incoming, finish_of, first_frame, read_frame}
use peerline.Net.Direct.Stays.{
  Stays, write_frame-Keeps, emit_direct-Keeps, resume_step-Keeps, accept_intro-Keeps,
}
use peerline.Net.Direct.Stream.{receive_stream, next_connection, recv_once_bound}
use peerline.Net.Receive.Locked.{Refused}
use peerline.Net.Site.{Receiving, Site, ReceivedTransfer, NetError}
use peerline.Net.Step.{Step, require, ◌>>=◌}
use peerline.Net.Step.Keeps.{Keeps, check-Keeps, require-Keeps}
use peerline.Net.Step.Yields.{OnOk, Yields, after-Yields, then-Yields, require-Yields, run-Yields}
use peerline.Net.Wire.{
  WireFrame, client_intro, server_intro, client_finish, secure, ack, error, ClientFinish,
}
use peerline.Transfer.Archive.{Tree}

module _ (receiving : Receiving) (tree : Tree) where
  -- The tree, and frames none of whose finalizations is accepted.
  abbrev IsLocked : Connection → Type 0
  IsLocked = Stays tree (All (Refused receiving))

  first_frame-Refused :
      (c : Connection) (inbox : List WireFrame)
      → c.site.tree ≡ tree
      → All (Refused receiving) inbox
      → OnOk (Refused receiving) (first_frame (record c { inbox = inbox })).0
        × IsLocked (first_frame (record c { inbox = inbox })).1
  first_frame-Refused c [] same refused = (tt, (same, refused))
  first_frame-Refused c (frame ∷ frames) same refused = (refused.0, (same, refused.1))

  read_frame-Refused : Yields IsLocked (Refused receiving) read_frame
  unfolding read_frame
  read_frame-Refused =
      run-Yields first_frame (Refused receiving) λ c h. first_frame-Refused c c.inbox h.0 h.1

  read_frame-Keeps : Keeps IsLocked read_frame
  read_frame-Keeps = record { apply = λ c h. (read_frame-Refused.apply c h).1 }

  require-none {ℓ κ} :
      {A : Type ℓ} {B : Type κ} (o : Option A) (e : NetError)
      (next : A → Step Connection NetError B)
      → o ≡ none
      → Yields IsLocked (λ b. ⊥) (require o e >>= next)
  require-none o e next h = then-Yields (require-Yields o e) λ a there. cc

  finish_of-Refused :
      (frame : WireFrame) (finish : ClientFinish) (login : OpaqueServerResponse)
      → Refused receiving frame
      → finish_of frame ≡ some finish
      → finish_server receiving.steps login finish.opaque_finalization ≡ none
  finish_of-Refused (client_finish f) finish login refused e =
      subst (λ g. finish_server receiving.steps login g.opaque_finalization ≡ none) (some-eq e)
        (refused login)
    where
      some-eq : {x y : ClientFinish} → some x ≡ some y → x ≡ y
      some-eq e = cc
  finish_of-Refused (client_intro intro) finish login refused e = cc
  finish_of-Refused (server_intro intro) finish login refused e = cc
  finish_of-Refused (secure chunk) finish login refused e = cc
  finish_of-Refused ack finish login refused e = cc
  finish_of-Refused (error message) finish login refused e = cc

  receive_stream-Fails :
      (incoming : Incoming) → Yields IsLocked (λ t. ⊥) (receive_stream receiving incoming)
  unfolding receive_stream
  receive_stream-Fails incoming = after-Yields read_frame-Keeps λ frame.
      after-Yields (accept_intro-Keeps tree _ frame) λ intro. after-Yields (check-Keeps _ _) λ _.
        after-Yields (resume_step-Keeps tree _ _ _) λ state.
          after-Yields (emit_direct-Keeps tree _ _) λ _.
            after-Yields (emit_direct-Keeps tree _ _) λ _. after-Yields (require-Keeps _ _) λ entry.
              after-Yields (require-Keeps _ _) λ login.
                after-Yields (write_frame-Keeps tree _ _) λ _.
                  then-Yields read_frame-Refused λ reply refused.
                    then-Yields (require-Yields (finish_of reply) _) λ finish there.
                      require-none _ _ _ (finish_of-Refused reply finish login refused there)

  abbrev Kept : Option ReceivedTransfer × Site → Type 0
  Kept r = (r.0 ≡ none) × (r.1.tree ≡ tree)

  next_connection-Kept :
      (message_of : NetError → Text) (peer : Text)
      (r : Result NetError ReceivedTransfer × Connection)
      (rest : Site → Option ReceivedTransfer × Site)
      → OnOk (λ t. ⊥) r.0
      → r.1.site.tree ≡ tree
      → ((site : Site) → site.tree ≡ tree → Kept (rest site))
      → Kept (next_connection receiving message_of peer r rest)
  next_connection-Kept message_of peer (ok t, c) rest h same later = absurd h
  next_connection-Kept message_of peer (err e, c) rest h same later = later _ same

  -- Where no login accepts a finalization that arrives on any of the connections, a direct receiver gets no
  -- transfer, and everything below the destination but the directory of partial archives stays as it is.
  pub recv_once_bound-Kept :
      (message_of : NetError → Text) (connections : List Incoming) (site : Site)
      → All (λ incoming. All (Refused receiving) incoming.frames) connections
      → site.tree ≡ tree
      → Kept (recv_once_bound receiving message_of connections site)
  unfolding recv_once_bound
  recv_once_bound-Kept message_of [] site refused same = (refl, same)
  recv_once_bound-Kept message_of (incoming ∷ later) site refused same =
      let (h, after) = (receive_stream-Fails incoming).apply _ (same, refused.0) in
      next_connection-Kept message_of incoming.peer _ (recv_once_bound receiving message_of later) h
        after.0 λ site' same'. recv_once_bound-Kept message_of later site' refused.1 same'
