-- ===== src/Net/Direct/Arrives.antt =====
-- direct.rs: the transfer that `receive_stream` ends with, over one connection.
use peerline.Base.{
  ◌≡◌, ◌∙◌, refl, sym, ap, subst, Bool, true, false, List, [], ◌∷◌, Result, ok, err,
}
use peerline.Base.Text.{Bytes}
use peerline.Core.Manifest.{Compression, TransferDescriptor}
use peerline.Net.Direct.{
  Connection, Incoming, first_frame, read_frame, write_frame, emit_direct, checked_version,
  accept_intro,
}
use peerline.Net.Direct.Stays.{
  Stays, write_frame-Keeps, emit_direct-Keeps, resume_step-Keeps, chunks_step-Keeps,
}
use peerline.Net.Direct.Stream.{
  complete_step, unpack_step, conclude, receive_body, receive_archive, receive_stream,
}
use peerline.Net.Protocol.{SecureChannel}
use peerline.Net.Receiver.Orderly.{same_compression_sound}
use peerline.Net.Site.{Receiving, Site, ReceivedTransfer, unpack_received, complete_received}
use peerline.Net.Site.Complete.{
  IsPromised, IsComplete, complete_received-IsPromised, unpack_received-IsComplete,
}
use peerline.Net.Receiver.{same_compression}
use peerline.Net.Step.{run}
use peerline.Net.Step.Keeps.{Keeps, check-Keeps, require-Keeps, lift-Keeps, modify-Keeps}
use peerline.Net.Step.Reaches.{
  Reaches, then-Reaches, Yields-Reaches, Keeps-Reaches, run-Reaches, give-Reaches, stop-Reaches,
  weaken-Reaches,
}
use peerline.Net.Step.Yields.{
  OnOk, Yields, after-Yields, give-Yields, stop-Yields, check-Yields, run-Yields,
}
use peerline.Net.Wire.{
  WireFrame, client_intro, server_intro, client_finish, secure, ack, error, ClientIntro,
}
use peerline.Resume.{ResumeState}
use peerline.Transfer.Archive.{ArchiveError, Tree}

-- Whatever frames are left.
abbrev pub Any : List WireFrame → Type 0
Any frames = Unit {0}

module _ (tree : Tree) where
  first_frame_of :
      (c : Connection) (inbox frames : List WireFrame)
      → c.site.tree ≡ tree
      → inbox ≡ frames
      → OnOk
          (λ frame.
            Stays tree Any (first_frame (record c { inbox = inbox })).1
            × ((rest : List WireFrame) × (frames ≡ frame ∷ rest)))
          (first_frame (record c { inbox = inbox })).0
  first_frame_of c [] frames same e = tt
  first_frame_of c (frame ∷ rest) frames same e = ((same, tt), (rest, sym e))

  read_first :
      (frames : List WireFrame)
      → Reaches
          (Stays tree (λ inbox. inbox ≡ frames))
          (λ frame c. Stays tree Any c × ((rest : List WireFrame) × (frames ≡ frame ∷ rest)))
          read_frame
  unfolding read_frame
  read_first frames = run-Reaches first_frame _ λ c h. first_frame_of c c.inbox frames h.0 h.1

  read_next : Keeps (Stays tree Any) read_frame
  unfolding read_frame run
  read_next = record { apply = λ c h. (go c c.inbox h.0, tt) }
    where
      go :
          (c : Connection) (inbox : List WireFrame)
          → c.site.tree ≡ tree
          → (first_frame (record c { inbox = inbox })).1.site.tree ≡ tree
      go c [] same = same
      go c (frame ∷ rest) same = same

  checked_version-Yields :
      (same : Bool) (intro : ClientIntro)
      → Yields
          (Stays tree Any)
          (λ i. client_intro intro ≡ client_intro i)
          (checked_version same intro)
  checked_version-Yields true intro = give-Yields intro refl
  checked_version-Yields false intro =
      after-Yields (write_frame-Keeps tree Any _) λ u. stop-Yields _

  accept_intro-Yields :
      (frame : WireFrame)
      → Yields (Stays tree Any) (λ intro. frame ≡ client_intro intro) (accept_intro frame)
  unfolding accept_intro
  accept_intro-Yields (client_intro intro) = checked_version-Yields _ intro
  accept_intro-Yields (server_intro intro) = stop-Yields _
  accept_intro-Yields (client_finish finish) = stop-Yields _
  accept_intro-Yields (secure chunk) = stop-Yields _
  accept_intro-Yields ack = stop-Yields _
  accept_intro-Yields (error message) = stop-Yields _

  module _ (receiving : Receiving) (incoming : Incoming) where
    complete_step-IsPromised :
        (d : TransferDescriptor) (state : ResumeState)
        → Yields (Stays tree Any) (IsPromised receiving d) (run (complete_step receiving d state))
    unfolding complete_step complete_received
    complete_step-IsPromised d state =
        run-Yields _ (IsPromised receiving d)
          λ c h. (complete_received-IsPromised receiving state d c.site, h)

    abbrev Arrives : TransferDescriptor → ReceivedTransfer → Connection → Type 0
    Arrives d t c = IsComplete receiving incoming.peer d tree c.site.tree t

    unpack_step-Arrives :
        (d : TransferDescriptor) (state : ResumeState) (archive : Bytes)
        → IsPromised receiving d archive
        → Reaches
            (Stays tree Any)
            (λ result c. OnOk (λ t. Arrives d t c) result)
            (run (unpack_step receiving incoming state d.compression archive))
    unfolding unpack_step
    unpack_step-Arrives d state archive promised = run-Reaches _ _ λ c h.
        let r = unpack_received receiving incoming.peer state d.compression archive c.site in
        subst (λ start. OnOk (IsComplete receiving incoming.peer d start r.1.tree) r.0) h.0
          (unpack_received-IsComplete receiving incoming.peer d archive state c.site promised)

    conclude-Arrives :
        (d : TransferDescriptor) (result : Result ArchiveError ReceivedTransfer)
        → Reaches (λ c. OnOk (λ t. Arrives d t c) result) (Arrives d) (conclude receiving result)
    unfolding conclude write_frame emit_direct
    conclude-Arrives d (ok t) =
        Keeps-Reaches (modify-Keeps _ λ c h. h)
          λ u. Keeps-Reaches (modify-Keeps _ λ c h. h) λ v. give-Reaches t λ c h. h
    conclude-Arrives d (err e) = Keeps-Reaches (modify-Keeps _ λ c h. h) λ u. stop-Reaches _

    receive_body-Arrives :
        (d : TransferDescriptor) (state : ResumeState) (c : Compression) (channel : SecureChannel)
        → c ≡ d.compression
        → Reaches (Stays tree Any) (Arrives d) (receive_body receiving incoming d state c channel)
    unfolding receive_body
    receive_body-Arrives d state c channel same =
        Keeps-Reaches (chunks_step-Keeps tree Any receiving incoming d channel state λ fs. tt)
          λ state'. Keeps-Reaches (emit_direct-Keeps tree Any _) λ w.
            Yields-Reaches (complete_step-IsPromised d state') λ archive promised.
              then-Reaches (rw same (unpack_step-Arrives d state' archive promised))
                λ result. conclude-Arrives d result

    receive_archive-Arrives :
        (d : TransferDescriptor) (state : ResumeState) (channel : SecureChannel)
        → Reaches (Stays tree Any) (Arrives d) (receive_archive receiving incoming d state channel)
    unfolding receive_archive
    receive_archive-Arrives d state channel = Keeps-Reaches read_next λ frame.
        Keeps-Reaches (lift-Keeps _) λ first. Keeps-Reaches (require-Keeps _ _) λ c.
          Yields-Reaches (check-Yields (same_compression c d.compression) _) λ u same.
            Keeps-Reaches (emit_direct-Keeps tree Any _)
              λ v. receive_body-Arrives d state c _ (same_compression_sound c d.compression same)

    -- The transfer, over the tree before, of the archive that the connection's first frame describes.
    abbrev pub Arrived : ReceivedTransfer → Site → Type 0
    Arrived t end =
        (intro : ClientIntro) × (frames : List WireFrame) × (incoming.frames
          ≡ client_intro intro ∷ frames)
        × IsComplete receiving incoming.peer intro.descriptor tree end.tree t

    pub receive_stream-Arrived :
        Reaches
          (Stays tree (λ inbox. inbox ≡ incoming.frames))
          (λ t c. Arrived t c.site)
          (receive_stream receiving incoming)
    unfolding receive_stream
    receive_stream-Arrived = then-Reaches (read_first incoming.frames) λ frame. record {
      apply = λ c (h, (rest, e)).
          (Yields-Reaches {R = λ t c'. Arrived t c'.site} (accept_intro-Yields frame) λ intro first.
              Keeps-Reaches (check-Keeps _ _) λ _.
                Keeps-Reaches (resume_step-Keeps tree Any _ _) λ state.
                  Keeps-Reaches (emit_direct-Keeps tree Any _) λ _.
                    Keeps-Reaches (emit_direct-Keeps tree Any _) λ _.
                      Keeps-Reaches (require-Keeps _ _) λ entry.
                        Keeps-Reaches (require-Keeps _ _) λ login.
                          Keeps-Reaches (write_frame-Keeps tree Any _) λ _.
                            Keeps-Reaches read_next λ reply.
                              Keeps-Reaches (require-Keeps _ _) λ finish.
                                Keeps-Reaches (require-Keeps _ _) λ key.
                                  Keeps-Reaches (require-Keeps _ _) λ keys.
                                    weaken-Reaches
                                      (λ t c' whole.
                                        (intro, rest, e ∙ ap (λ f. f ∷ rest) first, whole))
                                      (receive_archive-Arrives intro.descriptor state _)).apply
            c h;
    }
