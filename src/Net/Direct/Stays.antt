-- ===== src/Net/Direct/Stays.antt =====
-- direct.rs: the steps of a connection that leave the destination outside the partial archives alone.
use peerline.Base.{ℕ, ◌≡◌, ◌∙◌, refl, Bool, true, false, List, [], ◌∷◌, Result, ok, err}
use peerline.Base.Text.{Bytes}
use peerline.Core.Event.{PeerlineEvent}
use peerline.Core.Manifest.{TransferDescriptor}
use peerline.Crypto.Primitives.{Primitives}
use peerline.Net.Direct.{
  Connection, Incoming, chunk_of, write_frame, emit_direct, checked_version, accept_intro,
}
use peerline.Net.Direct.Chunks.{Arrived, stored, take_frame, open_frame, receive_chunks}
use peerline.Net.Direct.Stream.{resume_step, put_arrived, chunks_step, complete_step}
use peerline.Net.Protocol.{SecureFrame, header, archive_chunk, finished, SecureChannel, SecureCodec}
use peerline.Net.Site.{Receiving, Site, NetError, complete_received}
use peerline.Net.Step.{run}
use peerline.Net.Step.Keeps.{Keeps, step_rules, modify-Keeps, run-Keeps, stop-Keeps}
use peerline.Net.Wire.{
  WireFrame, client_intro, server_intro, client_finish, secure, ack, error, ClientIntro,
}
use peerline.Resume.{ResumeState, ResumeError, Disk, append_chunk}
use peerline.Transfer.Archive.{Tree}

stored_tree :
    (now : ℕ) (transfer_id : Bytes) (d : TransferDescriptor)
    (r : Result ResumeError ℕ × ResumeState × Disk) (site : Site)
    (rest : ResumeState → Site → Arrived)
    → ((state : ResumeState) (site' : Site) → (rest state site').1.tree ≡ site'.tree)
    → (stored now transfer_id d r site rest).1.tree ≡ site.tree
stored_tree now transfer_id d (ok total, state, disk) site rest h = h _ _
stored_tree now transfer_id d (err e, state, disk) site rest h = refl

module _ (prims : Primitives) (codec : SecureCodec) (now : ℕ) (transfer_id : Bytes)
    (d : TransferDescriptor) where
  take_frame_tree :
      (opened : Result NetError SecureFrame) (frames : List WireFrame) (state : ResumeState)
      (site : Site) (rest : ResumeState → Site → Arrived)
      → ((state' : ResumeState) (site' : Site) → (rest state' site').1.tree ≡ site'.tree)
      → (take_frame prims codec now transfer_id d opened frames state site rest).1.tree ≡ site.tree
  take_frame_tree (err e) frames state site rest h = refl
  take_frame_tree (ok (header compression)) frames state site rest h = refl
  take_frame_tree (ok (archive_chunk bytes)) frames state site rest h =
      stored_tree now transfer_id d (append_chunk now state d bytes site.disk) site rest h
  take_frame_tree (ok finished) frames state site rest h = refl

  receive_chunks_tree :
      (frames : List WireFrame) (channel : SecureChannel) (state : ResumeState) (site : Site)
      → (receive_chunks prims codec now transfer_id d frames channel state site).1.tree ≡ site.tree
  unfolding receive_chunks
  receive_chunks_tree [] channel state site = refl
  receive_chunks_tree (frame ∷ frames) channel state site =
      let next = (open_frame prims codec channel (chunk_of frame)).1 in
      take_frame_tree _ frames state site _
        λ state' site'. receive_chunks_tree frames next state' site'

put_arrived_tree : (c : Connection) (r : Arrived) → (put_arrived c r).1.site.tree ≡ r.1.tree
put_arrived_tree c (ok (state, frames), site) = refl
put_arrived_tree c (err e, site) = refl

-- The tree of the destination, and what is known of the frames that have not been read.
module _ (tree : Tree) (Q : List WireFrame → Type 0) where
  abbrev pub Stays : Connection → Type 0
  Stays c = (c.site.tree ≡ tree) × Q c.inbox

  pub write_frame-Keeps : (frame : WireFrame) → Keeps Stays (write_frame frame)
  unfolding write_frame
  write_frame-Keeps frame = modify-Keeps _ λ c h. h

  pub emit_direct-Keeps : (event : PeerlineEvent) → Keeps Stays (emit_direct event)
  unfolding emit_direct
  emit_direct-Keeps event = modify-Keeps _ λ c h. h

  pub resume_step-Keeps : (now : ℕ) (d : TransferDescriptor) → Keeps Stays (run (resume_step now d))
  unfolding resume_step
  resume_step-Keeps now d = run-Keeps _ λ c h. h

  pub complete_step-Keeps :
      (receiving : Receiving) (d : TransferDescriptor) (state : ResumeState)
      → Keeps Stays (run (complete_step receiving d state))
  unfolding complete_step complete_received
  complete_step-Keeps receiving d state = run-Keeps _ λ c h. h

  ruleset writing_rules = (step_rules, write_frame-Keeps)

  checked_version-Keeps :
      (same : Bool) (intro : ClientIntro) → Keeps Stays (checked_version same intro)
  checked_version-Keeps true intro = search writing_rules
  checked_version-Keeps false intro = search writing_rules

  pub accept_intro-Keeps : (frame : WireFrame) → Keeps Stays (accept_intro frame)
  unfolding accept_intro
  accept_intro-Keeps (client_intro intro) = checked_version-Keeps _ intro
  accept_intro-Keeps (server_intro intro) = stop-Keeps _
  accept_intro-Keeps (client_finish finish) = stop-Keeps _
  accept_intro-Keeps (secure chunk) = stop-Keeps _
  accept_intro-Keeps ack = stop-Keeps _
  accept_intro-Keeps (error message) = stop-Keeps _

  pub chunks_step-Keeps :
      (receiving : Receiving) (incoming : Incoming) (d : TransferDescriptor)
      (channel : SecureChannel) (state : ResumeState)
      → ((frames : List WireFrame) → Q frames)
      → Keeps Stays (run (chunks_step receiving incoming d channel state))
  unfolding chunks_step
  chunks_step-Keeps receiving incoming d channel state any = run-Keeps _ λ c h. (
    put_arrived_tree c _ ∙ (receive_chunks_tree _ _ _ _ d c.inbox channel state c.site ∙ h.0),
    any _,
  )
