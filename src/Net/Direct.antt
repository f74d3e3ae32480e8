-- ===== src/Net/Direct.antt =====
-- crates/peerline-net/src/direct.rs: the receiver of a direct connection, and the loop that accepts
-- connections. What a connection sends is the list of its frames, after which it is at an end; writing
-- to it goes well.
pub mod Chunks
pub mod Stream
pub mod Stays
pub mod Arrival
pub mod Arrives
pub mod Outcome
pub mod Locked
pub mod Honest
use peerline.Base.{
  ℕ, Bool, true, false, List, [], ◌∷◌, ◌++◌, Option, none, some, Result, ok, err, ◌==◌, text_eq,
}
use peerline.Base.Text.{Text, Bytes, codes, utf8}
use peerline.Core.Manifest.{Compression, TransferDescriptor}
use peerline.Crypto.Aead.{EncryptedChunk, ChunkAead}
use peerline.Crypto.Handshake.{server_start, server_finish}
use peerline.Crypto.Opaque.{create_server_record, start_server_login, finish_server}
use peerline.Net.Protocol.{
  protocol_version, SecureFrame, header, archive_chunk, finished, SecureChannel, SecureError,
  decrypt_secure, direct_transcript,
}
use peerline.Net.Receiver.{accepts_name, same_compression, version_message}
use peerline.Core.Event.{
  TransferStage, connecting, authenticating, receiving_manifest, verifying, complete, failed,
  PeerlineEvent, stage_changed, transfer_started, progress,
}
use peerline.Net.Site.{
  Receiving, Site, ReceivedTransfer, NetError, login_failed, handshake_failed, no_header,
  incompatible_version, unexpected_frame, name_mismatch, compression_mismatch, duplicate_header,
  on_wire, on_secure, on_resume, on_archive, report, unpack_received, complete_received,
}
use peerline.Net.Step.{Step, ◌>>=◌, ◌>>◌, give, stop, modify, run, require, check}
use peerline.Net.Wire.{
  WireFrame, client_intro, server_intro, client_finish, secure, ack, error, ClientIntro,
  ClientFinish, unexpected_end,
}
use peerline.Resume.{Disk, ResumeState, ResumeError, resume_state, append_chunk}
use peerline.Transfer.Archive.{ArchiveError}

pub record Connection : Type 0 where
  pub inbox : List WireFrame
  pub outbox : List WireFrame
  pub site : Site

-- A connection, with the time and the random numbers that its handling draws.
pub record Incoming : Type 0 where
  pub peer : Text
  pub now : ℕ
  pub transfer_id : Bytes
  pub record_random : Bytes
  pub login_random : Bytes
  pub secret : Bytes
  pub kem_seed : Bytes
  pub frames : List WireFrame

abbrev pub Direct {ℓ} : Type ℓ → Type ℓ
Direct A = Step Connection NetError A

abbrev pub first_frame : Connection → Result NetError WireFrame × Connection
first_frame c = elim c.inbox [
  | [] ↦ (err (on_wire unexpected_end), c)
  | frame ∷ frames ↦ (ok frame, record c { inbox = frames })
]

unfoldable pub read_frame : Direct WireFrame
read_frame = run first_frame

unfoldable pub write_frame : WireFrame → Direct (Unit {0})
write_frame frame = modify λ c. record c { outbox = c.outbox ++ frame ∷ [] }

unfoldable pub emit_direct : PeerlineEvent → Direct (Unit {0})
emit_direct event = modify λ c. record c { site = report event c.site }

abbrev pub finish_of : WireFrame → Option ClientFinish
finish_of (client_finish finish) = some finish
finish_of (client_intro intro) = none
finish_of (server_intro intro) = none
finish_of (secure chunk) = none
finish_of ack = none
finish_of (error message) = none

abbrev pub chunk_of : WireFrame → Option EncryptedChunk
chunk_of (secure chunk) = some chunk
chunk_of (client_intro intro) = none
chunk_of (server_intro intro) = none
chunk_of (client_finish finish) = none
chunk_of ack = none
chunk_of (error message) = none

abbrev pub header_of : SecureFrame → Option Compression
header_of (header compression) = some compression
header_of (archive_chunk bytes) = none
header_of finished = none

abbrev pub checked_version : Bool → ClientIntro → Direct ClientIntro
checked_version true intro = give intro
checked_version false intro = do
  write_frame (error (version_message intro.version))
  stop incompatible_version

unfoldable pub accept_intro : WireFrame → Direct ClientIntro
accept_intro (client_intro intro) = checked_version (intro.version == protocol_version) intro
accept_intro (server_intro intro) = stop unexpected_frame
accept_intro (client_finish finish) = stop unexpected_frame
accept_intro (secure chunk) = stop unexpected_frame
accept_intro ack = stop unexpected_frame
accept_intro (error message) = stop unexpected_frame
