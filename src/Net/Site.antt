-- ===== src/Net/Site.antt =====
-- What a receiver has on disk and reports: shared by the direct and the libp2p receiver of
-- crates/peerline-net/src, direct.rs and libp2p_transfer/receiver.rs.
pub mod Complete
use peerline.Base.{
  ℕ, ◌+◌, Bool, true, false, List, [], ◌∷◌, ◌++◌, Option, none, some, Result, ok, err, retain,
  length,
}
use peerline.Base.Text.{Text, Bytes}
use peerline.Core.Manifest.{Compression, Manifest, ManifestEntry, TransferDescriptor}
use peerline.Core.Event.{PeerlineEvent}
use peerline.Crypto.Primitives.{Primitives, OpaqueSteps}
use peerline.Net.Protocol.{SecureCodec, SecureError}
use peerline.Net.Wire.{WireError}
use peerline.Resume.{Disk, ResumeState, ResumeError, complete_partial, remove_partial}
use peerline.Transfer.Archive.{ArchiveError, Tree}
use peerline.Transfer.Codec.{Decoders, unpack_archive_from_reader}
use peerline.Transfer.Run.{Failure}

pub record ReceivedTransfer : Type 0 where
  pub peer : Text
  pub files : ℕ
  pub bytes : ℕ

-- The receiver's options, and the libraries that it is built on.
pub record Receiving : Type 0 where
  pub name : Text
  pub code : Text
  pub overwrite : Bool
  pub prims : Primitives
  pub steps : OpaqueSteps
  pub secure_codec : SecureCodec
  pub decoders : Decoders
  -- The text of an error.
  pub describe : ArchiveError → Text

-- The errors that end a session.
pub data NetError : Type 0 where
  no_session no_login no_handshake channel_not_ready no_header login_failed handshake_failed :
      NetError
  incompatible_version unexpected_frame name_mismatch compression_mismatch : NetError
  duplicate_header : NetError
  on_wire : WireError → NetError
  on_secure : SecureError → NetError
  on_resume : ResumeError → NetError
  on_archive : ArchiveError → NetError

-- The partial archives, the rest of the destination, and what was reported. The partial archives lie below
-- the destination too, in the directory .peerline-resume; `tree` is what is there beside it.
pub record Site : Type 0 where
  pub disk : Disk
  pub tree : Tree
  pub events : List PeerlineEvent

abbrev pub report : PeerlineEvent → Site → Site
report event site = record site { events = site.events ++ event ∷ [] }

abbrev has_hash : Option Bytes → Bool
has_hash none = false
has_hash (some h) = true

abbrev pub received_transfer : Text → Manifest → ReceivedTransfer
received_transfer peer manifest = record {
  peer = peer;
  files = length (retain (λ (e : ManifestEntry). has_hash e.blake3) manifest.entries);
  bytes = manifest.total_bytes;
}

abbrev pub resume_result {ℓ} : {A : Type ℓ} → Result ResumeError A → Result NetError A
resume_result (ok a) = ok a
resume_result (err e) = err (on_resume e)

-- The archive is unpacked, and its partial copy removed either way.
abbrev pub unpacked :
    Text
    → ResumeState
    → Site
    → Result Failure (Manifest × Tree)
    → Result ArchiveError ReceivedTransfer × Site
unpacked peer state site (ok (manifest, tree)) = (
  ok (received_transfer peer manifest),
  record site { disk = remove_partial state site.disk; tree = tree },
)
unpacked peer state site (err (e, tree)) =
    (err e, record site { disk = remove_partial state site.disk; tree = tree })

module _ (receiving : Receiving) where
  unfoldable pub unpack_received :
      Text → ResumeState → Compression → Bytes → Site → Result ArchiveError ReceivedTransfer × Site
  unpack_received peer state compression archive site = unpacked peer state site (
      unpack_archive_from_reader receiving.decoders receiving.overwrite compression archive
        site.tree)

  -- `complete_partial` on the site.
  unfoldable pub complete_received :
      ResumeState → TransferDescriptor → Site → Result NetError Bytes × Site
  complete_received state d site =
      let (archive, disk) = complete_partial receiving.prims.blake3 state d site.disk in
      (resume_result archive, record site { disk = disk })
