-- ===== src/Net/Site/Complete.antt =====
-- What it takes for a transfer to be complete, for both receivers.
use peerline.Base.{◌≡◌, refl, Result, ok, err, length}
use peerline.Base.Text.{Text, Bytes}
use peerline.Core.Manifest.{Manifest, TransferDescriptor}
use peerline.Net.Site.{
  Receiving, Site, ReceivedTransfer, received_transfer, resume_result, unpacked, unpack_received,
  complete_received,
}
use peerline.Net.Step.Yields.{OnOk}
use peerline.Resume.{ResumeState, Disk}
use peerline.Resume.Transfer.{CompleteResult, CompleteOutcome, complete_partial-Outcome}
use peerline.Transfer.Archive.{ArchiveError, Tree}
use peerline.Transfer.Codec.{unpack_archive_from_reader}
use peerline.Transfer.Run.{Failure}

module _ (receiving : Receiving) where
  -- The archive is as the descriptor promises.
  abbrev pub IsPromised : TransferDescriptor → Bytes → Type 0
  IsPromised d archive =
      (length archive ≡ d.archive_bytes) × (receiving.prims.blake3 archive ≡ d.resource_id)

  -- The transfer is that of an archive of the promised size and hash, which was unpacked whole and made
  -- one tree another.
  pub record IsComplete (peer : Text) (d : TransferDescriptor) (tree left : Tree)
      (t : ReceivedTransfer) : Type 0 where
    pub archive : Bytes
    pub manifest : Manifest
    pub promised : IsPromised d archive
    pub unpacks :
        unpack_archive_from_reader receiving.decoders receiving.overwrite d.compression archive tree
        ≡ ok (manifest, left)
    pub told : t ≡ received_transfer peer manifest

  -- The same, over some tree.
  abbrev pub WasComplete : Text → TransferDescriptor → ReceivedTransfer → Type 0
  WasComplete peer d t = (tree : Tree) × (left : Tree) × IsComplete peer d tree left t

  outcome-IsPromised :
      (state : ResumeState) (d : TransferDescriptor) (disk : Disk) (result : CompleteResult)
      → CompleteOutcome receiving.prims.blake3 state d disk result
      → OnOk (IsPromised d) (resume_result result.0)
  outcome-IsPromised state d disk (ok archive, disk') (kept, size, hash, same) = (size, hash)
  outcome-IsPromised state d disk (err e, disk') h = tt

  pub complete_received-IsPromised :
      (state : ResumeState) (d : TransferDescriptor) (site : Site)
      → OnOk (IsPromised d) (complete_received receiving state d site).0
  unfolding complete_received
  complete_received-IsPromised state d site =
      outcome-IsPromised state d site.disk _
        (complete_partial-Outcome receiving.prims.blake3 state d site.disk)

  unpacked-IsComplete :
      (peer : Text) (d : TransferDescriptor) (archive : Bytes) (state : ResumeState) (site : Site)
      (result : Result Failure (Manifest × Tree))
      → IsPromised d archive
      → unpack_archive_from_reader receiving.decoders receiving.overwrite d.compression archive
          site.tree
        ≡ result
      → OnOk
          (IsComplete peer d site.tree (unpacked peer state site result).1.tree)
          (unpacked peer state site result).0
  unpacked-IsComplete peer d archive state site (ok (manifest, left)) promised e = record {
    archive = archive;
    manifest = manifest;
    promised = promised;
    unpacks = e;
    told = refl;
  }
  unpacked-IsComplete peer d archive state site (err (e, tree)) promised same = tt

  pub unpack_received-IsComplete :
      (peer : Text) (d : TransferDescriptor) (archive : Bytes) (state : ResumeState) (site : Site)
      → IsPromised d archive
      → let (result, site') = unpack_received receiving peer state d.compression archive site in
        OnOk (IsComplete peer d site.tree site'.tree) result
  unfolding unpack_received
  unpack_received-IsComplete peer d archive state site promised =
      unpacked-IsComplete peer d archive state site _ promised refl

  was_complete :
      (peer : Text) (d : TransferDescriptor) (tree left : Tree)
      (result : Result ArchiveError ReceivedTransfer)
      → OnOk (IsComplete peer d tree left) result
      → OnOk (WasComplete peer d) result
  was_complete peer d tree left (ok t) h = (tree, left, h)
  was_complete peer d tree left (err e) h = tt

  pub unpack_received-WasComplete :
      (peer : Text) (d : TransferDescriptor) (archive : Bytes) (state : ResumeState) (site : Site)
      → IsPromised d archive
      → OnOk
          (WasComplete peer d)
          (unpack_received receiving peer state d.compression archive site).0
  unpack_received-WasComplete peer d archive state site promised =
      was_complete peer d _ _ _ (unpack_received-IsComplete peer d archive state site promised)
