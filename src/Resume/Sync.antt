-- ===== src/Resume/Sync.antt =====
-- resume.rs: the part, its metadata and the offset in memory, compared.
use peerline.Base.{
  ℕ, ◌+◌, ◌≤◌, ◌<◌, ◌≡◌, ◌⊎◌, refl, ap, ◌∙◌, true, false, ◌&&◌, ◌++◌, Option, none, some, Result,
  ok, err, arith, leb, ltb, ◌==◌, length, length-append, text_eq_refl, Bool-cases, inl, inr,
}
use peerline.Base.Text.{Bytes}
use peerline.Core.Manifest.{TransferDescriptor, u64_mod}
use peerline.Resume.{
  PartialMetadata, MetadataFile, readable, unreadable, PartialDir, Disk, ResumeState, ResumeError,
  missing_part, offset_overflow, too_many_bytes, size_mismatch, hash_mismatch, put_dir,
  metadata_matches, metadata_of, empty_dir, dir_or_empty, check_partial, renewed, resume_state,
  part_bytes, write_part, finish_append, append_chunk,
}

-- What the directory of a transfer holds, when `offset` bytes have arrived.
pub record Holds (d : TransferDescriptor) (offset : ℕ) (dir : PartialDir) : Type 0 where
  pub held : length (part_bytes dir.part) ≡ offset
  pub noted : PartialMetadata
  pub written : dir.metadata ≡ some (readable noted)
  pub matching : metadata_matches noted d ≡ true
  pub counted : noted.received_bytes ≡ offset
  pub bounded : offset ≤ d.archive_bytes

pub record InSync (d : TransferDescriptor) (state : ResumeState) (disk : Disk) : Type 0 where
  pub source : state.source_id ≡ d.source_id
  pub resource : state.resource_id ≡ d.resource_id
  pub dir : PartialDir
  pub there : disk d.source_id d.resource_id ≡ some dir
  pub holds : Holds d state.offset dir

pub put_dir_here :
    (s r : Bytes) (dir : Option PartialDir) (disk : Disk) → put_dir s r dir disk s r ≡ dir
unfolding put_dir
put_dir_here s r dir disk = ground (arith, text_eq_refl s, text_eq_refl r)

pub metadata_of_matches :
    (d : TransferDescriptor) (received now : ℕ)
    → metadata_matches (metadata_of d received now) d ≡ true
unfolding metadata_matches
metadata_of_matches d received now =
    ground (arith, text_eq_refl d.source_id, text_eq_refl d.resource_id)

empty-Holds : (d : TransferDescriptor) (now : ℕ) → Holds d 0 (renewed d now (0, empty_dir))
empty-Holds d now = record {
  held = refl;
  noted = metadata_of d 0 now;
  written = refl;
  matching = metadata_of_matches d 0 now;
  counted = refl;
  bounded = omega arith;
}

checked-Holds :
    (d : TransferDescriptor) (now : ℕ) (part : Option Bytes) (metadata : Option MetadataFile)
    → let checked = check_partial d part metadata in Holds d checked.0 (renewed d now checked)
unfolding check_partial
checked-Holds d now (some part) (some (readable m)) = elim (Bool-cases (metadata_matches m d)) [
  | inr other ↦ rw other (empty-Holds d now)
  | inl same ↦
      elim (Bool-cases (leb (length part) d.archive_bytes && length part == m.received_bytes)) [
        | inr off ↦ rw (same, off) (empty-Holds d now)
        | inl fits ↦ rw (same, fits) (kept same fits (Bool-cases (length part == 0)))
      ]
]
  where
    dir : PartialDir
    dir = record { part = some part; metadata = some (readable m) }

    kept :
        metadata_matches m d ≡ true
        → leb (length part) d.archive_bytes && length part == m.received_bytes ≡ true
        → ((length part == 0) ≡ true) ⊎ ((length part == 0) ≡ false)
        → Holds d (length part) (renewed d now (length part, dir))
    kept same fits (inl none_yet) = rw none_yet (record {
      held = refl;
      noted = metadata_of d 0 now;
      written = refl;
      matching = metadata_of_matches d 0 now;
      counted = ground (arith, none_yet);
      bounded = ground (arith, fits);
    })
    kept same fits (inr some_there) = rw some_there (record {
      held = refl;
      noted = m;
      written = refl;
      matching = same;
      counted = ground (arith, fits);
      bounded = ground (arith, fits);
    })
checked-Holds d now (some part) (some unreadable) = empty-Holds d now
checked-Holds d now (some part) none = empty-Holds d now
checked-Holds d now none (some m) = empty-Holds d now
checked-Holds d now none none = empty-Holds d now

-- Whatever is on disk, after `resume_state` the part is as long as the offset it returns, the metadata
-- matches the descriptor and gives that length, and the offset is within the archive's size.
pub resume_state-InSync :
    (now : ℕ) (d : TransferDescriptor) (disk : Disk)
    → InSync d (resume_state now d disk).0 (resume_state now d disk).1
unfolding resume_state
resume_state-InSync now d disk = record {
  source = refl;
  resource = refl;
  dir = _;
  there = put_dir_here d.source_id d.resource_id _ _;
  holds = checked-Holds d now _ _;
}

-- The part after some more bytes.
pub record Appended (d : TransferDescriptor) (now : ℕ) (bytes : Bytes) (s : ResumeState)
    (disk : Disk) (total : ℕ) (s' : ResumeState) (disk' : Disk) : Type 0 where
  pub total_is : total ≡ s.offset + length bytes
  pub offset_is : s'.offset ≡ total
  pub in_sync : InSync d s' disk'
  pub part_is :
      part_bytes (dir_or_empty (disk' d.source_id d.resource_id)).part
      ≡ part_bytes (dir_or_empty (disk d.source_id d.resource_id)).part ++ bytes
  pub noted_now :
      (dir_or_empty (disk' d.source_id d.resource_id)).metadata
      ≡ some (readable (metadata_of d total now))

abbrev pub AppendResult : Type 0
AppendResult = Result ResumeError ℕ × ResumeState × Disk

-- An append succeeds exactly within the archive's size: it then adds the bytes and stays in sync.
abbrev pub AppendOutcome :
    TransferDescriptor → ℕ → Bytes → ResumeState → Disk → AppendResult → Type 0
AppendOutcome d now bytes s disk (ok total, s', disk') =
    (s.offset + length bytes ≤ d.archive_bytes) × Appended d now bytes s disk total s' disk'
AppendOutcome d now bytes s disk (err offset_overflow, s', disk') =
    u64_mod ≤ s.offset + length bytes
AppendOutcome d now bytes s disk (err too_many_bytes, s', disk') =
    d.archive_bytes < s.offset + length bytes
AppendOutcome d now bytes s disk (err missing_part, s', disk') = ⊥
AppendOutcome d now bytes s disk (err size_mismatch, s', disk') = ⊥
AppendOutcome d now bytes s disk (err hash_mismatch, s', disk') = ⊥

finish_append-Outcome :
    (now : ℕ) (d : TransferDescriptor) (bytes : Bytes) (dir : PartialDir) (s : ResumeState)
    (disk between : Disk)
    → s.source_id ≡ d.source_id
    → s.resource_id ≡ d.resource_id
    → disk d.source_id d.resource_id ≡ some dir
    → length (part_bytes dir.part) ≡ s.offset
    → AppendOutcome d now bytes s disk
        (finish_append now s d (length bytes) (write_part dir bytes) between)
unfolding finish_append write_part
finish_append-Outcome now d bytes dir s disk between src res here held =
    elim (Bool-cases (leb u64_mod (s.offset + length bytes))) [
      | inl wraps ↦ rw wraps (ground (arith, wraps))
      | inr small ↦ elim (Bool-cases (ltb d.archive_bytes (s.offset + length bytes))) [
        | inl over ↦ rw (small, over) (ground (arith, over))
        | inr fits ↦ rw (small, fits) (ground (arith, fits), appended (ground (arith, fits)))
      ]
    ]
  where
    total : ℕ
    total = s.offset + length bytes

    after : PartialDir
    after = record {
      part = some (part_bytes dir.part ++ bytes);
      metadata = some (readable (metadata_of d total now));
    }

    disk' : Disk
    disk' = put_dir s.source_id s.resource_id (some after) between

    here' : disk' d.source_id d.resource_id ≡ some after
    here' = rw (src, res) (put_dir_here d.source_id d.resource_id (some after) between)

    appended :
        total ≤ d.archive_bytes
        → Appended d now bytes s disk total (record s { offset = total }) disk'
    appended fits = record {
      total_is = refl;
      offset_is = refl;
      in_sync = record {
        source = src;
        resource = res;
        dir = after;
        there = here';
        holds = record {
          held = omega (arith, length-append (part_bytes dir.part) bytes);
          noted = metadata_of d total now;
          written = refl;
          matching = metadata_of_matches d total now;
          counted = refl;
          bounded = fits;
        };
      };
      part_is = rw (here', here) refl;
      noted_now = rw here' refl;
    }

-- From a directory in sync, `append_chunk` fails only if the offset would pass a u64 or the archive's
-- size; otherwise the bytes are added to the end of the part, the new offset is returned and noted with
-- the time, and the directory is in sync again.
pub append_chunk-Outcome :
    (now : ℕ) (d : TransferDescriptor) (bytes : Bytes) (s : ResumeState) (disk : Disk)
    → InSync d s disk
    → AppendOutcome d now bytes s disk (append_chunk now s d bytes disk)
unfolding append_chunk
append_chunk-Outcome now d bytes s disk v =
    let here : disk s.source_id s.resource_id ≡ some v.dir =
      ap (λ k. disk k s.resource_id) v.source ∙ ap (disk d.source_id) v.resource ∙ v.there in
    rw (here, append_chunk)
      (finish_append-Outcome now d bytes v.dir s disk _ v.source v.resource v.there v.holds.held)
