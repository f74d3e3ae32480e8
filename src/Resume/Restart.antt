-- ===== src/Resume/Restart.antt =====
-- resume.rs: what a later session takes up.
use peerline.Base.{
  ℕ, ◌+◌, ◌≤◌, ◌<◌, ◌≡◌, ◌≢◌, refl, ◌∙◌, true, [], ◌∷◌, ◌++◌, Option, none, some, arith, length,
  length-append,
}
use peerline.Base.Text.{Bytes}
use peerline.Core.Manifest.{TransferDescriptor}
use peerline.Resume.{
  PartialMetadata, readable, PartialDir, Disk, ResumeState, partial_retention, put_dir, is_stale,
  cleanup_expired, metadata_matches, empty_dir, dir_or_empty, check_partial, resume_state,
  part_bytes, write_part,
}
use peerline.Resume.Sync.{InSync, put_dir_here}

fresh_kept :
    (now : ℕ) (d : TransferDescriptor) (disk : Disk) (dir : PartialDir) (m : PartialMetadata)
    → disk d.source_id d.resource_id ≡ some dir
    → dir.metadata ≡ some (readable m)
    → now ≤ m.updated_at_unix + partial_retention
    → cleanup_expired now disk d.source_id d.resource_id ≡ some dir
unfolding cleanup_expired
fresh_kept now d disk dir m here noted fresh =
    rw (here, cleanup_expired) (rw (noted, is_stale) (ground (arith, fresh)))

-- A part whose length the metadata gives is taken up at that length.
agreeing :
    (d : TransferDescriptor) (m : PartialMetadata) (part : Option Bytes) (offset : ℕ)
    → length (part_bytes part) ≡ offset
    → metadata_matches m d ≡ true
    → m.received_bytes ≡ offset
    → offset ≤ d.archive_bytes
    → 0 < offset
    → check_partial d part (some (readable m))
      ≡ (offset, record { part = part; metadata = some (readable m) })
unfolding check_partial
agreeing d m none offset held same counted bounded positive = absurd (omega arith)
agreeing d m (some part) offset held same counted bounded positive = ground (arith, same)

-- Any other part is given up.
disagreeing :
    (d : TransferDescriptor) (m : PartialMetadata) (part : Option Bytes)
    → length (part_bytes part) ≢ m.received_bytes
    → check_partial d part (some (readable m)) ≡ (0, empty_dir)
unfolding check_partial
disagreeing d m none differs = refl
disagreeing d m (some part) differs = ground arith

-- From a directory in sync with some bytes, that was noted within the retention time, `resume_state`
-- gives the state of the session before, and leaves the directory as it is.
pub resume_state-continues :
    (now : ℕ) (d : TransferDescriptor) (s : ResumeState) (disk : Disk) (v : InSync d s disk)
    → 0 < s.offset
    → now ≤ v.holds.noted.updated_at_unix + partial_retention
    → ((resume_state now d disk).0 ≡ s)
      × ((resume_state now d disk).1 d.source_id d.resource_id ≡ disk d.source_id d.resource_id)
unfolding resume_state
resume_state-continues now d s disk v positive fresh =
    let h = v.holds in
    let kept = fresh_kept now d disk v.dir h.noted v.there h.written fresh in
    let taken =
      agreeing d h.noted v.dir.part s.offset h.held h.matching h.counted h.bounded positive in
    rw (kept, h.written, taken)
      (
        cc (v.source, v.resource),
        put_dir_here d.source_id d.resource_id _ _
            ∙ rw v.there (ground (arith, positive, h.written)),
      )

crashed_starts_over :
    (now : ℕ) (d : TransferDescriptor) (disk : Disk) (dir : PartialDir) (m : PartialMetadata)
    → disk d.source_id d.resource_id ≡ some dir
    → dir.metadata ≡ some (readable m)
    → length (part_bytes dir.part) ≢ m.received_bytes
    → now ≤ m.updated_at_unix + partial_retention
    → ((resume_state now d disk).0.offset ≡ 0)
      × ((dir_or_empty ((resume_state now d disk).1 d.source_id d.resource_id)).part ≡ none)
unfolding resume_state
crashed_starts_over now d disk dir m here noted differs fresh =
    rw (fresh_kept now d disk dir m here noted fresh, noted, disagreeing d m dir.part differs)
      (refl, rw (put_dir_here d.source_id d.resource_id (some _) _) refl)

-- If a session stops between the write of some bytes and the write of the metadata, a later
-- `resume_state` within the retention time starts from 0 and without a part.
pub resume_state_after_crash :
    (now : ℕ) (d : TransferDescriptor) (s : ResumeState) (disk : Disk) (bytes : Bytes)
    (v : InSync d s disk)
    → bytes ≢ []
    → now ≤ v.holds.noted.updated_at_unix + partial_retention
    → let disk' = put_dir d.source_id d.resource_id (some (write_part v.dir bytes)) disk in
      ((resume_state now d disk').0.offset ≡ 0)
      × ((dir_or_empty ((resume_state now d disk').1 d.source_id d.resource_id)).part ≡ none)
unfolding write_part
resume_state_after_crash now d s disk bytes v some_bytes fresh =
    crashed_starts_over now d _ (write_part v.dir bytes) v.holds.noted
      (put_dir_here d.source_id d.resource_id _ disk) v.holds.written
      (λ e. some_bytes (none_added bytes (omega (arith, grown, e, v.holds.held, v.holds.counted))))
      fresh
  where
    grown : length (part_bytes v.dir.part ++ bytes) ≡ length (part_bytes v.dir.part) + length bytes
    grown = length-append (part_bytes v.dir.part) bytes

    none_added : (bs : Bytes) → length bs ≡ 0 → bs ≡ []
    none_added [] e = refl
    none_added (b ∷ bs) e = absurd (omega arith)
