-- ===== src/Resume/Transfer.antt =====
-- resume.rs: the appends of a whole transfer, and its completion.
use peerline.Base.{
  ℕ, ◌+◌, ◌≤◌, ◌<◌, ◌≡◌, refl, sym, ap, ◌∙◌, List, [], ◌∷◌, ◌++◌, append_assoc, append-nil, Option,
  none, some, Result, ok, err, arith, ◌==◌, length, length-append, flatten, text_eq, text_eq_refl,
  text_eq_sound, text_eq-false, ◌≢◌, Option-cases, Bool-cases, inl, inr,
}
use peerline.Base.Text.{Bytes}
use peerline.Core.Manifest.{TransferDescriptor, u64_mod}
use peerline.Resume.{
  Disk, ResumeState, ResumeError, missing_part, offset_overflow, too_many_bytes, size_mismatch,
  hash_mismatch, dir_or_empty, part_bytes, append_chunk, stored_part, complete_partial,
}
use peerline.Resume.Sync.{InSync, AppendResult, AppendOutcome, append_chunk-Outcome, put_dir_here}

abbrev pub CompleteResult : Type 0
CompleteResult = Result ResumeError Bytes × Disk

-- A part that does not have the archive's size or its hash, which is then removed.
abbrev Removed : ResumeState → Disk → Disk → Bytes → Type 0
Removed s disk disk' part =
    (stored_part s disk ≡ some part) × (disk' s.source_id s.resource_id ≡ none)

abbrev pub CompleteOutcome :
    (Bytes → Bytes) → ResumeState → TransferDescriptor → Disk → CompleteResult → Type 0
CompleteOutcome hash s d disk (ok part, disk') =
    (stored_part s disk ≡ some part)
    × (length part ≡ d.archive_bytes)
    × (hash part ≡ d.resource_id)
    × (disk' ≡ disk)
CompleteOutcome hash s d disk (err missing_part, disk') =
    (stored_part s disk ≡ none) × (disk' ≡ disk)
CompleteOutcome hash s d disk (err size_mismatch, disk') =
    (part : Bytes) × Removed s disk disk' part × (length part ≢ d.archive_bytes)
CompleteOutcome hash s d disk (err hash_mismatch, disk') =
    (part : Bytes) × Removed s disk disk' part × (hash part ≢ d.resource_id)
CompleteOutcome hash s d disk (err offset_overflow, disk') = ⊥
CompleteOutcome hash s d disk (err too_many_bytes, disk') = ⊥

-- `complete_partial` gives the part exactly as stored, with the archive's size and hash and nothing
-- changed; or there is no part and nothing changes; or the size or the hash is wrong, and the directory
-- of the partial archive is removed.
pub complete_partial-Outcome :
    (hash : Bytes → Bytes) (s : ResumeState) (d : TransferDescriptor) (disk : Disk)
    → CompleteOutcome hash s d disk (complete_partial hash s d disk)
unfolding complete_partial
complete_partial-Outcome hash s d disk = elim (Option-cases (stored_part s disk)) [
  | inl e ↦ rw (e, complete_partial) (e, refl)
  | inr (part, e) ↦ elim (Bool-cases (length part == d.archive_bytes)) [
    | inr size ↦
        rw (e, complete_partial)
          (rw size (part, (e, put_dir_here _ _ none disk), ground (arith, size)))
    | inl fits ↦ elim (Bool-cases (text_eq (hash part) d.resource_id)) [
      | inr differs ↦
          rw (e, complete_partial)
            (rw (fits, differs)
              (
                part,
                (e, put_dir_here _ _ none disk),
                text_eq-false (hash part) d.resource_id differs,
              ))
      | inl same ↦
          rw (e, complete_partial)
            (rw (fits, same)
              (e, ground (arith, fits), text_eq_sound (hash part) d.resource_id same, refl))
    ]
  ]
]

-- The chunks of a session, one after another, up to the first error.
unfoldable pub append_all : ℕ → TransferDescriptor → List Bytes → ResumeState → Disk → AppendResult
append_all now d [] s disk = (ok s.offset, s, disk)
append_all now d (c ∷ cs) s disk =
    let step = append_chunk now s d c disk in
    elim step.0 [ ok total ↦ append_all now d cs step.1 step.2 | err e ↦ step ]

abbrev pub part_of : TransferDescriptor → Disk → Bytes
part_of d disk = part_bytes (dir_or_empty (disk d.source_id d.resource_id)).part

-- Everything arrived: in order, after what was there.
abbrev AllArrived : TransferDescriptor → Bytes → AppendResult → Type 0
AllArrived d content (ok total, s', disk') = InSync d s' disk' × (part_of d disk' ≡ content)
AllArrived d content (err e, s', disk') = ⊥

append_all-AllArrived :
    (now : ℕ) (d : TransferDescriptor) (cs : List Bytes) (s : ResumeState) (disk : Disk)
    → InSync d s disk
    → d.archive_bytes < u64_mod
    → s.offset + length (flatten cs) ≤ d.archive_bytes
    → AllArrived d (part_of d disk ++ flatten cs) (append_all now d cs s disk)
unfolding append_all
append_all-AllArrived now d [] s disk v small fits = (v, sym (append-nil _))
append_all-AllArrived now d (c ∷ cs) s disk v small fits =
    go (append_chunk now s d c disk) (append_chunk-Outcome now d c s disk v)
      (λ s' disk' v' fits'. append_all-AllArrived now d cs s' disk' v' small fits')
  where
    lengths : length (c ++ flatten cs) ≡ length c + length (flatten cs)
    lengths = length-append c (flatten cs)

    go :
        (r : AppendResult)
        → AppendOutcome d now c s disk r
        → ((s' : ResumeState) (disk' : Disk)
            → InSync d s' disk'
            → s'.offset + length (flatten cs) ≤ d.archive_bytes
            → AllArrived d (part_of d disk' ++ flatten cs) (append_all now d cs s' disk'))
        → AllArrived d
            (part_of d disk ++ (c ++ flatten cs))
            (elim r.0 [ ok total ↦ append_all now d cs r.1 r.2 | err e ↦ r ])
    go (ok total, s', disk') (within, o) rest =
        rw (← append_assoc (part_of d disk) c (flatten cs), ← o.part_is)
          (rest s' disk' o.in_sync (omega (arith, o.offset_is, o.total_is, lengths)))
    go (err offset_overflow, s', disk') o rest = omega (arith, lengths)
    go (err too_many_bytes, s', disk') o rest = omega (arith, lengths)
    go (err missing_part, s', disk') o rest = o
    go (err size_mismatch, s', disk') o rest = o
    go (err hash_mismatch, s', disk') o rest = o

-- What a session ends with: the result of `complete_partial` after all chunks.
abbrev pub completed :
    (Bytes → Bytes) → TransferDescriptor → AppendResult → Result ResumeError Bytes
completed hash d (ok total, s, disk) = (complete_partial hash s d disk).0
completed hash d (err e, s, disk) = err e

length-part_of :
    (d : TransferDescriptor) (s : ResumeState) (disk : Disk)
    → InSync d s disk
    → length (part_of d disk) ≡ s.offset
length-part_of d s disk v = rw v.there v.holds.held

some_part :
    (o : Option Bytes) (archive : Bytes)
    → part_bytes o ≡ archive
    → 0 < length archive
    → o ≡ some archive
some_part none archive e h = absurd (omega (arith, ap length e))
some_part (some part) archive e h = ap some e

completed_archive :
    (hash : Bytes → Bytes) (d : TransferDescriptor) (archive : Bytes) (r : AppendResult)
    → AllArrived d archive r
    → length archive ≡ d.archive_bytes
    → 0 < d.archive_bytes
    → hash archive ≡ d.resource_id
    → completed hash d r ≡ ok archive
unfolding complete_partial
completed_archive hash d archive (err e, s, disk) a size positive same = absurd a
completed_archive hash d archive (ok total, s, disk) a size positive same =
    let v = a.0 in
    let here : stored_part s disk ≡ some archive =
      ap (λ k. (dir_or_empty (disk k s.resource_id)).part) v.source
      ∙ ap (λ k. (dir_or_empty (disk d.source_id k)).part) v.resource
      ∙ some_part _ archive a.1 (omega (arith, size)) in
    rw (here, completed, complete_partial)
      (ground (arith, size, ap (λ h. text_eq h d.resource_id) same, text_eq_refl d.resource_id))

-- If a directory in sync holds a beginning of a non-empty archive and the chunks that are appended are
-- the rest of it, then all appends succeed and `complete_partial` gives the archive, provided that the
-- descriptor has its size, below 2^64, and its hash.
pub resumed_transfer :
    (hash : Bytes → Bytes) (now : ℕ) (d : TransferDescriptor) (archive : Bytes) (cs : List Bytes)
    (s : ResumeState) (disk : Disk)
    → InSync d s disk
    → part_of d disk ++ flatten cs ≡ archive
    → length archive ≡ d.archive_bytes
    → 0 < d.archive_bytes
    → d.archive_bytes < u64_mod
    → hash archive ≡ d.resource_id
    → completed hash d (append_all now d cs s disk) ≡ ok archive
resumed_transfer hash now d archive cs s disk v whole size positive small same =
    completed_archive hash d archive (append_all now d cs s disk)
      (rw whole at (
        append_all-AllArrived now d cs s disk v small (
          omega (
            arith,
            ap length whole,
            length-append (part_of d disk) (flatten cs),
            length-part_of d s disk v,
            size,
          ))))
      size positive same
