-- ===== src/Resume.antt =====
-- crates/peerline-net/src/resume.rs: partial archives on disk. The resume directory is a map from a
-- source and a resource to the directory of that partial archive, which holds `archive.part` and
-- `metadata.json`; a directory that is left empty is pruned. Calls of the file system succeed on what
-- is there; the metadata file is renamed into place, so it is read whole or not at all.
pub mod Sync
pub mod Restart
pub mod Transfer
mod Tests
use peerline.Base.{
  ℕ, ◌+◌, ◌-◌, ◌*◌, ◌<◌, ◌≡◌, Bool, true, false, not, ◌&&◌, ◌||◌, List, [], ◌++◌, Option, none,
  some, Result, ok, err, ltb, leb, ◌==◌, if◌then◌else◌, length, text_eq,
}
use peerline.Base.Text.{Bytes}
use peerline.Core.Manifest.{TransferDescriptor, u64_mod}

-- PARTIAL_RETENTION, in seconds.
abbrev pub partial_retention : ℕ
partial_retention = 24 * 60 * 60

pub record PartialMetadata : Type 0 where
  pub source_id : Bytes
  pub resource_id : Bytes
  pub archive_bytes : ℕ
  pub logical_bytes : ℕ
  pub files : ℕ
  pub received_bytes : ℕ
  pub updated_at_unix : ℕ

-- What `read_metadata` makes of the file's bytes.
pub data MetadataFile : Type 0 where
  readable : PartialMetadata → MetadataFile
  unreadable : MetadataFile

pub record PartialDir : Type 0 where
  pub part : Option Bytes
  pub metadata : Option MetadataFile

abbrev pub Disk : Type 0
Disk = Bytes → Bytes → Option PartialDir

-- The paths of a `ResumeState` are those of its source and resource.
pub record ResumeState : Type 0 where
  pub source_id : Bytes
  pub resource_id : Bytes
  pub offset : ℕ

pub data ResumeError : Type 0 where
  missing_part offset_overflow too_many_bytes size_mismatch hash_mismatch : ResumeError

unfoldable pub put_dir : Bytes → Bytes → Option PartialDir → Disk → Disk
put_dir source resource dir disk s r =
    if text_eq s source && text_eq r resource then dir else disk s r

unfoldable pub is_stale : ℕ → PartialDir → Bool
is_stale now dir = elim dir.metadata [
  | some (readable m) ↦ ltb m.updated_at_unix (now - partial_retention)
  | some unreadable ↦ true
  | none ↦ true
]

unfoldable pub cleanup_expired : ℕ → Disk → Disk
unfolding is_stale
cleanup_expired now disk s r = elim (disk s r) [
  | none ↦ none
  | some dir ↦ if is_stale now dir then none else some dir
]

unfoldable pub metadata_matches : PartialMetadata → TransferDescriptor → Bool
metadata_matches m d =
    text_eq m.source_id d.source_id
    && text_eq m.resource_id d.resource_id
    && m.archive_bytes == d.archive_bytes
    && m.logical_bytes == d.logical_bytes
    && m.files == d.files

abbrev pub metadata_of : TransferDescriptor → ℕ → ℕ → PartialMetadata
metadata_of d received now = record {
  source_id = d.source_id;
  resource_id = d.resource_id;
  archive_bytes = d.archive_bytes;
  logical_bytes = d.logical_bytes;
  files = d.files;
  received_bytes = received;
  updated_at_unix = now;
}

abbrev pub empty_dir : PartialDir
empty_dir = record { part = none; metadata = none }

-- `create_dir_all`.
abbrev pub dir_or_empty : Option PartialDir → PartialDir
dir_or_empty none = empty_dir
dir_or_empty (some dir) = dir

-- The offset that the files of a directory allow, and what is left of them: mismatched, damaged or
-- half-written pairs are removed.
check_partial : TransferDescriptor → Option Bytes → Option MetadataFile → ℕ × PartialDir
check_partial d (some part) (some (readable m)) =
    if metadata_matches m d
      && (leb (length part) d.archive_bytes && length part == m.received_bytes)
    then (length part, record { part = some part; metadata = some (readable m) })
    else (0, empty_dir)
check_partial d (some part) (some unreadable) = (0, empty_dir)
check_partial d (some part) none = (0, empty_dir)
check_partial d none (some m) = (0, empty_dir)
check_partial d none none = (0, empty_dir)

-- The metadata is written anew where the transfer starts from the beginning.
abbrev renewed : TransferDescriptor → ℕ → ℕ × PartialDir → PartialDir
renewed d now (offset, dir) =
    if offset == 0 then record dir { metadata = some (readable (metadata_of d 0 now)) } else dir

unfoldable pub resume_state : ℕ → TransferDescriptor → Disk → ResumeState × Disk
unfolding check_partial
resume_state now d disk =
    let cleaned = cleanup_expired now disk in
    let dir = dir_or_empty (cleaned d.source_id d.resource_id) in
    let checked = check_partial d dir.part dir.metadata in
    (
      record { source_id = d.source_id; resource_id = d.resource_id; offset = checked.0 },
      put_dir d.source_id d.resource_id (some (renewed d now checked)) cleaned,
    )

abbrev pub part_bytes : Option Bytes → Bytes
part_bytes none = []
part_bytes (some part) = part

-- The first half of `append_chunk`: the bytes go to the end of the part, which is created if need be.
unfoldable pub write_part : PartialDir → Bytes → PartialDir
write_part dir bytes = record dir { part = some (part_bytes dir.part ++ bytes) }

-- The rest of `append_chunk`, with the part written.
finish_append :
    ℕ
    → ResumeState
    → TransferDescriptor
    → ℕ
    → PartialDir
    → Disk
    → Result ResumeError ℕ × ResumeState × Disk
finish_append now state d added dir disk =
    if leb u64_mod (state.offset + added)
    then (err offset_overflow, state, disk)
    else if ltb d.archive_bytes (state.offset + added)
    then (err too_many_bytes, record state { offset = state.offset + added }, disk)
    else (
      ok (state.offset + added),
      record state { offset = state.offset + added },
      put_dir state.source_id state.resource_id
          (some
            (record dir { metadata = some (readable (metadata_of d (state.offset + added) now)) }))
          disk,
    )

unfoldable pub append_chunk :
    ℕ → ResumeState → TransferDescriptor → Bytes → Disk → Result ResumeError ℕ × ResumeState × Disk
unfolding finish_append write_part
append_chunk now state d bytes disk = elim (disk state.source_id state.resource_id) [
  | none ↦ (err missing_part, state, disk)
  | some dir ↦
      let written = write_part dir bytes in
      finish_append now state d (length bytes) written
        (put_dir state.source_id state.resource_id (some written) disk)
]

unfoldable pub remove_partial : ResumeState → Disk → Disk
remove_partial state disk = put_dir state.source_id state.resource_id none disk

abbrev pub stored_part : ResumeState → Disk → Option Bytes
stored_part state disk = (dir_or_empty (disk state.source_id state.resource_id)).part

-- `hash` is `blake3` over the file, as `resource_id_for_reader` computes it.
unfoldable pub complete_partial :
    (Bytes → Bytes) → ResumeState → TransferDescriptor → Disk → Result ResumeError Bytes × Disk
unfolding remove_partial
complete_partial hash state d disk = elim (stored_part state disk) [
  | none ↦ (err missing_part, disk)
  | some part ↦
      if not (length part == d.archive_bytes)
      then (err size_mismatch, remove_partial state disk)
      else if not (text_eq (hash part) d.resource_id)
      then (err hash_mismatch, remove_partial state disk)
      else (ok part, disk)
]
