-- ===== src/Transfer/Unpack.antt =====
-- crates/peerline-transfer/src/archive.rs: `unpack_raw_archive`, one function for each kind of frame.
-- An error carries the destination as it is left.
pub mod Keeps
pub mod Ends
use peerline.Base.{
  ℕ, zero, suc, ◌+◌, Bool, true, false, not, List, [], ◌∷◌, ◌++◌, Option, none, some, Result, ok,
  err, ensure, ok_or, ◌&&◌, ltb, ◌==◌, length, is_empty, text_eq,
}
use peerline.Base.Text.{Text, Bytes}
use peerline.Core.Manifest.{file, directory, Manifest}
use peerline.Core.Path.{parent, validate_relative_path, non_overwriting_path}
use peerline.Transfer.Archive.{
  ArchiveFrame, manifest_frame, directory_frame, file_start, file_chunk, file_end, ArchiveError,
  duplicate_manifest, unexpected_metadata, unsafe_path, blocked_path, nested_file,
  metadata_mismatch, chunk_without_file, end_without_file, file_too_large, size_mismatch,
  hash_mismatch, consumed_entry, inside_file, missing_entries, no_free_name, out_of_fuel, Tree,
  exists, create_dir_all, create_parent, persist, ActiveFile, Unpacking, get_entry, remove_entry,
  expected_manifest_entry, take_expected_manifest_entry,
}
use peerline.Transfer.Frames.{read_frame, open_archive}
use peerline.Transfer.Run.{Failure, leaving, ◌>>=◌, ◌>>◌}

abbrev pub is_hash : Option Bytes → Bytes → Bool
is_hash none hash = false
is_hash (some h) hash = text_eq h hash

abbrev pub is_none : Option Bytes → Bool
is_none none = true
is_none (some h) = false

-- `safe_join_relative`, below the destination.
unfoldable pub safe_join_relative : Text → Result ArchiveError Text
safe_join_relative path = elim (validate_relative_path path) [
  | ok u ↦ ok path
  | err e ↦ err unsafe_path
]

unfoldable pub unpack_directory : Text → Unpacking → Result Failure Unpacking
unfolding safe_join_relative
unpack_directory path u = do
  taken ← leaving u.tree (take_expected_manifest_entry u.remaining_entries path directory)
  leaving u.tree (ensure (taken.0.size == 0 && is_none taken.0.blake3) unexpected_metadata)
  target ← leaving u.tree (safe_join_relative path)
  tree ← leaving u.tree (ok_or (create_dir_all target u.tree) blocked_path)
  ok (record u { tree = tree; remaining_entries = taken.1 })

abbrev pub is_idle : Option ActiveFile → Bool
is_idle none = true
is_idle (some active) = false

unfoldable pub unpack_start : Text → ℕ → Bytes → Unpacking → Result Failure Unpacking
unpack_start path size blake3 u = do
  leaving u.tree (ensure (is_idle u.current_file) nested_file)
  entry ← leaving u.tree (expected_manifest_entry u.remaining_entries path file)
  leaving u.tree (ensure (entry.size == size && is_hash entry.blake3 blake3) metadata_mismatch)
  ok (record u {
    current_file = some (record {
      relative = path;
      temp_file = [];
      expected_size = size;
      expected_hash = blake3;
      hasher = [];
      bytes_written = 0;
    });
  })

abbrev pub written : Bytes → ActiveFile → ActiveFile
written bytes active = record active {
  temp_file = active.temp_file ++ bytes;
  hasher = active.hasher ++ bytes;
  bytes_written = active.bytes_written + length bytes;
}

unfoldable pub unpack_chunk : Bytes → Unpacking → Result Failure Unpacking
unpack_chunk bytes u = do
  active ← leaving u.tree (ok_or u.current_file chunk_without_file)
  leaving u.tree
      (ensure (not (ltb active.expected_size (written bytes active).bytes_written)) file_too_large)
  ok (record u { current_file = some (written bytes active) })

-- The name to take: with fewer paths than names tried, one is free.
unfoldable pub final_path : Bool → Tree → Text → Option Text
final_path true tree path = some path
final_path false tree path = non_overwriting_path (exists tree) (suc (length tree)) path

module _ (hash : Bytes → Bytes) (overwrite : Bool) where
  unfoldable pub unpack_end : Unpacking → Result Failure Unpacking
  unfolding safe_join_relative final_path
  unpack_end u = do
    active ← leaving u.tree (ok_or u.current_file end_without_file)
    leaving u.tree (ensure (active.bytes_written == active.expected_size) size_mismatch)
    leaving u.tree (ensure (text_eq (hash active.hasher) active.expected_hash) hash_mismatch)
    path ← leaving u.tree (safe_join_relative active.relative)
    target ← leaving u.tree (ok_or (final_path overwrite u.tree path) no_free_name)
    parents ← leaving u.tree (ok_or (create_parent (parent target) u.tree) blocked_path)
    tree ← leaving parents (ok_or (persist target active.temp_file parents) blocked_path)
    entry ← leaving tree (ok_or (get_entry active.relative u.remaining_entries) consumed_entry)
    ok (record {
      tree = tree;
      remaining_entries = remove_entry active.relative u.remaining_entries;
      current_file = none;
    })

  unfoldable pub unpack_frame : ArchiveFrame → Unpacking → Result Failure Unpacking
  unfolding unpack_directory unpack_start unpack_chunk unpack_end
  unpack_frame (manifest_frame manifest) u = err (duplicate_manifest, u.tree)
  unpack_frame (directory_frame path) u = unpack_directory path u
  unpack_frame (file_start path size blake3) u = unpack_start path size blake3 u
  unpack_frame (file_chunk bytes) u = unpack_chunk bytes u
  unpack_frame file_end u = unpack_end u

module _ (decode : Bytes → Option ArchiveFrame) (hash : Bytes → Bytes) (overwrite : Bool) where
  -- What the loop does with what `read_frame` gives, the rest of the loop at hand.
  abbrev pub unpack_next :
      (Bytes → Unpacking → Result Failure Unpacking)
      → Unpacking
      → Option (ArchiveFrame × Bytes)
      → Result Failure Unpacking
  unpack_next loop u none = ok u
  unpack_next loop u (some (frame, rest)) = unpack_frame hash overwrite frame u >>= loop rest

  -- The `while` loop, for `fuel` frames.
  unfoldable pub unpack_frames : ℕ → Bytes → Unpacking → Result Failure Unpacking
  unfolding unpack_frame
  unpack_frames zero bytes u = err (out_of_fuel, u.tree)
  unpack_frames (suc fuel) bytes u =
      leaving u.tree (read_frame decode bytes) >>= unpack_next (unpack_frames fuel) u

  -- A frame takes four bytes or more, so the loop has turns enough.
  unfoldable pub unpack_raw_archive : Bytes → Tree → Result Failure (Manifest × Tree)
  unfolding unpack_frames
  unpack_raw_archive bytes tree = do
    opened ← leaving tree (open_archive decode bytes)
    u ←
        unpack_frames (suc (length opened.1)) opened.1
          (record { tree = tree; remaining_entries = opened.2; current_file = none })
    leaving u.tree (ensure (is_idle u.current_file) inside_file)
    leaving u.tree (ensure (is_empty u.remaining_entries) missing_entries)
    ok (opened.0, u.tree)
