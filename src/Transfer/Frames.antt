-- ===== src/Transfer/Frames.antt =====
-- crates/peerline-transfer/src/archive.rs: `write_frame`, `read_frame`, and the start of `unpack_raw_archive`: the
-- manifest and its entries. `decode` is postcard's decoder.
pub mod Wire
use peerline.Base.{
  ℕ, ◌+◌, ◌*◌, ◌/◌, ◌%◌, ◌++◌, not, List, [], ◌∷◌, Option, none, some, Result, ok, err, ensure,
  ok_or, ◌>>=◌, ◌>>◌, ltb, if◌then◌else◌, length, take, drop,
}
use peerline.Base.Text.{Bytes}
use peerline.Core.Manifest.{Manifest, ManifestEntry}
use peerline.Transfer.Archive.{
  ArchiveFrame, manifest_frame, directory_frame, file_start, file_chunk, file_end, ArchiveError,
  no_manifest, not_a_manifest, truncated_frame, malformed_frame, validate_manifest_entries,
  expected_manifest_entries,
}

-- `u32::to_be_bytes`.
abbrev pub be_bytes : ℕ → Bytes
be_bytes n = n / 16777216 % 256 ∷ n / 65536 % 256 ∷ n / 256 % 256 ∷ n % 256 ∷ []

-- `write_frame`: `encode` is postcard's encoder; the length is cast to u32.
unfoldable pub write_frame : (ArchiveFrame → Bytes) → ArchiveFrame → Bytes
write_frame encode frame = be_bytes (length (encode frame) % 4294967296) ++ encode frame

-- `u32::from_be_bytes`.
abbrev pub be_value : ℕ → Bytes → ℕ
be_value acc [] = acc
be_value acc (b ∷ bs) = be_value (acc * 256 + b) bs

module _ (decode : Bytes → Option ArchiveFrame) where
  abbrev pub payload_frame : ℕ → Bytes → Result ArchiveError (Option (ArchiveFrame × Bytes))
  payload_frame len bytes = do
    ensure (not (ltb (length bytes) len)) truncated_frame
    frame ← ok_or (decode (take len bytes)) malformed_frame
    ok (some (frame, drop len bytes))

  -- `read_frame`: the frame and the bytes after it; where no length can be read, the stream has ended.
  unfoldable pub read_frame : Bytes → Result ArchiveError (Option (ArchiveFrame × Bytes))
  read_frame bytes =
      if ltb (length bytes) 4
      then ok none
      else payload_frame (be_value 0 (take 4 bytes)) (drop 4 bytes)

  abbrev pub first_manifest : Option (ArchiveFrame × Bytes) → Result ArchiveError (Manifest × Bytes)
  first_manifest none = err no_manifest
  first_manifest (some (manifest_frame manifest, rest)) = ok (manifest, rest)
  first_manifest (some (directory_frame path, rest)) = err not_a_manifest
  first_manifest (some (file_start path size blake3, rest)) = err not_a_manifest
  first_manifest (some (file_chunk bytes, rest)) = err not_a_manifest
  first_manifest (some (file_end, rest)) = err not_a_manifest

  -- The manifest, the bytes after it, and its entries as a map.
  unfoldable pub open_archive : Bytes → Result ArchiveError (Manifest × Bytes × List ManifestEntry)
  unfolding read_frame
  open_archive bytes = do
    first ← read_frame bytes
    opened ← first_manifest first
    validate_manifest_entries opened.0.entries
    entries ← expected_manifest_entries [] opened.0.entries
    ok (opened.0, opened.1, entries)
