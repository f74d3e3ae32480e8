-- ===== src/Transfer/Tests.antt =====
-- An archive of one file, unpacked beside a file of the same name.
use peerline.Base.{
  ok, arith, suc, length, any, text_eq, filter_map, find_first, retain, ℕ, false, if◌then◌else◌,
  ◌==◌, ◌≡◌, ◌≢◌, err, refl, [], ◌∷◌, ◌++◌, Option, none, some,
}
use peerline.Base.Int.{decimal}
use peerline.Base.Text.{Text, Bytes, codes, split, first_part, last_part}
use peerline.Core.Path.{
  validate_relative_path, non_overwriting_path, candidate, check_components, component_of,
  components, first_free, has_noncanonical_segments, is_noncanonical, parent, relative_components,
  stem_extension,
}
use peerline.Core.Manifest.{uncompressed, Manifest, file_entry}
use peerline.Transfer.Archive.{
  ArchiveFrame, manifest_frame, directory_frame, file_start, file_chunk, file_end, Tree, content,
  out_of_fuel, node_at, exists, validate_manifest_entries, expected_manifest_entries,
  expected_manifest_entry, path_eq, check_entry, create_dir_all, get_entry, make_folder,
  make_folders, persist, remove_entry, take_expected_manifest_entry,
}
use peerline.Transfer.Frames.{write_frame, open_archive, read_frame}
use peerline.Transfer.Frames.Wire.{read_frame-write_frame}
use peerline.Transfer.Names.{non_overwriting_path-found}
use peerline.Transfer.Run.{◌>>=◌, leaving}
use peerline.Transfer.Unpack.{
  unpack_raw_archive, final_path, safe_join_relative, unpack_chunk, unpack_end, unpack_frame,
  unpack_frames, unpack_start,
}
use peerline.Transfer.Unpack.Ends.{unpack_raw_archive-terminates}
use peerline.Transfer.Unpack.Keeps.{Keeps, tree_after, unpack_raw_archive-Keeps}

abbrev manifest : Manifest
manifest = record {
  id = [];
  compression = uncompressed;
  entries = file_entry (codes "a") 2 (codes "hi") ∷ [];
  total_bytes = 2;
}

-- A decoder of payloads of one byte.
abbrev decode_byte : Bytes → Option ArchiveFrame
decode_byte [] = none
decode_byte (b ∷ bs) =
    if b == 0
    then some (manifest_frame manifest)
    else if b == 1
    then some (file_start (codes "a") 2 (codes "hi"))
    else if b == 2
    then some (file_chunk (codes "hi"))
    else some file_end

abbrev framed : ℕ → Bytes
framed b = 0 ∷ 0 ∷ 0 ∷ 1 ∷ b ∷ []

abbrev archive : Bytes
archive = framed 0 ++ framed 1 ++ framed 2 ++ framed 3

abbrev occupied : Tree
occupied = (codes "a", content (codes "old")) ∷ []

unpack_raw_archive-Keeps_example :
    Keeps occupied (λ r. r.1) (unpack_raw_archive decode_byte (λ b. b) false archive occupied)
unpack_raw_archive-Keeps_example = unpack_raw_archive-Keeps decode_byte (λ b. b) archive occupied

unpack_raw_archive-terminates_example :
    unpack_raw_archive decode_byte (λ b. b) false archive occupied ≢ err (out_of_fuel, occupied)
unpack_raw_archive-terminates_example =
    unpack_raw_archive-terminates decode_byte (λ b. b) false archive occupied occupied

non_overwriting_path-found_example :
    (p : Text) × (non_overwriting_path (exists occupied) (suc (length occupied)) (codes "a")
      ≡ some p)
    × (exists occupied p ≡ false)
non_overwriting_path-found_example = non_overwriting_path-found occupied (codes "a")

-- An encoder for the frames of the archive.
abbrev encode_byte : ArchiveFrame → Bytes
encode_byte (manifest_frame m) = 0 ∷ []
encode_byte (directory_frame path) = []
encode_byte (file_start path size blake3) = 1 ∷ []
encode_byte (file_chunk bytes) = 2 ∷ []
encode_byte file_end = 3 ∷ []

read_frame-write_frame_example :
    read_frame decode_byte (write_frame encode_byte (file_chunk (codes "hi")) ++ framed 3)
    ≡ ok (some (file_chunk (codes "hi"), framed 3))
read_frame-write_frame_example =
    read_frame-write_frame encode_byte decode_byte (file_chunk (codes "hi")) (framed 3)
      (omega arith) refl

unpacks_beside :
    node_at
      (codes "a (1)")
      (tree_after (λ r. r.1) (unpack_raw_archive decode_byte (λ b. b) false archive occupied))
    ≡ some (content (codes "hi"))
unfolding unpack_raw_archive node_at ◌>>=◌ leaving open_archive validate_manifest_entries
    validate_relative_path file_entry any split text_eq filter_map expected_manifest_entries
    find_first expected_manifest_entry path_eq non_overwriting_path exists decimal retain first_part
    last_part candidate check_components component_of components first_free
    has_noncanonical_segments is_noncanonical parent relative_components stem_extension check_entry
    create_dir_all get_entry make_folder make_folders persist remove_entry
    take_expected_manifest_entry read_frame final_path safe_join_relative unpack_chunk unpack_end
    unpack_frame unpack_frames unpack_start
unpacks_beside = refl
