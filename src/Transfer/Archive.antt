-- ===== src/Transfer/Archive.antt =====
-- crates/peerline-transfer/src/archive.rs: frames, and the unpacking of a raw archive. The destination
-- is a list of the paths below it, each with what is there; an entry before another of the same path
-- replaces it. Calls of the file system fail only where a file or a folder is in the way.
-- The temporary files, which lie there under names of their own until they are persisted or dropped,
-- are left out.
pub mod Trees
use peerline.Base.{
  ℕ, zero, suc, ◌+◌, ◌*◌, Bool, true, false, not, ◌||◌, List, [], ◌∷◌, ◌++◌, Option, none, some,
  Result, ok, err, ensure, ok_or, ◌>>=◌, ◌>>◌, ◌&&◌, find_first, retain, ltb, ◌==◌, if◌then◌else◌,
  length, take, drop, is_empty, any, text_eq,
}
use peerline.Base.Text.{Text, Bytes, split}
use peerline.Core.Manifest.{EntryKind, is_file, file, directory, Manifest, ManifestEntry}
use peerline.Core.Path.{
  Component, root_dir, cur_dir, parent_dir, normal, components, is_separator, join_name, parent,
  validate_relative_path, non_overwriting_path,
}

pub data ArchiveFrame : Type 0 where
  manifest_frame : Manifest → ArchiveFrame
  directory_frame : Text → ArchiveFrame
  file_start : Text → ℕ → Bytes → ArchiveFrame
  file_chunk : Bytes → ArchiveFrame
  file_end : ArchiveFrame

pub data ArchiveError : Type 0 where
  no_manifest not_a_manifest duplicate_manifest truncated_frame malformed_frame : ArchiveError
  missing_hash unexpected_metadata duplicate_entry unexpected_entry wrong_kind : ArchiveError
  unsafe_path blocked_path nested_file metadata_mismatch chunk_without_file : ArchiveError
  end_without_file file_too_large size_mismatch hash_mismatch consumed_entry : ArchiveError
  inside_file missing_entries no_free_name out_of_fuel : ArchiveError

pub data Node : Type 0 where
  folder : Node
  content : Bytes → Node

abbrev pub Tree : Type 0
Tree = List (Text × Node)

unfoldable pub node_at : Text → Tree → Option Node
node_at path [] = none
node_at path ((p, node) ∷ tree) = if text_eq p path then some node else node_at path tree

-- `Path::exists`.
unfoldable pub exists : Tree → Text → Bool
unfolding node_at
exists tree path = elim (node_at path tree) [ none ↦ false | some node ↦ true ]

abbrev pub is_content : Option Node → Bool
is_content none = false
is_content (some folder) = false
is_content (some (content bytes)) = true

-- The paths from the first segment on to the whole path.
abbrev pub prefixes : Text → List Text → List Text
prefixes base [] = []
prefixes base (s ∷ ss) = join_name base s ∷ prefixes (join_name base s) ss

unfoldable pub make_folder : Tree → Text → Tree
unfolding exists
make_folder tree path = if exists tree path then tree else (path, folder) ∷ tree

unfoldable pub make_folders : Tree → List Text → Tree
unfolding make_folder
make_folders tree [] = tree
make_folders tree (p ∷ ps) = make_folders (make_folder tree p) ps

-- `fs::create_dir_all` of a path below the destination: a file in the way is an error.
unfoldable pub create_dir_all : Text → Tree → Option Tree
unfolding make_folders
create_dir_all path tree =
    if any (λ p. is_content (node_at p tree)) (prefixes [] (split is_separator path))
    then none
    else some (make_folders tree (prefixes [] (split is_separator path)))

-- `create_dir_all` of a file's parent, which may be the destination itself.
abbrev pub create_parent : Option Text → Tree → Option Tree
create_parent none tree = some tree
create_parent (some path) tree = create_dir_all path tree

-- `NamedTempFile::persist`: the file takes the place of a file, and of no folder.
unfoldable pub persist : Text → Bytes → Tree → Option Tree
persist path bytes tree = elim (node_at path tree) [
  | some folder ↦ none
  | some (content old) ↦ some ((path, content bytes) ∷ tree)
  | none ↦ some ((path, content bytes) ∷ tree)
]

-- The hasher is the bytes that it was given.
pub record ActiveFile : Type 0 where
  pub relative : Text
  pub temp_file : Bytes
  pub expected_size : ℕ
  pub expected_hash : Bytes
  pub hasher : Bytes
  pub bytes_written : ℕ

pub record Unpacking : Type 0 where
  pub tree : Tree
  pub remaining_entries : List ManifestEntry
  pub current_file : Option ActiveFile

abbrev pub check_metadata : EntryKind → ℕ → Option Bytes → Result ArchiveError (Unit {0})
check_metadata file size none = err missing_hash
check_metadata file size (some hash) = ok tt
check_metadata directory size (some hash) = err unexpected_metadata
check_metadata directory size none = if size == 0 then ok tt else err unexpected_metadata

unfoldable pub check_entry : ManifestEntry → Result ArchiveError (Unit {0})
check_entry entry = elim (validate_relative_path entry.path) [
  | err e ↦ err unsafe_path
  | ok u ↦ check_metadata entry.kind entry.size entry.blake3
]

unfoldable pub validate_manifest_entries : List ManifestEntry → Result ArchiveError (Unit {0})
unfolding check_entry
validate_manifest_entries [] = ok tt
validate_manifest_entries (e ∷ es) = check_entry e >> validate_manifest_entries es

-- `Path` compares by components.
abbrev pub component_eq : Component → Component → Bool
component_eq root_dir root_dir = true
component_eq cur_dir cur_dir = true
component_eq parent_dir parent_dir = true
component_eq (normal s) (normal t) = text_eq s t
component_eq root_dir cur_dir = false
component_eq root_dir parent_dir = false
component_eq root_dir (normal t) = false
component_eq cur_dir root_dir = false
component_eq cur_dir parent_dir = false
component_eq cur_dir (normal t) = false
component_eq parent_dir root_dir = false
component_eq parent_dir cur_dir = false
component_eq parent_dir (normal t) = false
component_eq (normal s) root_dir = false
component_eq (normal s) cur_dir = false
component_eq (normal s) parent_dir = false

abbrev pub components_eq : List Component → List Component → Bool
components_eq [] [] = true
components_eq [] (d ∷ ds) = false
components_eq (c ∷ cs) [] = false
components_eq (c ∷ cs) (d ∷ ds) = component_eq c d && components_eq cs ds

unfoldable pub path_eq : Text → Text → Bool
path_eq p q = components_eq (components p) (components q)

-- `HashMap::get` and `HashMap::remove`, on a map that is a list with no path twice.
unfoldable pub get_entry : Text → List ManifestEntry → Option ManifestEntry
get_entry path entries = find_first (λ e. path_eq e.path path) entries

unfoldable pub remove_entry : Text → List ManifestEntry → List ManifestEntry
remove_entry path entries = retain (λ e. not (path_eq e.path path)) entries

unfoldable pub expected_manifest_entries :
    List ManifestEntry → List ManifestEntry → Result ArchiveError (List ManifestEntry)
unfolding get_entry
expected_manifest_entries seen [] = ok seen
expected_manifest_entries seen (e ∷ es) = elim (get_entry e.path seen) [
  | none ↦ expected_manifest_entries (e ∷ seen) es
  | some old ↦ err duplicate_entry
]

abbrev pub same_kind : EntryKind → EntryKind → Bool
same_kind file file = true
same_kind directory directory = true
same_kind file directory = false
same_kind directory file = false

unfoldable pub expected_manifest_entry :
    List ManifestEntry → Text → EntryKind → Result ArchiveError ManifestEntry
unfolding get_entry
expected_manifest_entry entries path kind = do
  entry ← ok_or (get_entry path entries) unexpected_entry
  ensure (same_kind entry.kind kind) wrong_kind
  ok entry

-- The entry, and the map without it.
unfoldable pub take_expected_manifest_entry :
    List ManifestEntry → Text → EntryKind → Result ArchiveError (ManifestEntry × List ManifestEntry)
unfolding expected_manifest_entry remove_entry
take_expected_manifest_entry entries path kind = do
  entry ← expected_manifest_entry entries path kind
  ok (entry, remove_entry path entries)
