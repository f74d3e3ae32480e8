-- ===== src/Core/Manifest.antt =====
-- crates/peerline-core/src/manifest.rs: manifests and transfer descriptors. Identifiers and hashes are
-- byte strings, and a path is its text.
use peerline.Base.{ℕ, ◌+◌, ◌^◌, ◌%◌, Bool, true, false, List, [], ◌∷◌, Option, none, some, retain}
use peerline.Base.Text.{Text, Bytes}

pub data Compression : Type 0 where
  auto uncompressed zstd lzma : Compression

pub data EntryKind : Type 0 where
  file directory : EntryKind

pub record ManifestEntry : Type 0 where
  pub path : Text
  pub kind : EntryKind
  pub size : ℕ
  pub blake3 : Option Bytes

pub record Manifest : Type 0 where
  pub id : Bytes
  pub compression : Compression
  pub entries : List ManifestEntry
  pub total_bytes : ℕ

pub record TransferDescriptor : Type 0 where
  pub source_id : Bytes
  pub resource_id : Bytes
  pub archive_bytes : ℕ
  pub logical_bytes : ℕ
  pub files : ℕ
  pub compression : Compression

abbrev pub is_file : EntryKind → Bool
is_file file = true
is_file directory = false

abbrev pub u64_mod : ℕ
u64_mod = 2 ^ 64

-- `Iterator::sum` of u64, which wraps.
unfoldable pub sum_sizes : List ManifestEntry → ℕ
sum_sizes [] = 0
sum_sizes (e ∷ es) = (e.size + sum_sizes es) % u64_mod

unfoldable pub with_id : Bytes → Compression → List ManifestEntry → Manifest
unfolding sum_sizes
with_id id compression entries = record {
  id = id;
  compression = compression;
  entries = entries;
  total_bytes = sum_sizes (retain (λ e. is_file e.kind) entries);
}

unfoldable pub file_entry : Text → ℕ → Bytes → ManifestEntry
file_entry path size blake3 = record { path = path; kind = file; size = size; blake3 = some blake3 }

unfoldable pub directory_entry : Text → ManifestEntry
directory_entry path = record { path = path; kind = directory; size = 0; blake3 = none }
