-- ===== src/Transfer/Unpack/Ends.antt =====
-- archive.rs: the turns of the loop of `unpack_raw_archive`.
use peerline.Base.{
  ℕ, zero, suc, ◌≤◌, ◌<◌, ◌≡◌, ◌≢◌, ap, refl, Bool, true, false, List, [], ◌∷◌, Option, none, some,
  Result, ok, err, arith, ensure, ok_or, ◌>>=◌ as ◌>>=ᵣ◌, length, drop, length-drop, take,
}
use peerline.Base.Text.{Text, Bytes}
use peerline.Core.Manifest.{EntryKind, file, directory, ManifestEntry}
use peerline.Transfer.Archive.{
  ArchiveFrame, manifest_frame, directory_frame, file_start, file_chunk, file_end, ArchiveError,
  out_of_fuel, unexpected_metadata, blocked_path, nested_file, metadata_mismatch,
  chunk_without_file, file_too_large, end_without_file, size_mismatch, hash_mismatch, no_free_name,
  consumed_entry, inside_file, missing_entries, Tree, Unpacking, expected_manifest_entry,
  take_expected_manifest_entry, expected_manifest_entries, check_entry, validate_manifest_entries,
}
use peerline.Transfer.Frames.{be_value, payload_frame, read_frame, first_manifest, open_archive}
use peerline.Transfer.Run.{Failure, leaving, ◌>>=◌}
use peerline.Transfer.Unpack.{
  safe_join_relative, unpack_directory, unpack_start, unpack_chunk, unpack_end, unpack_frame,
  unpack_next, unpack_frames, unpack_raw_archive,
}

abbrev is_stuck : ArchiveError → Bool
is_stuck e = elim e [ out_of_fuel ↦ true | _ ↦ false ]

abbrev gets_stuck {ℓ} : {A : Type ℓ} → Result ArchiveError A → Bool
gets_stuck (ok a) = false
gets_stuck (err e) = is_stuck e

abbrev run_stuck {ℓ} : {A : Type ℓ} → Result Failure A → Bool
run_stuck (ok a) = false
run_stuck (err (e, tree)) = is_stuck e

-- The run ends otherwise than by `out_of_fuel`.
record Ends {ℓ} {A : Type ℓ} (r : Result Failure A) : Type 0 where
  otherwise : run_stuck r ≡ false

leaving-Ends {ℓ κ} :
    {A : Type ℓ} {B : Type κ} (now : Tree) {m : Result ArchiveError A} {next : A → Result Failure B}
    → gets_stuck m ≡ false
    → ((a : A) → m ≡ ok a → Ends (next a))
    → Ends (leaving now m >>= next)
unfolding leaving ◌>>=◌
leaving-Ends now {m = ok a} h k = k a refl
leaving-Ends now {m = err e} h k = record { otherwise = h }

run-Ends {ℓ κ} :
    {A : Type ℓ} {B : Type κ} {m : Result Failure A} {next : A → Result Failure B}
    → Ends m
    → ((a : A) → Ends (next a))
    → Ends (m >>= next)
unfolding ◌>>=◌
run-Ends {m = ok a} h k = k a
run-Ends {m = err e} h k = record { otherwise = h.otherwise }

ended {ℓ} : {A : Type ℓ} {a : A} → Ends (ok a)
ended = record { otherwise = refl }

ensure_fine : (b : Bool) (e : ArchiveError) → is_stuck e ≡ false → gets_stuck (ensure b e) ≡ false
ensure_fine true e h = refl
ensure_fine false e h = h

ok_or_fine {ℓ} :
    {A : Type ℓ} (o : Option A) (e : ArchiveError)
    → is_stuck e ≡ false
    → gets_stuck (ok_or o e) ≡ false
ok_or_fine none e h = h
ok_or_fine (some a) e h = refl

-- The same for the bind of results, whose parts are named.
bind_fine {ℓ κ} :
    {A : Type ℓ} {B : Type κ} (m : Result ArchiveError A) (f : A → Result ArchiveError B)
    → gets_stuck m ≡ false
    → ((a : A) → gets_stuck (f a) ≡ false)
    → gets_stuck (m >>=ᵣ f) ≡ false
bind_fine (ok a) f h k = k a
bind_fine (err e) f h k = h

safe_join_fine : (path : Text) → gets_stuck (safe_join_relative path) ≡ false
unfolding safe_join_relative
safe_join_fine path = ground arith

expected_fine :
    (es : List ManifestEntry) (path : Text) (kind : EntryKind)
    → gets_stuck (expected_manifest_entry es path kind) ≡ false
unfolding expected_manifest_entry
expected_fine es path kind = ground arith

take_fine :
    (es : List ManifestEntry) (path : Text) (kind : EntryKind)
    → gets_stuck (take_expected_manifest_entry es path kind) ≡ false
unfolding take_expected_manifest_entry
take_fine es path kind = ground (arith, expected_fine es path kind)

check_fine : (e : ManifestEntry) → gets_stuck (check_entry e) ≡ false
unfolding check_entry
check_fine e = ground arith

validate_fine : (es : List ManifestEntry) → gets_stuck (validate_manifest_entries es) ≡ false
unfolding validate_manifest_entries
validate_fine [] = refl
validate_fine (e ∷ es) = ground (arith, check_fine e, validate_fine es)

entries_fine :
    (seen es : List ManifestEntry) → gets_stuck (expected_manifest_entries seen es) ≡ false
unfolding expected_manifest_entries
entries_fine seen [] = refl
entries_fine seen (e ∷ es) = ground (arith, entries_fine (e ∷ seen) es)

read_fine :
    (decode : Bytes → Option ArchiveFrame) (bytes : Bytes)
    → gets_stuck (read_frame decode bytes) ≡ false
unfolding read_frame
read_fine decode bytes = ground arith

first_fine :
    (decode : Bytes → Option ArchiveFrame) (o : Option (ArchiveFrame × Bytes))
    → gets_stuck (first_manifest decode o) ≡ false
first_fine decode o = ground arith

open_fine :
    (decode : Bytes → Option ArchiveFrame) (bytes : Bytes)
    → gets_stuck (open_archive decode bytes) ≡ false
unfolding open_archive
open_fine decode bytes = bind_fine (read_frame decode bytes) _ (read_fine decode bytes) λ first.
    bind_fine (first_manifest decode first) _ (first_fine decode first) λ opened.
      bind_fine (validate_manifest_entries opened.0.entries) _ (validate_fine opened.0.entries)
        λ valid.
          bind_fine (expected_manifest_entries [] opened.0.entries) _
            (entries_fine [] opened.0.entries) λ entries. refl

frame-Ends :
    (hash : Bytes → Bytes) (overwrite : Bool) (frame : ArchiveFrame) (u : Unpacking)
    → Ends (unpack_frame hash overwrite frame u)
unfolding unpack_frame unpack_directory unpack_start unpack_chunk unpack_end
frame-Ends hash overwrite (manifest_frame manifest) u = record { otherwise = refl }
frame-Ends hash overwrite (directory_frame path) u =
    leaving-Ends u.tree (take_fine u.remaining_entries path directory) λ taken e.
      leaving-Ends u.tree (ensure_fine _ unexpected_metadata refl) λ checked e.
        leaving-Ends u.tree (safe_join_fine path)
          λ target e. leaving-Ends u.tree (ok_or_fine _ blocked_path refl) λ tree e. ended
frame-Ends hash overwrite (file_start path size blake3) u =
    leaving-Ends u.tree (ensure_fine _ nested_file refl) λ idle e.
      leaving-Ends u.tree (expected_fine u.remaining_entries path file)
        λ entry e. leaving-Ends u.tree (ensure_fine _ metadata_mismatch refl) λ same e. ended
frame-Ends hash overwrite (file_chunk bytes) u =
    leaving-Ends u.tree (ok_or_fine _ chunk_without_file refl)
      λ active e. leaving-Ends u.tree (ensure_fine _ file_too_large refl) λ fits e. ended
frame-Ends hash overwrite file_end u =
    leaving-Ends u.tree (ok_or_fine _ end_without_file refl) λ active e.
      leaving-Ends u.tree (ensure_fine _ size_mismatch refl) λ size e.
        leaving-Ends u.tree (ensure_fine _ hash_mismatch refl) λ same e.
          leaving-Ends u.tree (safe_join_fine active.relative) λ path e.
            leaving-Ends u.tree (ok_or_fine _ no_free_name refl) λ target e.
              leaving-Ends u.tree (ok_or_fine _ blocked_path refl) λ parents e.
                leaving-Ends parents (ok_or_fine _ blocked_path refl)
                  λ tree e. leaving-Ends tree (ok_or_fine _ consumed_entry refl) λ entry e. ended

module _ (decode : Bytes → Option ArchiveFrame) where
  -- What is left after a frame is shorter.
  payload_shorter :
      (len : ℕ) (bytes : Bytes) {frame : ArchiveFrame} {rest : Bytes}
      → payload_frame decode len bytes ≡ ok (some (frame, rest))
      → length rest ≤ length bytes
  payload_shorter len bytes h = ground (arith, length-drop len bytes)

  read_shorter :
      (bytes : Bytes) {frame : ArchiveFrame} {rest : Bytes}
      → read_frame decode bytes ≡ ok (some (frame, rest))
      → length rest < length bytes
  unfolding read_frame
  read_shorter bytes {frame = frame} {rest = rest} h = ground (
    arith,
    payload_shorter (be_value 0 (take 4 bytes)) (drop 4 bytes) {frame = frame} {rest = rest},
    length-drop 4 bytes,
  )

  module _ (hash : Bytes → Bytes) (overwrite : Bool) where
    next-Ends :
        (loop : Bytes → Unpacking → Result Failure Unpacking) (u : Unpacking) (bytes : Bytes)
        → ((rest : Bytes) (v : Unpacking) → length rest < length bytes → Ends (loop rest v))
        → (next : Option (ArchiveFrame × Bytes)) → read_frame decode bytes ≡ ok next
        → Ends (unpack_next decode hash overwrite loop u next)
    next-Ends loop u bytes ih none h = ended
    next-Ends loop u bytes ih (some (frame, rest)) h =
        run-Ends (frame-Ends hash overwrite frame u) λ v. ih rest v (read_shorter bytes h)

    frames-Ends :
        (fuel : ℕ) (bytes : Bytes) (u : Unpacking)
        → length bytes < fuel
        → Ends (unpack_frames decode hash overwrite fuel bytes u)
    unfolding unpack_frames
    frames-Ends zero bytes u h = absurd (omega arith)
    frames-Ends (suc fuel) bytes u h = leaving-Ends u.tree (read_fine decode bytes) λ next e.
        next-Ends (unpack_frames decode hash overwrite fuel) u bytes
          (λ rest v less. frames-Ends fuel rest v (omega arith)) next e

    archive-Ends :
        (bytes : Bytes) (tree : Tree) → Ends (unpack_raw_archive decode hash overwrite bytes tree)
    unfolding unpack_raw_archive
    archive-Ends bytes tree = leaving-Ends tree (open_fine decode bytes) λ opened e.
        run-Ends
          (frames-Ends (suc (length opened.1)) opened.1
            (record { tree = tree; remaining_entries = opened.2; current_file = none })
            (omega arith))
          λ u.
            leaving-Ends u.tree (ensure_fine _ inside_file refl)
              λ idle e. leaving-Ends u.tree (ensure_fine _ missing_entries refl) λ consumed e. ended

-- The turns that `unpack_raw_archive` gives its loop are enough: whatever the bytes, its result is not
-- the error that stands for a loop cut short.
pub unpack_raw_archive-terminates :
    (decode : Bytes → Option ArchiveFrame) (hash : Bytes → Bytes) (overwrite : Bool) (bytes : Bytes)
    (tree left : Tree)
    → unpack_raw_archive decode hash overwrite bytes tree ≢ err (out_of_fuel, left)
unpack_raw_archive-terminates decode hash overwrite bytes tree left same =
    let ends = archive-Ends decode hash overwrite bytes tree in
    cc (ap run_stuck same, ends.otherwise)
