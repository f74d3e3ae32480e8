-- ===== src/Transfer/Unpack/Keeps.antt =====
-- archive.rs: `unpack_raw_archive`, and what was below the destination before.
use peerline.Base.{
  ℕ, zero, suc, ◌≡◌, refl, false, Option, none, some, Result, ok, err, ok_or-eq-ok, length,
}
use peerline.Base.Text.{Text, Bytes}
use peerline.Core.Path.{parent, non_overwriting_path}
use peerline.Core.Path.Free.{non_overwriting_path-free}
use peerline.Transfer.Archive.{
  ArchiveFrame, manifest_frame, directory_frame, file_start, file_chunk, file_end, ArchiveError,
  blocked_path, no_free_name, Tree, exists, create_dir_all, create_parent, persist, Unpacking,
}
use peerline.Transfer.Archive.Trees.{
  Extends, Extends-refl, Extends-trans, create_dir_all-Extends, create_parent-Extends,
  placed-Extends,
}
use peerline.Transfer.Run.{Failure, leaving, ◌>>=◌}
use peerline.Transfer.Unpack.{
  final_path, unpack_directory, unpack_start, unpack_chunk, unpack_end, unpack_frame, unpack_next,
  unpack_frames, unpack_raw_archive,
}

-- The destination after a run, which an error carries along.
abbrev pub tree_after {ℓ} : {A : Type ℓ} → (A → Tree) → Result Failure A → Tree
tree_after of (ok a) = of a
tree_after of (err (e, tree)) = tree

-- What was there before is there after the run.
pub record Keeps {ℓ} {A : Type ℓ} (before : Tree) (of : A → Tree) (r : Result Failure A)
    : Type 0 where
  pub after : Extends before (tree_after of r)

module _ {before : Tree} where
  leaving_then {ℓ κ} :
      {A : Type ℓ} {B : Type κ} {of : B → Tree} {now : Tree} {m : Result ArchiveError A}
      {next : A → Result Failure B}
      → Extends before now
      → ((a : A) → m ≡ ok a → Keeps before of (next a))
      → Keeps before of (leaving now m >>= next)
  unfolding leaving ◌>>=◌
  leaving_then {m = ok a} h k = k a refl
  leaving_then {m = err e} h k = record { after = h }

  run_then {ℓ κ} :
      {A : Type ℓ} {B : Type κ} (of' : A → Tree) {of : B → Tree} {m : Result Failure A}
      {next : A → Result Failure B}
      → Keeps before of' m
      → ((a : A) → Extends before (of' a) → Keeps before of (next a))
      → Keeps before of (m >>= next)
  unfolding ◌>>=◌
  run_then of' {m = ok a} h k = k a h.after
  run_then of' {m = err e} h k = record { after = h.after }

  done {ℓ} : {A : Type ℓ} {of : A → Tree} {a : A} → Extends before (of a) → Keeps before of (ok a)
  done h = record { after = h }

  directory_keeps :
      (path : Text) (u : Unpacking)
      → Extends before u.tree
      → Keeps before Unpacking.tree (unpack_directory path u)
  unfolding unpack_directory
  directory_keeps path u h = leaving_then h λ taken e. leaving_then h λ checked e.
      leaving_then h λ target e. leaving_then h λ tree e. done (
        Extends-trans h (
          create_dir_all-Extends target u.tree
            (ok_or-eq-ok (create_dir_all target u.tree) blocked_path e)))

  start_keeps :
      (path : Text) (size : ℕ) (blake3 : Bytes) (u : Unpacking)
      → Extends before u.tree
      → Keeps before Unpacking.tree (unpack_start path size blake3 u)
  unfolding unpack_start
  start_keeps path size blake3 u h =
      leaving_then h λ idle e. leaving_then h λ entry e. leaving_then h λ same e. done h

  chunk_keeps :
      (bytes : Bytes) (u : Unpacking)
      → Extends before u.tree
      → Keeps before Unpacking.tree (unpack_chunk bytes u)
  unfolding unpack_chunk
  chunk_keeps bytes u h = leaving_then h λ active e. leaving_then h λ fits e. done h

  end_keeps :
      (hash : Bytes → Bytes) (u : Unpacking)
      → Extends before u.tree
      → Keeps before Unpacking.tree (unpack_end hash false u)
  unfolding unpack_end final_path
  end_keeps hash u h = leaving_then h λ active e. leaving_then h λ size e. leaving_then h λ same e.
      leaving_then h λ path e. leaving_then h λ target found. leaving_then h λ parents made.
        let made' = ok_or-eq-ok (create_parent (parent target) u.tree) blocked_path made in
        let there = Extends-trans h (create_parent-Extends (parent target) u.tree made') in
        leaving_then there λ tree put.
          let after = Extends-trans there (
            placed-Extends target active.temp_file u.tree
              (non_overwriting_path-free (exists u.tree) (suc (length u.tree)) path (
                ok_or-eq-ok (non_overwriting_path (exists u.tree) (suc (length u.tree)) path)
                  no_free_name found))
              made' (ok_or-eq-ok (persist target active.temp_file parents) blocked_path put)) in
          leaving_then after λ entry e. done after

  frame_keeps :
      (hash : Bytes → Bytes) (frame : ArchiveFrame) (u : Unpacking)
      → Extends before u.tree
      → Keeps before Unpacking.tree (unpack_frame hash false frame u)
  unfolding unpack_frame
  frame_keeps hash (manifest_frame manifest) u h = record { after = h }
  frame_keeps hash (directory_frame path) u h = directory_keeps path u h
  frame_keeps hash (file_start path size blake3) u h = start_keeps path size blake3 u h
  frame_keeps hash (file_chunk bytes) u h = chunk_keeps bytes u h
  frame_keeps hash file_end u h = end_keeps hash u h

  module _ (decode : Bytes → Option ArchiveFrame) (hash : Bytes → Bytes) where
    next_keeps :
        (loop : Bytes → Unpacking → Result Failure Unpacking)
        → ((rest : Bytes) (v : Unpacking)
            → Extends before v.tree
            → Keeps before Unpacking.tree (loop rest v))
        → (u : Unpacking) (next : Option (ArchiveFrame × Bytes)) → Extends before u.tree
        → Keeps before Unpacking.tree (unpack_next decode hash false loop u next)
    next_keeps loop ih u none h = done h
    next_keeps loop ih u (some (frame, rest)) h =
        run_then Unpacking.tree (frame_keeps hash frame u h) λ v k. ih rest v k

    frames_keep :
        (fuel : ℕ) (bytes : Bytes) (u : Unpacking)
        → Extends before u.tree
        → Keeps before Unpacking.tree (unpack_frames decode hash false fuel bytes u)
    unfolding unpack_frames
    frames_keep zero bytes u h = record { after = h }
    frames_keep (suc fuel) bytes u h =
        leaving_then h
          λ next e. next_keeps (unpack_frames decode hash false fuel) (frames_keep fuel) u next h

-- Without `overwrite`, whatever the archive's bytes and whether it unpacks or not, every file and every
-- folder that was below the destination is there afterwards, with the same content.
pub unpack_raw_archive-Keeps :
    (decode : Bytes → Option ArchiveFrame) (hash : Bytes → Bytes) (bytes : Bytes) (tree : Tree)
    → Keeps tree (λ r. r.1) (unpack_raw_archive decode hash false bytes tree)
unfolding unpack_raw_archive
unpack_raw_archive-Keeps decode hash bytes tree = leaving_then (Extends-refl tree) λ opened e.
    run_then Unpacking.tree
      (frames_keep decode hash (suc (length opened.1)) opened.1
        (record { tree = tree; remaining_entries = opened.2; current_file = none })
        (Extends-refl tree))
      λ u h. leaving_then h λ idle e. leaving_then h λ consumed e. done h
