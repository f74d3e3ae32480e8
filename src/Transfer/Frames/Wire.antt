-- ===== src/Transfer/Frames/Wire.antt =====
-- archive.rs: `read_frame` over what `write_frame` writes.
use peerline.Base.{
  ℕ, ◌%◌, ◌<◌, ◌≡◌, refl, ◌∙◌, ap, false, List, [], ◌∷◌, ◌++◌, Option, some, ok, arith, ltb, length,
  length-append, take, drop,
}
use peerline.Base.Text.{Bytes}
use peerline.Transfer.Archive.{ArchiveFrame}
use peerline.Transfer.Frames.{be_bytes, be_value, payload_frame, read_frame, write_frame}

be_value-be_bytes : (n : ℕ) → n < 4294967296 → be_value 0 (be_bytes n) ≡ n
be_value-be_bytes n h = omega arith

pub take_front {ℓ} : {A : Type ℓ} (xs ys : List A) → take (length xs) (xs ++ ys) ≡ xs
take_front [] ys = refl
take_front (x ∷ xs) ys = ap (◌∷◌ x) (take_front xs ys)

pub drop_front {ℓ} : {A : Type ℓ} (xs ys : List A) → drop (length xs) (xs ++ ys) ≡ ys
drop_front [] ys = refl
drop_front (x ∷ xs) ys = drop_front xs ys

payload_front :
    (decode : Bytes → Option ArchiveFrame) (frame : ArchiveFrame) (payload rest : Bytes)
    → decode payload ≡ some frame
    → payload_frame decode (length payload) (payload ++ rest) ≡ ok (some (frame, rest))
payload_front decode frame payload rest h =
    rw (enough, take_front payload rest, h, drop_front payload rest) refl
  where
    enough : ltb (length (payload ++ rest)) (length payload) ≡ false
    enough = ground (arith, length-append payload rest)

cast_same : (n : ℕ) → n < 4294967296 → n % 4294967296 ≡ n
cast_same n h = omega arith

read_header :
    (decode : Bytes → Option ArchiveFrame) (n : ℕ) (tail : Bytes)
    → n < 4294967296
    → read_frame decode (be_bytes n ++ tail) ≡ payload_frame decode n tail
unfolding read_frame
read_header decode n tail h =
    rw long (ap (λ len. payload_frame decode len tail) (be_value-be_bytes n h))
  where
    long : ltb (length (be_bytes n ++ tail)) 4 ≡ false
    long = ground arith

-- A frame that `write_frame` wrote is what `read_frame` reads, with the bytes after it, provided that
-- its payload is shorter than 2^32 bytes and decodes to it.
pub read_frame-write_frame :
    (encode : ArchiveFrame → Bytes) (decode : Bytes → Option ArchiveFrame) (frame : ArchiveFrame)
    (rest : Bytes)
    → length (encode frame) < 4294967296
    → decode (encode frame) ≡ some frame
    → read_frame decode (write_frame encode frame ++ rest) ≡ ok (some (frame, rest))
unfolding write_frame
read_frame-write_frame encode decode frame rest small back =
    rw (cast_same (length (encode frame)) small) (
      read_header decode (length (encode frame)) (encode frame ++ rest) small
      ∙ payload_front decode frame (encode frame) rest back)
