-- ===== src/Net/Wire/Framing.antt =====
-- protocol.rs: `read_wire` over what `write_wire` writes.
use peerline.Base.{
  ℕ, ◌%◌, ◌≤◌, ◌≡◌, refl, ap, ◌∙◌, false, ◌++◌, some, ok, arith, ltb, length, length-append,
  append_assoc,
}
use peerline.Base.Text.{Bytes}
use peerline.Base.Words.{be_bytes}
use peerline.Net.Protocol.{max_frame}
use peerline.Net.Wire.{WireFrame, WireCodec, write_wire, read_wire, read_payload}
use peerline.Transfer.Frames.{be_value}
use peerline.Transfer.Frames.Wire.{take_front, drop_front}

abbrev limit : ℕ
limit = 67108864

word_back : (n : ℕ) → n ≤ limit → be_value 0 (be_bytes 4 n) ≡ n
unfolding be_bytes
word_back n h = omega arith

cast_same : (n : ℕ) → n ≤ limit → n % 4294967296 ≡ n
cast_same n h = omega arith

module _ (codec : WireCodec) where
  payload_back :
      (frame : WireFrame) (payload rest : Bytes)
      → length payload ≤ limit
      → codec.decode payload ≡ some frame
      → read_payload codec (length payload) (payload ++ rest) ≡ ok (frame, rest)
  payload_back frame payload rest small h =
      rw (fits, enough, take_front payload rest, h, drop_front payload rest) refl
    where
      fits : ltb max_frame (length payload) ≡ false
      fits = ground arith

      enough : ltb (length (payload ++ rest)) (length payload) ≡ false
      enough = ground (arith, length-append payload rest)

  header_back :
      (n : ℕ) (tail : Bytes)
      → n ≤ limit
      → read_wire codec (be_bytes 4 n ++ tail) ≡ read_payload codec n tail
  unfolding read_wire be_bytes
  header_back n tail h = rw long (ap (λ len. read_payload codec len tail) (word_back n h))
    where
      long : ltb (length (be_bytes 4 n ++ tail)) 4 ≡ false
      long = ground arith

  -- A frame that `write_wire` wrote is what `read_wire` reads, with the bytes after it, provided that
  -- its payload has at most MAX_FRAME bytes and decodes to it.
  pub read_wire-write_wire :
      (frame : WireFrame) (rest : Bytes)
      → length (codec.encode frame) ≤ max_frame
      → codec.decode (codec.encode frame) ≡ some frame
      → read_wire codec (write_wire codec frame ++ rest) ≡ ok (frame, rest)
  unfolding write_wire
  read_wire-write_wire frame rest small back = rw (cast_same (length (codec.encode frame)) small) (
      ap (read_wire codec)
        (append_assoc (be_bytes 4 (length (codec.encode frame))) (codec.encode frame) rest)
      ∙ (header_back (length (codec.encode frame)) (codec.encode frame ++ rest) small
          ∙ payload_back frame (codec.encode frame) rest small back))
