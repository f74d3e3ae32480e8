-- ===== src/Transfer/Codec.antt =====
-- crates/peerline-transfer/src/archive.rs: `unpack_archive_from_reader`. The decoders are parameters: a
-- stream of zstd gives bytes until it ends or breaks, lzma is decoded whole.
use peerline.Base.{Bool, Option, none, some, Result, ok, err}
use peerline.Base.Text.{Bytes}
use peerline.Core.Manifest.{Compression, auto, uncompressed, zstd, lzma, Manifest}
use peerline.Transfer.Archive.{ArchiveFrame, malformed_frame, Tree}
use peerline.Transfer.Run.{Failure}
use peerline.Transfer.Unpack.{unpack_raw_archive}

-- The reads of a stream end well, with `UnexpectedEof`, or with another error.
pub data StreamEnd : Type 0 where
  ended cut_short broken : StreamEnd

pub record Decoders : Type 0 where
  pub frame : Bytes → Option ArchiveFrame
  pub hash : Bytes → Bytes
  -- The bytes that come out, and how the stream stops.
  pub zstd_stream : Bytes → Bytes × StreamEnd
  pub lzma_decompress : Bytes → Option Bytes

-- `read_frame` takes the unexpected end of a stream that is cut short as the end, as the end of one that is
-- whole. A stream that breaks is an error where the next frame was to be read.
abbrev pub unless_broken :
    StreamEnd → Result Failure (Manifest × Tree) → Result Failure (Manifest × Tree)
unless_broken ended r = r
unless_broken cut_short r = r
unless_broken broken (ok (manifest, tree)) = err (malformed_frame, tree)
unless_broken broken (err e) = err e

module _ (decoders : Decoders) (overwrite : Bool) where
  abbrev pub unpack_bytes : Bytes → Tree → Result Failure (Manifest × Tree)
  unpack_bytes raw tree = unpack_raw_archive decoders.frame decoders.hash overwrite raw tree

  abbrev pub unpack_decoded : Option Bytes → Tree → Result Failure (Manifest × Tree)
  unpack_decoded none tree = err (malformed_frame, tree)
  unpack_decoded (some raw) tree = unpack_bytes raw tree

  unfoldable pub unpack_archive_from_reader :
      Compression → Bytes → Tree → Result Failure (Manifest × Tree)
  unpack_archive_from_reader uncompressed archive tree = unpack_bytes archive tree
  unpack_archive_from_reader zstd archive tree =
      let (raw, end) = decoders.zstd_stream archive in unless_broken end (unpack_bytes raw tree)
  unpack_archive_from_reader auto archive tree =
      let (raw, end) = decoders.zstd_stream archive in unless_broken end (unpack_bytes raw tree)
  unpack_archive_from_reader lzma archive tree =
      unpack_decoded (decoders.lzma_decompress archive) tree
