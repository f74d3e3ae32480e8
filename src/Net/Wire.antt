-- ===== src/Net/Wire.antt =====
-- crates/peerline-net/src/protocol.rs: the frames on the wire, and how they are framed; codec.rs frames
-- the requests of libp2p in the same way.
pub mod Framing
use peerline.Base.{
  ℕ, Option, none, some, Result, ok, err, ◌>>=◌, ◌>>◌, ensure, ok_or, not, ltb, ◌++◌, ◌%◌, length,
  take, drop, if◌then◌else◌,
}
use peerline.Base.Text.{Text, Bytes}
use peerline.Base.Words.{be_bytes}
use peerline.Core.Manifest.{TransferDescriptor}
use peerline.Crypto.Aead.{EncryptedChunk}
use peerline.Crypto.Handshake.{ClientHello, ServerHello, ClientKem}
use peerline.Net.Protocol.{max_frame}
use peerline.Transfer.Frames.{be_value}

pub record ClientIntro : Type 0 where
  pub version : ℕ
  pub name : Option Text
  pub descriptor : TransferDescriptor
  pub opaque_request : Bytes
  pub client_hello : ClientHello

pub record ServerIntro : Type 0 where
  pub version : ℕ
  pub resume_offset : ℕ
  pub opaque_response : Bytes
  pub server_hello : ServerHello

pub record ClientFinish : Type 0 where
  pub opaque_finalization : Bytes
  pub client_kem : ClientKem

pub data WireFrame : Type 0 where
  client_intro : ClientIntro → WireFrame
  server_intro : ServerIntro → WireFrame
  client_finish : ClientFinish → WireFrame
  secure : EncryptedChunk → WireFrame
  ack : WireFrame
  error : Text → WireFrame

pub record WireCodec : Type 0 where
  pub encode : WireFrame → Bytes
  pub decode : Bytes → Option WireFrame

pub data WireError : Type 0 where
  unexpected_end frame_too_large malformed_wire : WireError

module _ (codec : WireCodec) where
  -- The length is cast to u32.
  unfoldable pub write_wire : WireFrame → Bytes
  write_wire frame = be_bytes 4 (length (codec.encode frame) % 4294967296) ++ codec.encode frame

  abbrev pub read_payload : ℕ → Bytes → Result WireError (WireFrame × Bytes)
  read_payload len bytes = do
    ensure (not (ltb max_frame len)) frame_too_large
    ensure (not (ltb (length bytes) len)) unexpected_end
    frame ← ok_or (codec.decode (take len bytes)) malformed_wire
    ok (frame, drop len bytes)

  -- The frame, and the bytes after it.
  unfoldable pub read_wire : Bytes → Result WireError (WireFrame × Bytes)
  read_wire bytes =
      if ltb (length bytes) 4
      then err unexpected_end
      else read_payload (be_value 0 (take 4 bytes)) (drop 4 bytes)
