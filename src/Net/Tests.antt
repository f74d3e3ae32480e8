-- ===== src/Net/Tests.antt =====
-- A transfer of an archive of one file, over toy primitives: nothing is hidden, every login goes well.
mod Receivers
mod Announcements
use peerline.Base.{
  is_empty, ℕ, ◌≡◌, refl, sym, false, true, [], ◌∷◌, ◌++◌, List, Option, none, some, Result, ok,
  err, ◌==◌, if◌then◌else◌, arith, length, text_eq,
}
use peerline.Base.Text.{Text, Bytes, codes}
use peerline.Core.Manifest.{
  Compression, auto, uncompressed, zstd, lzma, Manifest, TransferDescriptor, file_entry,
}
use peerline.Crypto.Aead.{EncryptedChunk}
use peerline.Crypto.Primitives.{Primitives, OpaqueSteps}
use peerline.Net.Protocol.{
  SecureFrame, header, archive_chunk, finished, SecureCodec, SecureChannel, SecureError,
  sequence_mismatch, decrypt_secure, encrypt_secure,
}
use peerline.Net.Protocol.Channel.{IsSound, decrypt_secure_once, decrypt_secure-encrypt_secure}
use peerline.Net.Wire.{
  WireFrame, WireCodec, WireError, ack, client_intro, client_finish, secure, write_wire, read_wire,
}
use peerline.Net.Wire.Framing.{read_wire-write_wire}
use peerline.Net.Site.{Receiving, Site, ReceivedTransfer}
use peerline.Transfer.Codec.{ended}
use peerline.Transfer.Archive.{
  ArchiveFrame, manifest_frame, file_start, file_chunk, file_end, Tree, content,
}

abbrev manifest : Manifest
manifest = record {
  id = [];
  compression = uncompressed;
  entries = file_entry (codes "a") 2 (codes "hi") ∷ [];
  total_bytes = 2;
}

abbrev frame_of_byte : Bytes → Option ArchiveFrame
frame_of_byte [] = none
frame_of_byte (b ∷ bs) =
    if b == 0
    then some (manifest_frame manifest)
    else if b == 1
    then some (file_start (codes "a") 2 (codes "hi"))
    else if b == 2
    then some (file_chunk (codes "hi"))
    else some file_end

abbrev one_byte : ℕ → Bytes
one_byte b = 0 ∷ 0 ∷ 0 ∷ 1 ∷ b ∷ []

abbrev archive : Bytes
archive = one_byte 0 ++ one_byte 1 ++ one_byte 2 ++ one_byte 3

abbrev prims : Primitives
prims = record {
  blake3 = λ b. b;
  hkdf = λ salt key info n. [];
  seal = λ key nonce aad plain. some plain;
  open_sealed = λ key nonce aad cipher. some cipher;
  x_public = λ secret. [];
  diffie_hellman = λ secret public. [];
  kem_keypair = λ seed. ([], []);
  encapsulate = λ random key. some ([], []);
  decapsulate = λ key cipher. some [];
}

abbrev encode_compression : Compression → Bytes
encode_compression auto = 0 ∷ []
encode_compression uncompressed = 1 ∷ []
encode_compression zstd = 2 ∷ []
encode_compression lzma = 3 ∷ []

abbrev encode : SecureFrame → Bytes
encode (header c) = 0 ∷ encode_compression c
encode (archive_chunk bytes) = 1 ∷ bytes
encode finished = 2 ∷ []

abbrev decode_compression : Bytes → Option SecureFrame
decode_compression [] = none
decode_compression (b ∷ bs) =
    if b == 0
    then some (header auto)
    else if b == 1
    then some (header uncompressed)
    else if b == 2
    then some (header zstd)
    else some (header lzma)

abbrev decode : Bytes → Option SecureFrame
decode [] = none
decode (b ∷ bs) =
    if b == 0
    then decode_compression bs
    else if b == 1
    then some (archive_chunk bs)
    else some finished

abbrev codec : SecureCodec
codec = record { encode = encode; decode = decode }

decodes : (frame : SecureFrame) → decode (encode frame) ≡ some frame
decodes (header auto) = refl
decodes (header uncompressed) = refl
decodes (header zstd) = refl
decodes (header lzma) = refl
decodes (archive_chunk bytes) = refl
decodes finished = refl

toy-IsSound : IsSound prims codec
toy-IsSound = record {
  opening = record { opens = λ key nonce aad plain cipher e. sym e };
  seals = λ key nonce aad plain. (plain, refl);
  decodes = decodes;
}

abbrev accepting : OpaqueSteps
accepting = record {
  new_setup = λ random. [];
  client_registration_start = λ random password. some ([], []);
  server_registration_start = λ setup request id. some [];
  client_registration_finish = λ random state password response. some [];
  server_registration_finish = λ upload. some [];
  client_login_start = λ random password. some ([], []);
  server_login_start = λ random setup file request id. some ([], []);
  client_login_finish = λ random state password response. some ([], []);
  server_login_finish = λ state finalization. some [];
}

abbrev receiving : Receiving
receiving = record {
  name = codes "name";
  code = codes "code";
  overwrite = false;
  prims = prims;
  steps = accepting;
  secure_codec = codec;
  decoders = record {
    frame = frame_of_byte;
    hash = λ b. b;
    zstd_stream = λ b. (b, ended);
    lzma_decompress = λ b. some b;
  };
  describe = λ e. codes "failed";
}

-- The login accepts finalizations that are not empty.
abbrev refusing : Receiving
refusing = record receiving {
  steps = record accepting {
    server_login_finish = λ state finalization. if is_empty finalization then none else some [];
  };
}

abbrev descriptor : TransferDescriptor
descriptor = record {
  source_id = codes "s";
  resource_id = archive;
  archive_bytes = 20;
  logical_bytes = 2;
  files = 1;
  compression = uncompressed;
}

abbrev site : Site
site = record { disk = λ s r. none; tree = []; events = [] }

abbrev received : ReceivedTransfer
received = record { peer = codes "p"; files = 1; bytes = 2 }

abbrev channel : SecureChannel
channel = record { aead = record { chain_key = []; nonce_prefix = [] }; sequence = 0 }

decrypt_secure-encrypt_secure_example :
    (chunk : EncryptedChunk) × (next : SecureChannel) × (encrypt_secure prims codec channel finished
      ≡ (ok chunk, next))
    × (decrypt_secure prims codec channel chunk ≡ (ok finished, next))
decrypt_secure-encrypt_secure_example =
    decrypt_secure-encrypt_secure prims codec toy-IsSound channel finished

decrypt_secure_once_example :
    let chunk : EncryptedChunk = record { sequence = 0; ciphertext = 2 ∷ [] } in
    let after = (decrypt_secure prims codec channel chunk).1 in
    decrypt_secure prims codec after chunk ≡ (err sequence_mismatch, after)
decrypt_secure_once_example =
    decrypt_secure_once prims codec channel (record { sequence = 0; ciphertext = 2 ∷ [] })
      (record { sequence = 0; ciphertext = 2 ∷ [] }) (omega arith) refl refl

-- Only the acknowledgement is told from the other frames.
abbrev wire_codec : WireCodec
wire_codec = record { encode = λ frame. 4 ∷ []; decode = λ bytes. some ack }

read_wire-write_wire_example :
    read_wire wire_codec (write_wire wire_codec ack ++ 7 ∷ []) ≡ ok (ack, 7 ∷ [])
read_wire-write_wire_example = read_wire-write_wire wire_codec ack (7 ∷ []) (omega arith) refl

abbrev intro : WireFrame
intro = client_intro (record {
  version = 3;
  name = none;
  descriptor = descriptor;
  opaque_request = [];
  client_hello = record { x25519_public = [] };
})

abbrev finish : WireFrame
finish =
    client_finish
      (record { opaque_finalization = []; client_kem = record { ml_kem_ciphertext = [] } })

abbrev sealed : ℕ → SecureFrame → WireFrame
sealed n frame = secure (record { sequence = n; ciphertext = encode frame })

-- What `transfer_frames` writes where one read gives the whole archive.
abbrev sent : List WireFrame
sent = sealed 0 (header uncompressed) ∷ sealed 1 (archive_chunk archive) ∷ sealed 2 finished ∷ []
