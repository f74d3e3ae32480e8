-- ===== src/Net/Session.antt =====
-- crates/peerline-net/src/libp2p_transfer/session.rs: the session of one sender, and the receiver's
-- sessions by peer.
use peerline.Base.{ℕ, Option, none, some, if◌then◌else◌, text_eq}
use peerline.Base.Text.{Text, Bytes}
use peerline.Core.Manifest.{Compression, TransferDescriptor}
use peerline.Crypto.Aead.{ChunkAead}
use peerline.Crypto.Handshake.{ClientHello, ServerHandshake}
use peerline.Crypto.Opaque.{OpaqueServerResponse}
use peerline.Crypto.Transcript.{Transcript}
use peerline.Net.Site.{Site, ReceivedTransfer}
use peerline.Resume.{ResumeState}

pub record ReceiverSession : Type 0 where
  pub transfer_id : Bytes
  pub descriptor : TransferDescriptor
  pub client_hello : ClientHello
  pub transcript : Transcript
  pub opaque_server : Option OpaqueServerResponse
  pub server_handshake : Option ServerHandshake
  pub aead : Option ChunkAead
  pub compression : Option Compression
  pub expected_sequence : ℕ
  pub resume_state : ResumeState
  pub pending_result : Option (ℕ × ReceivedTransfer)
  pub pending_error : Option ℕ

-- `ReceiverSession::new`.
abbrev pub new_session :
    ClientHello
    → Transcript
    → OpaqueServerResponse
    → ServerHandshake
    → Bytes
    → TransferDescriptor
    → ResumeState
    → ReceiverSession
new_session client_hello transcript opaque_server server_handshake transfer_id descriptor
      resume_state =
    record {
      transfer_id = transfer_id;
      descriptor = descriptor;
      client_hello = client_hello;
      transcript = transcript;
      opaque_server = some opaque_server;
      server_handshake = some server_handshake;
      aead = none;
      compression = none;
      expected_sequence = 0;
      resume_state = resume_state;
      pending_result = none;
      pending_error = none;
    }

-- The sessions by peer, and the site that they share.
pub record Receiver : Type 0 where
  pub sessions : Text → Option ReceiverSession
  pub site : Site

-- `HashMap::insert` and `remove`; a session that is changed through `get_mut` is put back.
unfoldable pub put_session : Text → Option ReceiverSession → Receiver → Receiver
put_session peer session receiver = record receiver {
  sessions = λ p. if text_eq p peer then session else receiver.sessions p;
}
