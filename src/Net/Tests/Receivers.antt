-- ===== src/Net/Tests/Receivers.antt =====
-- The transfer of one archive to either receiver.
use peerline.Base.{
  ℕ, ◌+◌, ◌≡◌, ◌≢◌, refl, false, true, [], ◌∷◌, ◌++◌, List, Option, none, some, Result, ok, err,
  arith, length, text_eq,
}
use peerline.Base.Text.{Text, Bytes, codes}
use peerline.Core.Manifest.{TransferDescriptor, uncompressed}
use peerline.Crypto.Opaque.{finish_server}
use peerline.Net.Direct.{Connection, Incoming}
use peerline.Net.Direct.Stream.{receive_stream, recv_once_bound, receive_archive}
use peerline.Net.Direct.Arrival.{Follows, receive_chunks-Follows}
use peerline.Net.Direct.Chunks.{receive_chunks}
use peerline.Net.Direct.Outcome.{Reception, recv_once_bound-Reception}
use peerline.Net.Direct.Locked.{recv_once_bound-Kept}
use peerline.Net.Direct.Honest.{receive_archive-transfer_frames}
use peerline.Net.Protocol.{SecureFrame, header, archive_chunk, finished}
use peerline.Net.Receive.{TransferEvent, request_message, response_sent, receive}
use peerline.Net.Receive.Complete.{Promised, receive-Promised}
use peerline.Net.Receive.Locked.{NotReceived, receive-NotReceived}
use peerline.Net.Receive.Stopped.{receive_stopped}
use peerline.Net.Receiver.{Request, handle_inbound_request}
use peerline.Net.Receiver.Isolation.{handle_inbound_request-sessions}
use peerline.Net.Session.{Receiver}
use peerline.Net.Site.{Receiving, Site, ReceivedTransfer, NetError}
use peerline.Net.Site.Complete.{WasComplete}
use peerline.Net.Sender.{SendOptions, Sending, send_archive}
use peerline.Net.Sender.Frames.{send_archive-write_frames}
use peerline.Net.Protocol.{SecureChannel}
use peerline.Net.Wire.{ack}
use peerline.Net.Tests.{
  accepting, prims, codec, receiving, refusing, descriptor, site, received, channel, intro, finish,
  sealed, sent, archive, manifest, toy-IsSound,
}
use peerline.Resume.{ResumeState, resume_state}
use peerline.Resume.Sync.{InSync, resume_state-InSync}
use peerline.Resume.Transfer.{append_all}
use peerline.Transfer.Archive.{content}
use peerline.Transfer.Codec.{unpack_archive_from_reader}

abbrev incoming : Incoming
incoming = record {
  peer = codes "p";
  now = 1000;
  transfer_id = [];
  record_random = [];
  login_random = [];
  secret = [];
  kem_seed = [];
  frames = intro ∷ finish ∷ sent;
}

abbrev request : Request
request = record {
  peer = codes "p";
  request_id = 7;
  now = 1000;
  transfer_id = [];
  record_random = [];
  login_random = [];
  secret = [];
  kem_seed = [];
}

abbrev receiver : Receiver
receiver = record { sessions = λ p. none; site = site }

abbrev started : List TransferEvent
started = request_message request intro ∷ request_message request finish ∷ []

recv_once_bound-Kept_example :
    let (result, after) = recv_once_bound refusing (λ e. []) (incoming ∷ []) site in
    (result ≡ none) × (after.tree ≡ [])
unfolding finish_server
recv_once_bound-Kept_example =
    recv_once_bound-Kept refusing [] (λ e. []) (incoming ∷ []) site
      ((tt, (λ login. refl, (tt, (tt, (tt, tt))))), tt) refl

receive-NotReceived_example : NotReceived [] (receive refusing [] (codes "me") started receiver)
unfolding finish_server
receive-NotReceived_example =
    receive-NotReceived [] refusing [] (codes "me") started receiver (tt, (λ login. refl, tt))
      (refl, λ p. tt)

handle_inbound_request-sessions_example :
    (handle_inbound_request receiving [] (codes "me") request intro receiver).1.sessions (codes "q")
    ≡ none
unfolding text_eq
handle_inbound_request-sessions_example =
    handle_inbound_request-sessions receiving [] (codes "me") request intro receiver (codes "q")
      refl

receive_stopped_example :
    (e : NetError) × (receive receiving []
        (codes "me")
        ([] ++ request_message request (sealed 0 finished) ∷ started)
        receiver
      ≡ (err e, receiver))
unfolding receive
receive_stopped_example =
    receive_stopped receiving [] (codes "me") [] started receiver receiver request
      (record { sequence = 0; ciphertext = 2 ∷ [] }) refl refl

received_direct : (recv_once_bound receiving (λ e. []) (incoming ∷ []) site).0 ≡ some received
unfolding peerline.Net.Direct.Stream.recv_once_bound peerline.Net.Direct.Stream.receive_stream
    peerline.Net.Direct.Stream.receive_archive peerline.Net.Direct.Stream.receive_body
    peerline.Net.Direct.Stream.conclude peerline.Net.Direct.Stream.chunks_step
    peerline.Net.Direct.Stream.complete_step peerline.Net.Direct.Stream.unpack_step
    peerline.Net.Direct.Stream.resume_step peerline.Net.Direct.Chunks.receive_chunks
    peerline.Net.Direct.Chunks.open_frame peerline.Net.Step.◌>>=◌ peerline.Net.Step.run
    peerline.Net.Step.lift peerline.Net.Step.require peerline.Net.Step.check
    peerline.Net.Step.modify peerline.Net.Step.give peerline.Net.Step.stop
    peerline.Net.Direct.read_frame peerline.Net.Direct.write_frame peerline.Net.Direct.emit_direct
    peerline.Net.Direct.accept_intro peerline.Crypto.Opaque.create_server_record
    peerline.Crypto.Opaque.start_server_login peerline.Crypto.Opaque.finish_server
    peerline.Crypto.Handshake.server_start peerline.Crypto.Handshake.server_finish
    peerline.Crypto.Handshake.derive_session_keys peerline.Net.Protocol.decrypt_secure
    peerline.Crypto.Aead.decrypt peerline.Resume.resume_state peerline.Resume.cleanup_expired
    peerline.Resume.is_stale peerline.Resume.metadata_matches peerline.Resume.put_dir
    peerline.Resume.write_part peerline.Resume.append_chunk peerline.Resume.complete_partial
    peerline.Resume.remove_partial peerline.Net.Site.complete_received
    peerline.Net.Site.unpack_received peerline.Transfer.Codec.unpack_archive_from_reader
    peerline.Transfer.Run.◌>>=◌ peerline.Transfer.Run.leaving peerline.Transfer.Frames.open_archive
    peerline.Transfer.Frames.read_frame peerline.Transfer.Archive.validate_manifest_entries
    peerline.Transfer.Archive.expected_manifest_entries
    peerline.Transfer.Archive.expected_manifest_entry peerline.Transfer.Archive.path_eq
    peerline.Transfer.Archive.check_entry peerline.Transfer.Archive.create_dir_all
    peerline.Transfer.Archive.get_entry peerline.Transfer.Archive.make_folder
    peerline.Transfer.Archive.make_folders peerline.Transfer.Archive.persist
    peerline.Transfer.Archive.remove_entry peerline.Transfer.Archive.take_expected_manifest_entry
    peerline.Transfer.Archive.node_at peerline.Transfer.Archive.exists
    peerline.Transfer.Unpack.unpack_raw_archive peerline.Transfer.Unpack.final_path
    peerline.Transfer.Unpack.safe_join_relative peerline.Transfer.Unpack.unpack_chunk
    peerline.Transfer.Unpack.unpack_end peerline.Transfer.Unpack.unpack_frame
    peerline.Transfer.Unpack.unpack_frames peerline.Transfer.Unpack.unpack_start
    peerline.Core.Path.validate_relative_path peerline.Core.Path.non_overwriting_path
    peerline.Core.Path.candidate peerline.Core.Path.check_components peerline.Core.Path.component_of
    peerline.Core.Path.components peerline.Core.Path.first_free
    peerline.Core.Path.has_noncanonical_segments peerline.Core.Path.is_noncanonical
    peerline.Core.Path.parent peerline.Core.Path.relative_components
    peerline.Core.Path.stem_extension peerline.Core.Manifest.file_entry peerline.Base.any
    peerline.Base.text_eq peerline.Base.filter_map peerline.Base.find_first peerline.Base.retain
    peerline.Base.Text.split peerline.Base.Text.first_part peerline.Base.Text.last_part
    peerline.Base.Int.decimal mathlib.Core.Option.bind
received_direct = refl

abbrev end : Site
end = (recv_once_bound receiving (λ e. []) (incoming ∷ []) site).1

recv_once_bound-Reception_example : Reception receiving (λ e. []) (incoming ∷ []) site end received
recv_once_bound-Reception_example =
    recv_once_bound-Reception receiving (λ e. []) (incoming ∷ []) site end received
      (λ i. (received_direct i, end))

abbrev whole : List TransferEvent
whole =
    request_message request intro
    ∷ request_message request finish
    ∷ request_message request (sealed 0 (header uncompressed))
    ∷ request_message request (sealed 1 (archive_chunk archive))
    ∷ request_message request (sealed 2 finished)
    ∷ response_sent (codes "p") 7
    ∷ []

received_libp2p : (receive receiving [] (codes "me") whole receiver).0 ≡ ok (some received)
unfolding peerline.Net.Receive.receive peerline.Net.Receive.handle_transfer_event
    peerline.Net.Receive.after_response peerline.Net.Receiver.handle_inbound_request
    peerline.Net.Receiver.handle_intro peerline.Net.Receiver.handle_finish
    peerline.Net.Receiver.handle_secure peerline.Net.Receiver.handle_frame
    peerline.Net.Receiver.handle_header peerline.Net.Receiver.handle_chunk
    peerline.Net.Receiver.handle_done peerline.Net.Receiver.handle_unpacked
    peerline.Net.Receiver.emit peerline.Net.Receiver.keep_session peerline.Net.Receiver.resumed_site
    peerline.Net.Receiver.appended peerline.Net.Receiver.decrypted peerline.Net.Receiver.completed
    peerline.Net.Receiver.unpacked_site peerline.Net.Session.put_session peerline.Net.Step.asks
    peerline.Net.Step.◌>>=◌ peerline.Net.Step.run peerline.Net.Step.lift peerline.Net.Step.require
    peerline.Net.Step.check peerline.Net.Step.modify peerline.Net.Step.give peerline.Net.Step.stop
    peerline.Crypto.Opaque.create_server_record peerline.Crypto.Opaque.start_server_login
    peerline.Crypto.Opaque.finish_server peerline.Crypto.Handshake.server_start
    peerline.Crypto.Handshake.server_finish peerline.Crypto.Handshake.derive_session_keys
    peerline.Net.Protocol.decrypt_secure peerline.Crypto.Aead.decrypt peerline.Resume.resume_state
    peerline.Resume.cleanup_expired peerline.Resume.is_stale peerline.Resume.metadata_matches
    peerline.Resume.put_dir peerline.Resume.write_part peerline.Resume.append_chunk
    peerline.Resume.complete_partial peerline.Resume.remove_partial
    peerline.Net.Site.complete_received peerline.Net.Site.unpack_received
    peerline.Transfer.Codec.unpack_archive_from_reader peerline.Transfer.Run.◌>>=◌
    peerline.Transfer.Run.leaving peerline.Transfer.Frames.open_archive
    peerline.Transfer.Frames.read_frame peerline.Transfer.Archive.validate_manifest_entries
    peerline.Transfer.Archive.expected_manifest_entries
    peerline.Transfer.Archive.expected_manifest_entry peerline.Transfer.Archive.path_eq
    peerline.Transfer.Archive.check_entry peerline.Transfer.Archive.create_dir_all
    peerline.Transfer.Archive.get_entry peerline.Transfer.Archive.make_folder
    peerline.Transfer.Archive.make_folders peerline.Transfer.Archive.persist
    peerline.Transfer.Archive.remove_entry peerline.Transfer.Archive.take_expected_manifest_entry
    peerline.Transfer.Archive.node_at peerline.Transfer.Archive.exists
    peerline.Transfer.Unpack.unpack_raw_archive peerline.Transfer.Unpack.final_path
    peerline.Transfer.Unpack.safe_join_relative peerline.Transfer.Unpack.unpack_chunk
    peerline.Transfer.Unpack.unpack_end peerline.Transfer.Unpack.unpack_frame
    peerline.Transfer.Unpack.unpack_frames peerline.Transfer.Unpack.unpack_start
    peerline.Core.Path.validate_relative_path peerline.Core.Path.non_overwriting_path
    peerline.Core.Path.candidate peerline.Core.Path.check_components peerline.Core.Path.component_of
    peerline.Core.Path.components peerline.Core.Path.first_free
    peerline.Core.Path.has_noncanonical_segments peerline.Core.Path.is_noncanonical
    peerline.Core.Path.parent peerline.Core.Path.relative_components
    peerline.Core.Path.stem_extension peerline.Core.Manifest.file_entry peerline.Base.any
    peerline.Base.text_eq peerline.Base.filter_map peerline.Base.find_first peerline.Base.retain
    peerline.Base.Text.split peerline.Base.Text.first_part peerline.Base.Text.last_part
    peerline.Base.Int.decimal mathlib.Core.Option.bind
received_libp2p = refl

receive-Promised_example :
    (peer : Text) × (d : TransferDescriptor) × Promised whole peer d
    × WasComplete receiving peer d received
receive-Promised_example =
    receive-Promised receiving [] (codes "me") whole receiver received (λ p. refl) received_libp2p

abbrev state : ResumeState
state = record { source_id = codes "s"; resource_id = archive; offset = 0 }

abbrev waiting : Connection
waiting = record {
  inbox = sent;
  outbox = [];
  site = record site { disk = (resume_state 1000 descriptor (λ s r. none)).1 };
}

waiting-InSync : InSync descriptor state waiting.site.disk
unfolding peerline.Resume.resume_state peerline.Resume.cleanup_expired peerline.Resume.is_stale
    peerline.Resume.metadata_matches peerline.Resume.put_dir peerline.Resume.write_part
    peerline.Resume.append_chunk peerline.Resume.complete_partial peerline.Resume.remove_partial
    peerline.Base.text_eq
waiting-InSync = resume_state-InSync 1000 descriptor (λ s r. none)

unpacks :
    unpack_archive_from_reader receiving.decoders receiving.overwrite uncompressed archive []
    ≡ ok (manifest, (codes "a", content (codes "hi")) ∷ [])
unfolding peerline.Transfer.Codec.unpack_archive_from_reader peerline.Transfer.Run.◌>>=◌
    peerline.Transfer.Run.leaving peerline.Transfer.Frames.open_archive
    peerline.Transfer.Frames.read_frame peerline.Transfer.Archive.validate_manifest_entries
    peerline.Transfer.Archive.expected_manifest_entries
    peerline.Transfer.Archive.expected_manifest_entry peerline.Transfer.Archive.path_eq
    peerline.Transfer.Archive.check_entry peerline.Transfer.Archive.create_dir_all
    peerline.Transfer.Archive.get_entry peerline.Transfer.Archive.make_folder
    peerline.Transfer.Archive.make_folders peerline.Transfer.Archive.persist
    peerline.Transfer.Archive.remove_entry peerline.Transfer.Archive.take_expected_manifest_entry
    peerline.Transfer.Archive.node_at peerline.Transfer.Archive.exists
    peerline.Transfer.Unpack.unpack_raw_archive peerline.Transfer.Unpack.final_path
    peerline.Transfer.Unpack.safe_join_relative peerline.Transfer.Unpack.unpack_chunk
    peerline.Transfer.Unpack.unpack_end peerline.Transfer.Unpack.unpack_frame
    peerline.Transfer.Unpack.unpack_frames peerline.Transfer.Unpack.unpack_start
    peerline.Core.Path.validate_relative_path peerline.Core.Path.non_overwriting_path
    peerline.Core.Path.candidate peerline.Core.Path.check_components peerline.Core.Path.component_of
    peerline.Core.Path.components peerline.Core.Path.first_free
    peerline.Core.Path.has_noncanonical_segments peerline.Core.Path.is_noncanonical
    peerline.Core.Path.parent peerline.Core.Path.relative_components
    peerline.Core.Path.stem_extension peerline.Core.Manifest.file_entry peerline.Base.any
    peerline.Base.text_eq peerline.Base.filter_map peerline.Base.find_first peerline.Base.retain
    peerline.Base.Text.split peerline.Base.Text.first_part peerline.Base.Text.last_part
    peerline.Base.Int.decimal
unpacks = refl

receive_archive-transfer_frames_example :
    (after : Connection) × (receive_archive receiving incoming descriptor state channel waiting
      ≡ (ok received, after))
    × (after.site.tree ≡ (codes "a", content (codes "hi")) ∷ [])
unfolding peerline.Net.Direct.Chunks.write_frames peerline.Net.Protocol.encrypt_secure
    peerline.Crypto.Aead.encrypt peerline.Base.retain peerline.Core.Manifest.file_entry
    peerline.Resume.resume_state peerline.Resume.cleanup_expired peerline.Resume.is_stale
    peerline.Resume.metadata_matches peerline.Resume.put_dir peerline.Resume.write_part
    peerline.Resume.append_chunk peerline.Resume.complete_partial peerline.Resume.remove_partial
    peerline.Base.text_eq
receive_archive-transfer_frames_example =
    receive_archive-transfer_frames receiving toy-IsSound incoming descriptor state channel _
      waiting archive (archive ∷ []) manifest ((codes "a", content (codes "hi")) ∷ [])
      waiting-InSync refl refl (omega arith) (omega arith) refl refl unpacks

receive_chunks-Follows_example :
    Follows [] (append_all 1000 descriptor (archive ∷ []) state waiting.site.disk) (
      receive_chunks prims codec 1000 [] descriptor
        (sealed 0 (archive_chunk archive) ∷ sealed 1 finished ∷ [])
        channel
        state
        waiting.site)
unfolding peerline.Net.Direct.Chunks.write_frames peerline.Net.Protocol.encrypt_secure
    peerline.Crypto.Aead.encrypt
receive_chunks-Follows_example =
    receive_chunks-Follows 1000 [] descriptor prims codec toy-IsSound (archive ∷ []) channel state
      waiting.site refl

abbrev options : SendOptions
options = record {
  endpoint = codes "e";
  name = none;
  code = codes "code";
  prims = prims;
  steps = accepting;
  secure_codec = codec;
  login_random = [];
  finish_random = [];
  secret = [];
  kem_random = [];
  transfer_id = [];
}

abbrev done : SecureChannel
done = record { aead = record { chain_key = []; nonce_prefix = [] }; sequence = 3 }

abbrev idle : Sending
idle = record { inbox = ack ∷ []; outbox = []; events = [] }

-- The frames that the receiver above is given.
send_archive-write_frames_example :
    (after : Sending) × (send_archive options uncompressed 20 0 (archive ∷ []) channel idle
      ≡ (ok done, after))
    × (after.outbox ≡ sent)
unfolding peerline.Net.Direct.Chunks.write_frames peerline.Net.Protocol.encrypt_secure
    peerline.Crypto.Aead.encrypt peerline.Crypto.Aead.derive_next
send_archive-write_frames_example =
    send_archive-write_frames options uncompressed 20 0 (archive ∷ []) channel done sent idle refl
