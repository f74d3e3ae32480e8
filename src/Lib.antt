-- ===== src/Lib.antt =====
-- A verification library for peerline, a peer-to-peer file transfer program.
--
-- Peers find each other through a rendezvous service, among other ways; the sender then streams one
-- archive to the receiver, who keeps a partial copy on disk, and unpacks it once it is complete.
--
-- Files and what they model (paths from the repository's root):
--
-- Base          shared names; Base/Text is what the program uses of Rust's texts (lists of code points,
--               with their UTF-8 bytes), Base/Int its i64.
-- Core          crates/peerline-core: Core/Manifest is manifest.rs, Core/Path is path.rs,
--               Core/Identity is identity.rs, Core/Event is event.rs.
-- Crypto        crates/peerline-crypto: Transcript, Handshake, Opaque and Aead are its files of the same
--               names. The functions that it calls of other crates are the records of Primitives, and the
--               random numbers that they draw are arguments.
-- Transfer      crates/peerline-transfer/src/archive.rs: Archive has the frames, the entries and the file
--               system below the destination, Frames reads and writes frames, Unpack is unpack_raw_archive with
--               one function for each kind of frame, written as steps (Run) that an error ends.
--               Codec is unpack_archive_from_reader, which chooses a decoder.
-- Resume        crates/peerline-net/src/resume.rs: partial archives. The resume directory is a map from a
--               source and a resource to the files of one partial archive.
-- Rendezvous    crates/peerline-rendezvous-model (Model, Signature) and services/peerline-rendezvous:
--               Validate and Route read requests, Auth checks credentials, Table holds the SQL tables
--               and statements, Shard is RendezvousShard with one function for each handler. Reply is
--               the monad that the handlers are written in: a step reads and writes the tables and
--               goes on, refuses with a response, or fails with an error of the runtime.
-- Net           crates/peerline-net/src: Protocol and Wire are protocol.rs (secure frames, the framing on the
--               wire; libp2p_transfer/codec.rs frames in the same way), Session, Receiver and Receive are
--               libp2p_transfer/session.rs and receiver.rs (a session, one request, the loop over
--               events), Direct is the receiver of direct.rs and
--               Sender its sender. Site is what both receivers keep: the
--               partial archives, the rest of the destination and the events that they report. Step
--               is the monad of the handlers: a step ends well or with an error, and leaves the state
--               that it came to either way. Pkarr is the announcement and the publisher of pkarr.rs, Keepalive the refresh
--               interval of rendezvous.rs.
--
-- A receiver is one function of the events that it gets: the requests of all peers in the order in
-- which they are handled, or the connections one after another, each with the frames that it sends. A
-- sender's session calls Crypto for its keys, Net/Protocol for its frames, Resume for the partial copy
-- and Transfer for the unpacking.
--
-- Numbers are natural numbers with the widths of the source written out where they can be passed.
-- Times are not negative. Texts that the program walks are lists of code points. Hashes, base64,
-- serialization and the query parser are arguments (Rendezvous/Library, Crypto/Primitives,
-- Transfer/Codec); where a theorem needs that a
-- descriptor parses back, it says so. A request's clock stands still while it is handled, as the
-- worker runtime has it. The functions are total by structural recursion; four take fuel.
-- The decimal printer in Base/Int has a round more than the number, and each round divides it by ten.
-- The loop of unpack_raw_archive has a turn more than the archive has bytes, and a frame
-- takes four bytes. non_overwriting_path has a turn more than the destination has entries, and its
-- names are all different; the source counts them in an i32, which more than 2^31 names would
-- exceed. The loop that reads an announcement has a turn for each byte after the
-- header.
--
-- The partial archives lie below the destination, in .peerline-resume, and a receiver writes and removes
-- them before the login of a peer is complete; the tree of a Site is the rest of the destination.
--
-- Writing to a connection goes well; the log events of the program and the publishing of
-- descriptors are left out of the receivers.
--
-- Not modelled: sockets, libp2p, the terminal interface, compression codecs, log lines, and errors of
-- the operating system other than a missing file.
pub mod Base
pub mod Core
pub mod Crypto
pub mod Transfer
pub mod Resume
pub mod Rendezvous
pub mod Net
