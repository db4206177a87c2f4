-- ===== src/Lib.antt =====
-- SRLTCP core: the serial link, the file transfer, the handshake, the registry of connections and
-- the sessions of the peer-to-peer messenger in core/.
--
-- A message between two peers goes through the engine (core/src/p2p/engine.rs), which encrypts it
-- and hands it to a transport. On a serial line the transport (core/src/serial/transport.rs) cuts
-- it into fragments; the reliability layer (core/src/serial/reliability.rs) gives each fragment a
-- sequence number, keeps it until it is acknowledged and resends it; the frame codec
-- (core/src/serial/frame.rs) adds a header and a checksum and stuffs the bytes with COBS. On the
-- other side a reader cuts the byte stream at the zero bytes, decodes each frame, the reliability
-- layer puts the payloads back in order, and the link task joins them to messages. A file is sent
-- as numbered chunks (core/src/transfer/chunked.rs), which the receiver writes at their offsets.
--
-- Files and code:
--   * Base and below: tests on numbers, lists, words of bytes, results, association lists (a
--     HashMap whose iteration order is the list's), sets of numbers (a HashSet).
--   * Serial/Codec: what is relied on of the crates cobs and crc32fast: decoding undoes encoding,
--     an encoding has no zero byte and is not much longer, a checksum has 32 bits. Serial/Toy is a
--     codec with these laws, for the examples.
--   * Serial/Frame: frame.rs. FrameFlags, Frame, FrameError, the constructors, serialize_raw,
--     parse_raw, encode and decode keep their names. encode is `none` where the `assert!` fails.
--   * Serial/Reliability: reliability.rs. ReliabilityLayer and its methods keep their names;
--     on_receive is split into dispatch (the match on the flags) and piggyback (the rest).
--     Instant::now() is an argument in milliseconds.
--   * Serial/Transport: transport.rs up to the link task: effective_rto, fragment, extract_frame
--     and SerialReader::feed.
--   * Serial/Link: the task run_link of transport.rs, one function for each branch of its
--     `select!`, and the checks of send. A panic and an end of the task are values.
--   * Transfer: chunked.rs. The manifest, ChunkedSender and ChunkedReceiver with their methods, and
--     in Transfer/Filename sanitize_filename on code points.
--     SHA-256 is a parameter; whether a read or a write succeeds, and how much of a failed write
--     reached the file, are arguments.
--   * Crypto/Primitives: the calls of the cryptographic crates as one record of functions, and what
--     is relied on of them (both sides of an exchange get the same secret, a signature verifies).
--     Crypto/Toy is an instance of these laws, for the examples.
--   * Crypto/Wire: wire.rs, Crypto/Kex: handshake.rs, Crypto/Ratchet: ratchet.rs, Crypto/Sas: the
--     safety number in identity.rs, Crypto/Peer: peer_crypto.rs (all under core/src/crypto). A
--     method on `&mut self` is a function from the state to a result and a state (Base/Stateful),
--     so that what an early return has changed already stays changed. Random values are arguments.
--     A peer's trust goes from connected over handshaking and sas_pending to trusted.
--   * Crypto/Identity: seeds, the seed file and QR codes in identity.rs. base64 and hex are
--     parameters (TextFormats); the validation of UTF-8 and the printing and parsing of a port are
--     the standard library's and written out. Crypto/Identity/Seeds has the file of the seed.
--   * Network: the registry of connections in core/src/network/iroh_transport.rs, one connection
--     for each peer. A connection is its stable id and the id of the remote endpoint; the
--     connections that either side has closed are a set of stable ids.
--   * Engine/Session: the handshake of one session in core/src/p2p/engine.rs: PeerSession, what
--     handshake_with_qr_bytes, handle_handshake_init and handle_handshake_finish do under the lock
--     of the peers, and abort_initiator. Frames are sent and waited for by the runtime.
--   * Engine/Queue: enqueue_pending and flush_pending_for_peer. How an attempt to send ends is an
--     argument, told apart by the words that the code looks for, and so are the items that other
--     tasks queue during a flush.
--   * Engine/Transfers: the file messages of handle_app_message: on_file_offer, on_file_chunk,
--     finish_incoming, on_remote_cancel and the acknowledgements. An operation returns what it
--     sends and emits, in order, and the new maps. Engine/Outgoing: run_transfer_send, one function
--     for each stretch between two waits, cancel_transfer and cancel_peer_transfers.
--     Engine/Outgoing/Runs: the runs of all these, with the two stages of an offer and of a last chunk.
--   * Engine/Inbox: handle_encrypted_frame, confirm_peer_trusted and release_held_inbound for one
--     session, down to the messages that handle_app_message gets.
--   * Engine/Calls: send_call_signal, on_call_signal and clear_call_for_peer.
--   * Engine/Peers: the map of all sessions with the ids that lead to one: resolve_peer_id and
--     canonicalize_peer. Engine/Leaving: teardown_peer_session and on_connection_lost, with the
--     registry of Network. Engine/Sending: link_up, send_wire_message and send_raw_frame, over the
--     registry or through the checks of Serial/Link.
--   * Engine/Contacts: the system messages of handle_app_message, register_saved_peer,
--     load_trusted_pubkeys and can_queue_for_peer. Engine/Messages: send_message with is_link_error,
--     over Engine/Sending and Engine/Queue; the words of an error's text are told by its constructor.
--
-- Bounds and fuel: u16, u32 and u64 are native numbers, and every operation that can wrap around
-- writes the remainder out. The loops of the reader have the length of the buffer as fuel, and each
-- round takes at least one byte; the loop over the reorder buffer has its length, and each round
-- takes an entry out; the chunks of a message have its length; the loop over new chunks of a file
-- has their number. One step of the link reads the clock once.
--
-- Not modelled: the threads and the port behind the link task, the start and shutdown of a
-- transport, the search for a free path of a finished file, the dialing and the DNS set-up of the
-- iroh transport, the rest of the engine (dialing, waiting for a handshake and reconnecting), the
-- bindings and the applications. They are either input and output, or calls of
-- libraries, or lie above what is modelled here.
pub mod Base
pub mod Serial
pub mod Transfer
pub mod Crypto
pub mod Network
pub mod Engine
