-- ===== src/Lib.antt =====
-- nxfr: a local file-sharing protocol, with its wire format and state machines, the daemon that receives
-- and sends files, its storage, and the parts of its web server that handle untrusted input.
--
-- Two devices hold a TLS connection. Bytes from it go through the frame decoder
-- (crates/nxfr-transport/src/framing.rs), which cuts them into frames of a 28-byte header and a payload
-- (crates/nxfr-core/src/frame.rs). The payload of a CONTROL frame is a control message in CBOR
-- (codec.rs, messages.rs), that of a CHUNK frame a piece of a file with its hash (chunk.rs), that of a
-- KEEPALIVE frame nothing or a timestamp (keepalive.rs). Messages, timers and the user are the events of
-- the session machine (session.rs) and of the transfer machine (transfer.rs), which answer with the
-- next state and with actions for the caller. The SAS (sas.rs) is what users compare to pair. A
-- received relative path is cleaned and confined to the download directory (path.rs) before a write. The
-- daemon (crates/nxfr-daemon/src) runs a session for a connection that comes in (handler.rs): it checks the
-- peer's key against the table of paired devices (crates/nxfr-storage/src/db.rs), asks the user about
-- offers and pairings, keeps a journal of what was received (resume.rs), takes a file's chunks and checks
-- the whole (receiver.rs); sender.rs is the other side of that. The web server (crates/nxfr-web/src/lib.rs)
-- serves the files of a share to a browser and takes uploads.
--
-- Files and what they model (core is crates/nxfr-core/src, common is crates/nxfr-common/src):
--   Prelude      tests, Result with its bind, lists over native numbers, big-endian words, texts
--   Common       limits, errors, Platform and ProtocolVersion (common/types.rs, common/error.rs)
--   Frame        FrameKind, FrameHeader with parse, serialize, validate_payload_len (core/frame.rs)
--   Payload      Chunk (core/chunk.rs) and Keepalive (core/keepalive.rs)
--   Transport    NxfrCodec's decode and encode on explicit buffers (crates/nxfr-transport/src/framing.rs);
--                Stream: a connection as bytes that arrive and calls of decode, in any order
--   Machine      sequences of events, for both machines
--   Session      session_handle_event (core/session.rs); Diagram: the table of docs/PROTOCOL.md 10.3
--   Transfer     transfer_handle_event (core/transfer.rs); Diagram: the table of docs/PROTOCOL.md 11.3
--   ErrorCode    the error codes and their wire names (core/error_code.rs)
--   Codec        Value, Map, Getters, Messages, Encode, Decode: encode_control and decode_control with
--                every message's encoder and decoder (core/codec.rs, core/messages.rs)
--   Path         Sanitizer: sanitize_path; Jail: resolve_safe_path (core/path.rs)
--   Sas          derive_sas (core/sas.rs)
--   Receiver     receive_file and resolve_collision (crates/nxfr-daemon/src/receiver.rs)
--   Sender       send_file, send_file_resume (crates/nxfr-daemon/src/sender.rs), send_chunk and recv_frame
--                (crates/nxfr-transport/src/connection.rs)
--   Identity     extract_spki, device_id_from_cert (crates/nxfr-crypto/src/identity.rs)
--   Storage      Devices: PairedDeviceDb (crates/nxfr-storage/src/db.rs); Past: HistoryDb (history.rs);
--                Journal: ResumeJournal (resume.rs)
--   Daemon       World, Visit: handle_incoming; Offers: its decisions; Progress, Incoming:
--                handle_incoming_transfer (crates/nxfr-daemon/src/handler.rs)
--   Web          Range: parse_range_header; Chunked: ChunkedWriter; Upload, Filename: the body and the name
--                of an upload in handle_connection, sanitize_filename; Gate: is_valid_token,
--                respond_to_request, /api/request, /auth (crates/nxfr-web/src/lib.rs)
--   Tests        the definitions on fixed inputs
--
-- How the code is represented: a byte and a machine word are native numbers, and a cast writes its
-- `% 2 ^ w` out; a text on the wire is a native String, a path is the list of its UTF-8 bytes (the
-- characters that path.rs tests are all ASCII); `?` is the bind of Result; a BTreeMap is the list of its
-- entries in the order of the keys; io::Error in the frame decoder keeps the FrameError that it prints.
-- A run of events, of calls or of frames that come is a list, and a loop is structural recursion on it.
-- Where a loop is not, it has fuel: the loop of the sender has one round more than the file has bytes, since
-- each round goes on by at least one; the loops of a session and of a transfer have one more than there are
-- frames, since each turn takes one; the loop that serves a range has one more than its bytes; a number is
-- written with at most 20 decimal or 16 hexadecimal digits, which is enough for 64 bits. A table of the
-- database is the list of its rows, a directory the list of its files with their contents.
--
-- Parameters: the CBOR writer and reader (crate ciborium), SHA-256 (crate sha2), the file system's
-- canonicalize and exists, the exporter bytes of TLS, the X.509 parser, the JSON reader and writer (crate
-- serde_json), the clock, the free space, the watchers and their answers, the random numbers, and how many
-- bytes a read takes. What the daemon asks of the world may differ each time: it is a function of the
-- number of frames still to come. The timers that run are read off the actions: one that is started runs
-- until it is cancelled or fires, and a session's are over when its resources are released.
--
-- Not modelled: sockets and TLS; of the daemon the outbound side of handler.rs, the listener, the IPC and
-- the events for watchers; of the web server HTTP parsing and routing, ZIP archives, the expiry of a
-- share and the name that avoids a collision; configuration, discovery, the command line, the JNI bindings, the
-- loopback tool and the Android application; of messages.rs the display names `type_name`, of codec.rs the
-- unused `get_bool_opt`, of frame.rs the constructors of flags, of types.rs the Display texts and the
-- timeouts. Errors of the file system and of the database, integer overflow inside ciborium and memory
-- limits are outside the model.
pub mod Prelude
pub mod Common
pub mod Frame
pub mod ErrorCode
pub mod Codec
pub mod Path
pub mod Sas
pub mod Payload
pub mod Transport
pub mod Machine
pub mod Session
pub mod Transfer
pub mod Receiver
pub mod Sender
pub mod Identity
pub mod Storage
pub mod Daemon
pub mod Web
pub mod Tests
