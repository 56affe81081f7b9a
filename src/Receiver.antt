-- ===== src/Receiver.antt =====
-- crates/nxfr-daemon/src/receiver.rs: `receive_file`, which takes the chunks of one file off the
-- connection into a `.part` file, checks them and the whole, and renames it. Frames come as a list, and
-- its end is the error of `recv_frame`. Each write, sync and send is taken to succeed, since a failed one
-- ends the call at once. SHA-256 (`sha256`) and the CBOR reader (`from_reader`) are arguments.
pub mod Integrity
pub mod Delivery
pub mod Empty
pub mod Collision
use nxfr.Prelude.{
  ℕ, String, List, [], ◌∷◌, ◌++◌, Option, none, some, Bool, true, false, not, ◌&&◌, ◌||◌, ltb, leb,
  ◌==◌, ◌+◌, ◌%◌, ◌^◌, length, take, drop, list_eq, if◌then◌else◌, Result, ok, err, from_be_bytes,
}
use nxfr.Common.Errors.{CodecError}
use nxfr.ErrorCode.{ErrorCode, checksum_mismatch, invalid_frame}
use nxfr.Frame.{FrameHeader, FrameKind, control, chunk, keepalive, is_last_chunk}
use nxfr.Transport.Codec.{NxfrFrame}
use nxfr.Codec.Value.{Value}
use nxfr.Codec.Messages.{ControlMessage, error, chunk_ack, transfer_cancel, session_close}
use nxfr.Codec.Decode.{decode_control}

-- What the sender has announced of the file.
pub record Job : Type 0 where
  pub stream_id : ℕ
  pub expected_size : ℕ
  pub expected_hash : List ℕ

-- The `.part` file, the count of its bytes, what the hasher was fed, what the journal notes of the file
-- (if it knows the file), and the messages sent.
pub record Receiving : Type 0 where
  pub part : List ℕ
  pub received_bytes : ℕ
  pub hashed : List ℕ
  pub journal : Option ℕ
  pub sent : List ControlMessage

-- How a turn of the loop ends: with the next turn, after the loop, or with an error; `removed` says that
-- the `.part` file is deleted.
pub data Turn : Type 0 where
  again : Receiving → Turn
  finished : Receiving → Turn
  failed : (why : String) (removed : Bool) → Receiving → Turn

abbrev pub send : ControlMessage → Receiving → Receiving
send msg s = record s { sent = s.sent ++ (msg ∷ []) }

-- An ERROR message, and the end. The numbers in the texts of two of the messages are left out.
abbrev pub refuse : ErrorCode → (message why : String) → Bool → Receiving → Turn
refuse code message why removed s =
    failed why removed (send (error code (some message) true none) s)

-- `if let Some(fs) = resume_state.files.get_mut(&file_id)`
abbrev pub note : Option ℕ → ℕ → Option ℕ
note none n = none
note (some old) n = some n

abbrev pub append_data : Receiving → List ℕ → Receiving
append_data s content = record s {
  part = s.part ++ content;
  received_bytes = s.received_bytes + length content;
  hashed = s.hashed ++ content;
  journal = note s.journal (s.received_bytes + length content);
}

module _ (job : Job) where
  -- The acknowledgement, and the test for the end.
  unfoldable pub acknowledge : FrameHeader → ℕ → ℕ → Receiving → Turn
  acknowledge header offset len s =
      let t = send (chunk_ack job.stream_id header.message_id offset len) s in
      if is_last_chunk header.flags || (s.received_bytes == job.expected_size)
      then finished t
      else again t

  -- The chunk is the next one, a repeated one, one that overlaps, or one behind a gap.
  unfoldable pub place_chunk : FrameHeader → ℕ → List ℕ → Receiving → Turn
  unfolding acknowledge
  place_chunk header offset content s =
      if offset == s.received_bytes
      then if ltb job.expected_size (s.received_bytes + length content)
        then refuse invalid_frame "chunk exceeds expected file size"
            "chunk exceeds expected file size" true s
        else acknowledge header offset (length content) (append_data s content)
      else if ltb offset s.received_bytes
      then if leb (offset + length content) s.received_bytes
        then acknowledge header offset (length content) s
        else refuse invalid_frame "overlapping chunk offset" "overlapping chunk offset" false s
      else refuse invalid_frame "gap in chunk stream" "out-of-order chunk received" false s

  module _ (sha256 : List ℕ → List ℕ) where
    unfoldable pub receive_chunk : FrameHeader → List ℕ → Receiving → Turn
    unfolding place_chunk
    receive_chunk header payload s =
        if not (header.stream_id == job.stream_id)
        then again s
        else if ltb (length payload) 41
        then again s
        else if not (list_eq (take 32 (drop 8 payload)) (sha256 (drop 40 payload)))
        then refuse checksum_mismatch "chunk hash mismatch at offset" "chunk hash mismatch" true s
        else place_chunk header (from_be_bytes (take 8 payload)) (drop 40 payload) s

    module _ (from_reader : List ℕ → Result CodecError Value) where
      abbrev pub receive_message : Result CodecError ControlMessage → Receiving → Turn
      receive_message (err e) s = failed "codec error" false s
      receive_message (ok (transfer_cancel id reason)) s = failed "transfer cancelled" true s
      receive_message (ok (session_close reason)) s = failed "session closed during receive" false s
      receive_message (ok other) s = again s

      -- One turn of the loop.
      abbrev pub receive_kind : FrameKind → FrameHeader → List ℕ → Receiving → Turn
      receive_kind chunk header payload s = receive_chunk header payload s
      receive_kind control header payload s = receive_message (decode_control from_reader payload) s
      receive_kind keepalive header payload s = again s

      unfoldable pub receive_frame : NxfrFrame → Receiving → Turn
      receive_frame (header, payload) s = receive_kind header.kind header payload s

      unfoldable pub receive_loop : List NxfrFrame → Receiving → Turn
      receive_loop [] s = failed "connection closed" false s
      receive_loop (f ∷ fs) s = elim (receive_frame f s) [
        | again t ↦ receive_loop fs t
        | finished t ↦ finished t
        | failed why removed t ↦ failed why removed t
      ]

-- How the call ends: with the file that is renamed to its place, or with an error and what is left of
-- the `.part` file.
pub data Ending : Type 0 where
  written : List ℕ → Ending
  gave_up : (why : String) → Option (List ℕ) → Ending

-- The checks after the loop.
unfoldable pub conclude : (List ℕ → List ℕ) → Job → Turn → Ending
conclude sha256 job (again s) = gave_up "connection closed" (some s.part)
conclude sha256 job (failed why removed s) = gave_up why (if removed then none else some s.part)
conclude sha256 job (finished s) =
    if not (list_eq (sha256 s.hashed) job.expected_hash)
    then gave_up "whole-file hash mismatch" none
    else if not (s.received_bytes == job.expected_size)
    then gave_up "file size mismatch" none
    else written s.part

-- The journal knows of bytes of the file.
abbrev pub has_partial : Option ℕ → Bool
has_partial none = false
has_partial (some n) = ltb 0 n

abbrev pub start_fresh : Option ℕ → Receiving
start_fresh journal = record {
  part = [];
  received_bytes = 0;
  hashed = [];
  journal = journal;
  sent = [];
}

abbrev pub start_from : Option ℕ → List ℕ → Receiving
start_from journal part = record {
  part = part;
  received_bytes = length part;
  hashed = part;
  journal = journal;
  sent = [];
}

module _ (sha256 : List ℕ → List ℕ) (from_reader : List ℕ → Result CodecError Value)
    (job : Job) where
  -- From a `.part` file that is to be resumed.
  unfoldable pub resume_file : Option ℕ → List ℕ → List NxfrFrame → Ending
  resume_file journal part frames =
      if length part == job.expected_size && list_eq (sha256 part) job.expected_hash
      then written part
      else conclude sha256 job
          (receive_loop job sha256 from_reader frames (start_from journal part))

  abbrev pub begin_file : Option ℕ → Option (List ℕ) → List NxfrFrame → Bool → Ending
  begin_file journal (some part) frames true = resume_file journal part frames
  begin_file journal found frames _ =
      conclude sha256 job (receive_loop job sha256 from_reader frames (start_fresh journal))

  -- `found` is the `.part` file, where it exists.
  unfoldable pub receive_file : Option ℕ → Option (List ℕ) → List NxfrFrame → Ending
  receive_file journal found frames = begin_file journal found frames (has_partial journal)
