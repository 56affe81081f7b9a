-- ===== src/Sender.antt =====
-- crates/nxfr-daemon/src/sender.rs: `send_file` and `send_file_resume`, which stream a file in CHUNK
-- frames and keep at most eight of them unacknowledged, and the two calls of
-- crates/nxfr-transport/src/connection.rs that they make. The frames that `recv_frame` yields come as a
-- list, and its end is the closed connection; a send is taken to succeed, since a failed one ends the call
-- at once. Progress events and log lines are left out. SHA-256 and the CBOR reader are arguments.
pub mod Rounds
pub mod Window
pub mod Pieces
pub mod Streamed
pub mod Arrival
use nxfr.Prelude.{
  ℕ, zero, suc, ◌+◌, ◌-◌, ◌%◌, ◌^◌, String, List, [], ◌∷◌, ◌++◌, Bool, true, false, ◌&&◌, ltb, leb,
  ◌==◌, if◌then◌else◌, length, take, drop, any, Result, ok, err, to_be_bytes,
}
use Prim.Native.Nat.{min}
use nxfr.Common.Errors.{CodecError}
use nxfr.Frame.{FrameHeader, FrameKind, control, chunk, keepalive}
use nxfr.Transport.Codec.{NxfrFrame}
use nxfr.Codec.Value.{Value}
use nxfr.Codec.Messages.{ControlMessage, chunk_ack}
use nxfr.Codec.Decode.{decode_control}

abbrev pub max_in_flight : ℕ
max_in_flight = 8

-- 1 MiB
abbrev pub chunk_data_size : ℕ
chunk_data_size = 1_048_576

-- What passes on the connection.
pub data Traffic : Type 0 where
  out : NxfrFrame → Traffic
  came : NxfrFrame → Traffic

-- The variables of the call, the frames that are still to come, and the traffic, the last first.
pub record Sending : Type 0 where
  pub offset : ℕ
  pub in_flight : ℕ
  pub acked_bytes : ℕ
  pub next_message_id : ℕ
  pub incoming : List NxfrFrame
  pub wire : List Traffic

-- `exhausted` says that the rounds given to a loop have run out.
pub data Outcome : Type 0 where
  ready : Sending → Outcome
  broken : (why : String) → Sending → Outcome
  exhausted : Outcome

-- A step that follows if the last one went well.
infixl 5 ◌then◌
abbrev pub ◌then◌ : Outcome → (Sending → Outcome) → Outcome
ready s then next = next s
broken why s then next = broken why s
exhausted then next = exhausted

-- `NxfrConnection::send_chunk`
unfoldable pub send_chunk : ℕ → ℕ → ℕ → List ℕ → Sending → Sending
send_chunk session stream flags payload s = record s {
  next_message_id = (s.next_message_id + 1) % 2 ^ 64;
  wire =
      out (
        record {
          kind = chunk;
          flags = flags;
          session_id = session;
          stream_id = stream;
          message_id = s.next_message_id;
          payload_len = length payload % 2 ^ 32;
        },
        payload,
      )
      ∷ s.wire;
}

module _ (from_reader : List ℕ → Result CodecError Value) where
  abbrev pub take_message : Result CodecError ControlMessage → Sending → Outcome
  take_message (err e) s = broken "codec error" s
  take_message (ok (chunk_ack stream_id message_id offset len)) s =
      ready (record s { acked_bytes = (s.acked_bytes + len) % 2 ^ 64; in_flight = s.in_flight - 1 })
  take_message (ok other) s = ready s

  abbrev pub take_kind : FrameKind → List ℕ → Sending → Outcome
  take_kind control payload s = take_message (decode_control from_reader payload) s
  take_kind chunk payload s = ready s
  take_kind keepalive payload s = ready s

  -- One frame off the connection.
  unfoldable pub take_frame : NxfrFrame → Sending → Outcome
  take_frame (header, payload) s =
      take_kind header.kind payload (record s { wire = came (header, payload) ∷ s.wire })

  -- `while in_flight >= limit`
  unfoldable pub await_acks : ℕ → List NxfrFrame → Sending → Outcome
  await_acks limit [] s = elim (leb limit s.in_flight) [
    | true ↦ broken "connection closed" (record s { incoming = [] })
    | false ↦ ready (record s { incoming = [] })
  ]
  await_acks limit (f ∷ fs) s = elim (leb limit s.in_flight) [
    | true ↦ take_frame f s then λ t. await_acks limit fs t
    | false ↦ ready (record s { incoming = f ∷ fs })
  ]

  module _ (sha256 : List ℕ → List ℕ) (session stream : ℕ) (file_data : List ℕ) where
    abbrev pub end_of : ℕ → ℕ
    end_of offset = min (offset + chunk_data_size) (length file_data)

    abbrev pub chunk_data : ℕ → List ℕ
    chunk_data offset = take (end_of offset - offset) (drop offset file_data)

    abbrev pub chunk_payload : ℕ → List ℕ
    chunk_payload offset = to_be_bytes 8 offset ++ (sha256 (chunk_data offset) ++ chunk_data offset)

    abbrev pub chunk_flags : ℕ → ℕ
    chunk_flags offset = if end_of offset == length file_data then 1 else 0

    unfoldable pub send_piece : Sending → Sending
    send_piece s =
        let t = send_chunk session stream (chunk_flags s.offset) (chunk_payload s.offset) s in
        record t { in_flight = s.in_flight + 1; offset = end_of s.offset }

    module _ (skip : ℕ → ℕ → Bool) where
      -- One round of the loop: the chunk is skipped, or sent when the window has room for it.
      unfoldable pub send_round : Sending → Outcome
      send_round s =
          if skip s.offset (end_of s.offset - s.offset)
          then ready (record s { offset = end_of s.offset })
          else (await_acks max_in_flight s.incoming s then λ t. ready (send_piece t))

      unfoldable pub send_loop : ℕ → Sending → Outcome
      send_loop zero s = exhausted
      send_loop (suc fuel) s = elim (ltb s.offset (length file_data)) [
        | true ↦ send_round s then λ t. send_loop fuel t
        | false ↦ ready s
      ]

      -- The loop and the wait for the last acknowledgements.
      unfoldable pub send_all : Sending → Outcome
      send_all s = send_loop (suc (length file_data)) s then λ t. await_acks 1 t.incoming t

    abbrev pub start_at : ℕ → ℕ → List NxfrFrame → Sending
    start_at acked message frames = record {
      offset = 0;
      in_flight = 0;
      acked_bytes = acked;
      next_message_id = message;
      incoming = frames;
      wire = [];
    }

    -- The same loop, with no chunk skipped.
    abbrev pub nothing_skipped : ℕ → ℕ → Bool
    nothing_skipped offset len = false

    unfoldable pub send_file : ℕ → List NxfrFrame → Outcome
    send_file message frames = send_all nothing_skipped (start_at 0 message frames)

    abbrev pub covered : List (ℕ × ℕ) → ℕ → ℕ → Bool
    covered skip_ranges offset len =
        any (λ r. leb r.0 offset && leb (offset + len) ((r.0 + r.1) % 2 ^ 64)) skip_ranges

    -- `skip_ranges.iter().map(|(_, len)| len).sum()`
    abbrev pub pre_received : List (ℕ × ℕ) → ℕ
    pre_received [] = 0
    pre_received (r ∷ rs) = (r.1 + pre_received rs) % 2 ^ 64

    unfoldable pub send_file_resume : List (ℕ × ℕ) → ℕ → List NxfrFrame → Outcome
    send_file_resume skip_ranges message frames =
        send_all (covered skip_ranges) (start_at (pre_received skip_ranges) message frames)
