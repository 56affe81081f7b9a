-- ===== src/Receiver/Empty.antt =====
-- A file of no bytes, which the receiver waits for in vain (crates/nxfr-daemon/src/receiver.rs).
use nxfr.Prelude.{
  ℕ, List, [], ◌∷◌, Option, none, some, Bool, true, false, not, ◌≡◌, ◌≢◌, refl, arith, ◌<◌, ◌+◌,
  ltb, ◌==◌, length, length-drop, take, drop, list_eq, if◌then◌else◌, Result, ok, err, Bool-cases,
  inl, inr, from_be_bytes, String,
}
use nxfr.Common.Errors.{CodecError}
use nxfr.Frame.{FrameHeader, FrameKind, control, chunk, keepalive}
use nxfr.Transport.Codec.{NxfrFrame}
use nxfr.Codec.Value.{Value}
use nxfr.Codec.Messages.{ControlMessage, transfer_cancel, session_close}
use nxfr.Receiver.{
  Job, Receiving, Turn, again, finished, failed, place_chunk, receive_chunk, receive_message,
  receive_kind, receive_frame, receive_loop, written, conclude, start_fresh, receive_file,
}

-- The loop goes on with no byte received, or has failed.
data IsWaiting : Turn → Type 0 where
  waits : (s : Receiving) → s.received_bytes ≡ 0 → IsWaiting (again s)
  stopped : (why : String) (removed : Bool) (s : Receiving) → IsWaiting (failed why removed s)

branch : (b : Bool) {x y : Turn} → IsWaiting x → IsWaiting y → IsWaiting (if b then x else y)
branch true h k = h
branch false h k = k

module _ (sha256 : List ℕ → List ℕ) (from_reader : List ℕ → Result CodecError Value) (job : Job)
    (nothing : job.expected_size ≡ 0) where
  place_chunk_waits :
      (header : FrameHeader) (offset : ℕ) (content : List ℕ) (s : Receiving)
      → s.received_bytes ≡ 0
      → 0 < length content
      → IsWaiting (place_chunk job header offset content s)
  unfolding place_chunk
  place_chunk_waits header offset content s none_yet some_byte =
      let too_long : ltb job.expected_size (s.received_bytes + length content) ≡ true =
        ground arith in
      let not_before : ltb offset s.received_bytes ≡ false = ground arith in
      rw (too_long, not_before)
        (branch (offset == s.received_bytes) (stopped _ _ _) (stopped _ _ _))

  receive_chunk_waits :
      (header : FrameHeader) (payload : List ℕ) (s : Receiving)
      → s.received_bytes ≡ 0
      → IsWaiting (receive_chunk job sha256 header payload s)
  unfolding receive_chunk
  receive_chunk_waits header payload s none_yet = elim (Bool-cases (ltb (length payload) 41)) [
    | inl short ↦
        rw short
          (branch (not (header.stream_id == job.stream_id)) (waits s none_yet) (waits s none_yet))
    | inr long ↦
        let some_byte : 0 < length (drop 40 payload) =
          let len = length-drop 40 payload in ground arith in
        rw long (
          branch (not (header.stream_id == job.stream_id)) (waits s none_yet) (
            branch (not (list_eq (take 32 (drop 8 payload)) (sha256 (drop 40 payload))))
              (stopped _ _ _)
              (place_chunk_waits header (from_be_bytes (take 8 payload)) (drop 40 payload) s
                none_yet some_byte)))
  ]

  receive_message_waits :
      (r : Result CodecError ControlMessage) (s : Receiving)
      → s.received_bytes ≡ 0
      → IsWaiting (receive_message job sha256 from_reader r s)
  receive_message_waits (err e) s h = stopped _ _ s
  receive_message_waits (ok (transfer_cancel id reason)) s h = stopped _ _ s
  receive_message_waits (ok (session_close reason)) s h = stopped _ _ s
  receive_message_waits (ok other) s h = waits s h

  receive_kind_waits :
      (kind : FrameKind) (header : FrameHeader) (payload : List ℕ) (s : Receiving)
      → s.received_bytes ≡ 0
      → IsWaiting (receive_kind job sha256 from_reader kind header payload s)
  receive_kind_waits chunk header payload s h = receive_chunk_waits header payload s h
  receive_kind_waits control header payload s h = receive_message_waits _ s h
  receive_kind_waits keepalive header payload s h = waits s h

  receive_frame_waits :
      (f : NxfrFrame) (s : Receiving)
      → s.received_bytes ≡ 0
      → IsWaiting (receive_frame job sha256 from_reader f s)
  unfolding receive_frame
  receive_frame_waits (header, payload) s h = receive_kind_waits header.kind header payload s h

  -- The loop does not finish.
  data HasFailed : Turn → Type 0 where
    gone : (why : String) (removed : Bool) (s : Receiving) → HasFailed (failed why removed s)

  go_on :
      (turn : Turn) (fs : List NxfrFrame)
      → IsWaiting turn
      → ((s : Receiving)
          → s.received_bytes ≡ 0
          → HasFailed (receive_loop job sha256 from_reader fs s))
      → HasFailed (elim turn [
        | again t ↦ receive_loop job sha256 from_reader fs t
        | finished t ↦ finished t
        | failed why removed t ↦ failed why removed t
      ])
  go_on _ fs (waits s h) rest = rest s h
  go_on _ fs (stopped why removed s) rest = gone why removed s

  loop_fails :
      (fs : List NxfrFrame) (s : Receiving)
      → s.received_bytes ≡ 0
      → HasFailed (receive_loop job sha256 from_reader fs s)
  unfolding receive_loop
  loop_fails [] s h = gone _ _ s
  loop_fails (f ∷ fs) s h = go_on _ fs (receive_frame_waits f s h) (λ t k. loop_fails fs t k)

  failed-ne-written :
      (turn : Turn) (content : List ℕ) → HasFailed turn → conclude sha256 job turn ≢ written content
  unfolding conclude
  failed-ne-written _ content (gone why removed s) e = cc

  -- A file that is announced with no bytes, and that the journal does not know, is never put in its place,
  -- whatever frames come: every chunk of the stream is one that exceeds the size, and the loop tests for the
  -- end only after a chunk.
  pub empty_file_stuck :
      (found : Option (List ℕ)) (frames : List NxfrFrame) (content : List ℕ)
      → receive_file sha256 from_reader job none found frames ≢ written content
  unfolding receive_file
  empty_file_stuck none frames content =
      failed-ne-written _ content (loop_fails frames (start_fresh none) refl)
  empty_file_stuck (some part) frames content =
      failed-ne-written _ content (loop_fails frames (start_fresh none) refl)
