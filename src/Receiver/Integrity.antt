-- ===== src/Receiver/Integrity.antt =====
-- What holds of a received file and of the acknowledgements, whatever frames come
-- (crates/nxfr-daemon/src/receiver.rs).
use nxfr.Prelude.{
  ◌≡◌, refl, String, arith, ◌≤◌, All, All-append, Bool-cases, inl, inr, list_eq→eq, ==→eq, &&→both,
  length-append, ℕ, List, [], ◌∷◌, Option, none, some, Bool, true, false, not, ◌&&◌, ◌||◌, ltb, leb,
  ◌==◌, ◌+◌, length, take, drop, list_eq, if◌then◌else◌, Result, ok, err, from_be_bytes,
}
use mathlib.Core.Path.{subst}
use nxfr.Common.Errors.{CodecError}
use nxfr.Frame.{FrameHeader, FrameKind, control, chunk, keepalive, is_last_chunk}
use nxfr.Transport.Codec.{NxfrFrame}
use nxfr.Codec.Value.{Value}
use nxfr.Codec.Messages.{ControlMessage, chunk_ack, transfer_cancel, session_close}
use nxfr.Codec.Decode.{decode_control}
use nxfr.Receiver.{
  Job, Receiving, Turn, again, finished, failed, send, append_data, acknowledge, place_chunk,
  receive_chunk, receive_message, receive_kind, receive_frame, receive_loop, written, gave_up,
  Ending, conclude, start_from, resume_file, receive_file, begin_file, has_partial,
}

-- An acknowledgement names bytes among the first `n`.
abbrev pub IsWithin : ℕ → ControlMessage → Type 0
IsWithin n (chunk_ack stream message offset len) = offset + len ≤ n
IsWithin n _ = Unit {0}

-- The `.part` file holds what was counted and hashed, and nothing else was acknowledged.
pub record IsSound (s : Receiving) : Type 0 where
  pub counted : length s.part ≡ s.received_bytes
  pub hashed_same : s.part ≡ s.hashed
  pub acknowledged : All (IsWithin s.received_bytes) s.sent

abbrev pub state_of : Turn → Receiving
state_of (again s) = s
state_of (finished s) = s
state_of (failed why removed s) = s

-- The bytes of the file that a call leaves on the disk: in its place, or in the `.part` file for later.
pub data Leaves : Ending → List ℕ → Type 0 where
  in_place : (content : List ℕ) → Leaves (written content) content
  for_later : (why : String) (part : List ℕ) → Leaves (gave_up why (some part)) part

record Keeps (t : Turn) : Type 0 where
  state_sound : IsSound (state_of t)

keep : (t : Turn) → IsSound (state_of t) → Keeps t
keep t v = record { state_sound = v }

branch-Keeps : (b : Bool) {x y : Turn} → Keeps x → Keeps y → Keeps (if b then x else y)
branch-Keeps true h k = h
branch-Keeps false h k = k

IsWithin-add : (n m : ℕ) (msg : ControlMessage) → IsWithin n msg → IsWithin (n + m) msg
IsWithin-add n m (chunk_ack stream message offset len) h = omega arith
IsWithin-add n m _ h = tt

All-IsWithin :
    (n m : ℕ) (msgs : List ControlMessage) → All (IsWithin n) msgs → All (IsWithin (n + m)) msgs
All-IsWithin n m [] h = tt
All-IsWithin n m (msg ∷ msgs) h = (IsWithin-add n m msg h.0, All-IsWithin n m msgs h.1)

send-IsSound :
    (s : Receiving) (msg : ControlMessage)
    → IsSound s
    → IsWithin s.received_bytes msg
    → IsSound (send msg s)
send-IsSound s msg v h = record {
  counted = v.counted;
  hashed_same = v.hashed_same;
  acknowledged = All-append (IsWithin s.received_bytes) s.sent (msg ∷ []) v.acknowledged (h, tt);
}

append_data-IsSound :
    (s : Receiving) (content : List ℕ) → IsSound s → IsSound (append_data s content)
append_data-IsSound s content v = record {
  counted = omega (arith, length-append s.part content, v.counted);
  hashed_same = rw v.hashed_same refl;
  acknowledged = All-IsWithin s.received_bytes (length content) s.sent v.acknowledged;
}

module _ (job : Job) where
  acknowledge_sound :
      (header : FrameHeader) (offset len : ℕ) (s : Receiving)
      → IsSound s
      → offset + len ≤ s.received_bytes
      → Keeps (acknowledge job header offset len s)
  unfolding acknowledge
  acknowledge_sound header offset len s v h =
      let w = send-IsSound s (chunk_ack job.stream_id header.message_id offset len) v h in
      branch-Keeps (is_last_chunk header.flags || (s.received_bytes == job.expected_size))
        (keep (finished _) w) (keep (again _) w)

  place_chunk_sound :
      (header : FrameHeader) (offset : ℕ) (content : List ℕ) (s : Receiving)
      → IsSound s
      → Keeps (place_chunk job header offset content s)
  unfolding place_chunk
  place_chunk_sound header offset content s v = elim (Bool-cases (offset == s.received_bytes)) [
    | inl next ↦ rw next (
        branch-Keeps (ltb job.expected_size (s.received_bytes + length content))
          (keep (failed _ _ _) (send-IsSound s _ v tt))
          (acknowledge_sound header offset (length content) (append_data s content)
            (append_data-IsSound s content v)
            (let same = ==→eq offset s.received_bytes next in omega arith)))
    | inr other ↦ rw other (
        branch-Keeps (ltb offset s.received_bytes)
          (elim (Bool-cases (leb (offset + length content) s.received_bytes)) [
            | inl known ↦
                rw known (acknowledge_sound header offset (length content) s v (ground arith))
            | inr overlaps ↦ rw overlaps (keep (failed _ _ _) (send-IsSound s _ v tt))
          ])
          (keep (failed _ _ _) (send-IsSound s _ v tt)))
  ]

  module _ (sha256 : List ℕ → List ℕ) (from_reader : List ℕ → Result CodecError Value) where
    receive_message_sound :
        (r : Result CodecError ControlMessage) (s : Receiving)
        → IsSound s
        → Keeps (receive_message job sha256 from_reader r s)
    receive_message_sound (err e) s v = keep (failed _ _ _) v
    receive_message_sound (ok (transfer_cancel id reason)) s v = keep (failed _ _ _) v
    receive_message_sound (ok (session_close reason)) s v = keep (failed _ _ _) v
    receive_message_sound (ok _) s v = keep (again s) v

    receive_kind_sound :
        (k : FrameKind) (header : FrameHeader) (payload : List ℕ) (s : Receiving)
        → IsSound s
        → Keeps (receive_kind job sha256 from_reader k header payload s)
    unfolding receive_chunk
    receive_kind_sound chunk header payload s v =
        branch-Keeps (not (header.stream_id == job.stream_id)) (keep (again s) v) (
          branch-Keeps (ltb (length payload) 41) (keep (again s) v) (
            branch-Keeps (not (list_eq (take 32 (drop 8 payload)) (sha256 (drop 40 payload))))
              (keep (failed _ _ _) (send-IsSound s _ v tt))
              (place_chunk_sound header (from_be_bytes (take 8 payload)) (drop 40 payload) s v)))
    receive_kind_sound control header payload s v =
        receive_message_sound (decode_control from_reader payload) s v
    receive_kind_sound keepalive header payload s v = keep (again s) v

    receive_frame_sound :
        (f : NxfrFrame) (s : Receiving)
        → IsSound s
        → Keeps (receive_frame job sha256 from_reader f s)
    unfolding receive_frame
    receive_frame_sound f s v = receive_kind_sound (f.0.kind) f.0 f.1 s v

    next_turn_sound :
        (fs : List NxfrFrame) (t : Turn)
        → ((s : Receiving) → IsSound s → Keeps (receive_loop job sha256 from_reader fs s))
        → Keeps t
        → Keeps (elim t [
          | again u ↦ receive_loop job sha256 from_reader fs u
          | finished u ↦ finished u
          | failed why removed u ↦ failed why removed u
        ])
    next_turn_sound fs (again u) ih v = ih u v.state_sound
    next_turn_sound fs (finished u) ih v = v
    next_turn_sound fs (failed why removed u) ih v = v

    receive_loop_sound :
        (fs : List NxfrFrame) (s : Receiving)
        → IsSound s
        → Keeps (receive_loop job sha256 from_reader fs s)
    unfolding receive_loop
    receive_loop_sound [] s v = keep (failed _ _ s) v
    receive_loop_sound (f ∷ fs) s v =
        next_turn_sound fs (receive_frame job sha256 from_reader f s) (receive_loop_sound fs)
          (receive_frame_sound f s v)

    loop-IsSound :
        (journal : Option ℕ) (part : List ℕ) (frames : List NxfrFrame)
        → IsSound (state_of (receive_loop job sha256 from_reader frames (start_from journal part)))
    loop-IsSound journal part frames =
        (receive_loop_sound frames (start_from journal part)
          (record { counted = refl; hashed_same = refl; acknowledged = tt })).state_sound

    conclude_verified :
        (t : Turn) (content : List ℕ)
        → IsSound (state_of t)
        → conclude sha256 job t ≡ written content
        → (sha256 content ≡ job.expected_hash) × (length content ≡ job.expected_size)
    unfolding conclude
    conclude_verified (again s) content v e = cc
    conclude_verified (failed why removed s) content v e = cc
    conclude_verified (finished s) content v e =
        let same : s.part ≡ content = ground arith in
        let hash : list_eq (sha256 s.hashed) job.expected_hash ≡ true = ground arith in
        let size : s.received_bytes ≡ job.expected_size = ground arith in
        (
          cc (list_eq→eq (sha256 s.hashed) job.expected_hash hash, v.hashed_same, same),
          cc (v.counted, size, same),
        )

    resume_file_verified :
        (journal : Option ℕ) (part : List ℕ) (frames : List NxfrFrame) (content : List ℕ)
        → resume_file sha256 from_reader job journal part frames ≡ written content
        → (sha256 content ≡ job.expected_hash) × (length content ≡ job.expected_size)
    unfolding resume_file
    resume_file_verified journal part frames content e =
        elim (Bool-cases
          (length part == job.expected_size && list_eq (sha256 part) job.expected_hash)) [
            | inl there ↦
                let (len, hash) = &&→both (length part == job.expected_size) _ there in
                let same : part ≡ content = cc (rw there at e) in
                (
                  cc (same, list_eq→eq (sha256 part) job.expected_hash hash),
                  cc (same, ==→eq (length part) job.expected_size len),
                )
            | inr missing ↦
                conclude_verified _ content (loop-IsSound journal part frames) (rw missing at e)
          ]

    begin_file_verified :
        (journal : Option ℕ) (found : Option (List ℕ)) (frames : List NxfrFrame) (partial : Bool)
        (content : List ℕ)
        → begin_file sha256 from_reader job journal found frames partial ≡ written content
        → (sha256 content ≡ job.expected_hash) × (length content ≡ job.expected_size)
    begin_file_verified journal (some part) frames true content e =
        resume_file_verified journal part frames content e
    begin_file_verified journal (some part) frames false content e =
        conclude_verified _ content (loop-IsSound journal [] frames) e
    begin_file_verified journal none frames partial content e =
        conclude_verified _ content (loop-IsSound journal [] frames) e

    -- Whatever frames come, and whatever `.part` file and journal there are: a file that is put in its
    -- place has the announced hash and the announced size.
    pub receive_file_verified :
        (journal : Option ℕ) (found : Option (List ℕ)) (frames : List NxfrFrame) (content : List ℕ)
        → receive_file sha256 from_reader job journal found frames ≡ written content
        → (sha256 content ≡ job.expected_hash) × (length content ≡ job.expected_size)
    unfolding receive_file
    receive_file_verified journal found frames content e =
        begin_file_verified journal found frames (has_partial journal) content e

    stored_in :
        (s : Receiving) (content : List ℕ)
        → IsSound s
        → s.part ≡ content
        → All (IsWithin (length content)) s.sent × (content ≡ s.hashed)
    stored_in s content v same = (
      subst (λ (n : ℕ). All (IsWithin n) s.sent) (cc (v.counted, same)) v.acknowledged,
      cc (v.hashed_same, same),
    )

    end_stored :
        (s : Receiving) (right_hash right_size : Bool) (left : List ℕ)
        → IsSound s
        → Leaves
            (if not right_hash
              then gave_up "whole-file hash mismatch" none
              else if not right_size
              then gave_up "file size mismatch" none
              else written s.part)
            left
        → All (IsWithin (length left)) s.sent × (left ≡ s.hashed)
    end_stored s false right_size left v h = elim h [ ]
    end_stored s true false left v h = elim h [ ]
    end_stored s true true _ v (in_place content) = stored_in s s.part v refl

    left_stored :
        (t : Turn) (left : List ℕ)
        → IsSound (state_of t)
        → Leaves (conclude sha256 job t) left
        → All (IsWithin (length left)) (state_of t).sent × (left ≡ (state_of t).hashed)
    unfolding conclude
    left_stored (again s) _ v (for_later why part) = stored_in s s.part v refl
    left_stored (failed why true s) left v h = elim h [ ]
    left_stored (failed why false s) _ v (for_later _ part) = stored_in s s.part v refl
    left_stored (finished s) left v h =
        end_stored s (list_eq (sha256 s.hashed) job.expected_hash)
          (s.received_bytes == job.expected_size) left v h

    -- Whatever frames come: the file that the loop and the checks after it leave, in its place or as a
    -- `.part` file for later, has every byte that a CHUNK_ACK of the loop names, and its bytes are those
    -- that went into the hash. Where the `.part` file is removed, nothing is said.
    pub acks_are_stored :
        (journal : Option ℕ) (part : List ℕ) (frames : List NxfrFrame) (left : List ℕ)
        → Leaves
            (conclude sha256 job
              (receive_loop job sha256 from_reader frames (start_from journal part)))
            left
        → All
            (IsWithin (length left))
            (state_of (receive_loop job sha256 from_reader frames (start_from journal part))).sent
          × (left
              ≡ (state_of
                  (receive_loop job sha256 from_reader frames (start_from journal part))).hashed)
    acks_are_stored journal part frames left =
        left_stored (receive_loop job sha256 from_reader frames (start_from journal part)) left
          (loop-IsSound journal part frames)
