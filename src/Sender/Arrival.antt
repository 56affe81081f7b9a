-- ===== src/Sender/Arrival.antt =====
-- A file that `send_file` sends, and `receive_file` receives (crates/nxfr-daemon/src/sender.rs and
-- crates/nxfr-daemon/src/receiver.rs).
use mathlib.Core.Path.{subst}
use nxfr.Prelude.{
  ℕ, zero, suc, ◌+◌, ◌-◌, ◌<◌, ◌≤◌, ◌≡◌, ◌≢◌, refl, arith, ◌∙◌, ap, List, [], ◌∷◌, All, Option,
  none, IsU64, true, false, ltb, leb, length, length-drop, drop, Result, ok, err, Bool-cases, inl,
  inr,
}
use nxfr.Common.Errors.{CodecError}
use nxfr.Frame.{FrameKind, control, chunk, keepalive}
use nxfr.Transport.Codec.{NxfrFrame}
use nxfr.Codec.Value.{Value}
use nxfr.Codec.Messages.{ControlMessage, chunk_ack}
use nxfr.Codec.Decode.{decode_control}
use nxfr.Receiver.{Job, written, receive_file}
use nxfr.Receiver.Delivery.{concat, HasContent, frames_of, file_delivered}
use nxfr.Sender.{
  max_in_flight, Sending, Outcome, ready, send_chunk, take_message, take_kind, take_frame,
  await_acks, send_piece, send_round, send_loop, send_all, start_at, nothing_skipped, send_file,
}
use nxfr.Sender.Rounds.{Ends, well, badly, frames_sent, is_ack, is_ack_message, is_ack_kind}
use nxfr.Sender.Pieces.{cut, concat-cut, cut-HasContent, cut-nonempty, rest-drop}
use nxfr.Sender.Streamed.{send_file_streams}

Ends-ready : {P Q : Sending → Type 0} {o : Outcome} {t : Sending} → Ends P Q o → o ≡ ready t → P t
Ends-ready {P} (well s h) e = subst P (cc) h
Ends-ready (badly why s h) e = cc

module _ (from_reader : List ℕ → Result CodecError Value) where
  -- Every frame that comes is an acknowledgement.
  abbrev pub AllAcks : List NxfrFrame → Type 0
  AllAcks = All (λ f. is_ack from_reader f ≡ true)

  take_ack :
      (r : Result CodecError ControlMessage) (s : Sending)
      → is_ack_message from_reader r ≡ true
      → (t : Sending) × (take_message from_reader r s ≡ ready t)
        × (t.in_flight ≡ s.in_flight - 1)
        × (t.offset ≡ s.offset)
  take_ack (err e) s h = cc
  take_ack (ok (chunk_ack stream message offset len)) s h = (_, refl, refl, refl)
  take_ack (ok other) s h = cc

  take_ack_kind :
      (kind : FrameKind) (payload : List ℕ) (s : Sending)
      → is_ack_kind from_reader kind payload ≡ true
      → (t : Sending) × (take_kind from_reader kind payload s ≡ ready t)
        × (t.in_flight ≡ s.in_flight - 1)
        × (t.offset ≡ s.offset)
  take_ack_kind control payload s h = take_ack (decode_control from_reader payload) s h
  take_ack_kind chunk payload s h = cc
  take_ack_kind keepalive payload s h = cc

  take_ack_frame :
      (f : NxfrFrame) (s : Sending)
      → is_ack from_reader f ≡ true
      → (t : Sending) × (take_frame from_reader f s ≡ ready t)
        × (t.in_flight ≡ s.in_flight - 1)
        × (t.offset ≡ s.offset)
  unfolding take_frame
  take_ack_frame (header, payload) s h = take_ack_kind header.kind payload _ h

  -- A wait ends if there are as many acknowledgements as chunks in flight.
  await_ready :
      (limit : ℕ) (fs : List NxfrFrame) (s : Sending)
      → AllAcks fs
      → 0 < limit
      → s.in_flight ≤ length fs
      → (t : Sending) × (await_acks from_reader limit fs s ≡ ready t)
        × (length t.incoming + s.in_flight ≡ length fs + t.in_flight)
        × AllAcks t.incoming
        × (t.offset ≡ s.offset)
        × (t.in_flight < limit)
  unfolding await_acks
  await_ready limit [] s acks some_room enough =
      let under : leb limit s.in_flight ≡ false = ground arith in
      (record s { incoming = [] }, rw (await_acks, under) refl, omega arith, tt, refl, omega arith)
  await_ready limit (f ∷ fs) s acks some_room enough = elim (Bool-cases (leb limit s.in_flight)) [
    | inl e ↦
        let (t, took, fewer, same) = take_ack_frame f s acks.0 in
        let (u, waits, used, left, same', few) =
          await_ready limit fs t acks.1 some_room (ground arith) in
        (u, rw (await_acks, e, took) waits, ground arith, left, same' ∙ same, few)
    | inr e ↦
        (record s { incoming = f ∷ fs }, rw (await_acks, e) refl, refl, acks, refl, ground arith)
  ]

  module _ (sha256 : List ℕ → List ℕ) (session : ℕ) (job : Job) (file_data : List ℕ) where
    -- How many chunks follow an offset.
    abbrev pub chunks_left : ℕ → ℕ → ℕ
    chunks_left n offset = length (cut n (drop offset file_data))

    abbrev whole_loop : ℕ → Sending → Outcome
    whole_loop =
        send_loop from_reader sha256 session job.stream_id file_data
          (nothing_skipped from_reader sha256 session job.stream_id file_data)

    abbrev next_piece : Sending → Sending
    next_piece = send_piece from_reader sha256 session job.stream_id file_data

    -- The acknowledgements suffice for what is in flight and what is to be sent.
    record Supplied (n : ℕ) (s : Sending) : Type 0 where
      acks : AllAcks s.incoming
      many : s.in_flight + chunks_left n s.offset ≤ length s.incoming

    piece-Supplied :
        (n : ℕ) (s t : Sending)
        → s.offset < length file_data
        → Supplied (suc n) s
        → length t.incoming + s.in_flight ≡ length s.incoming + t.in_flight
        → AllAcks t.incoming
        → t.offset ≡ s.offset
        → Supplied n (next_piece t) × (s.offset < (next_piece t).offset)
    unfolding send_piece send_chunk
    piece-Supplied n s t more v used left same =
        let some_left = length-drop s.offset file_data in
        let many = v.many in
        let count : chunks_left (suc n) s.offset ≡ suc (chunks_left n (next_piece t).offset) =
          rw
            (
              cut-nonempty n (drop s.offset file_data) (omega arith),
              same,
              rest-drop file_data s.offset more,
            )
            refl in
        (record { acks = left; many = omega arith }, omega arith)

    round_ready :
        (n : ℕ) (s : Sending)
        → s.offset < length file_data
        → Supplied (suc n) s
        → (t : Sending) × (send_round from_reader sha256 session job.stream_id file_data
              (nothing_skipped from_reader sha256 session job.stream_id file_data)
              s
            ≡ ready t)
          × Supplied n t
          × (s.offset < t.offset)
    unfolding send_round
    round_ready n s more v =
        let many = v.many in
        let (t, waits, used, left, same, few) =
          await_ready max_in_flight s.incoming s v.acks (omega arith) (omega arith) in
        let (supplied, further) = piece-Supplied n s t more v used left same in
        (next_piece t, rw waits refl, supplied, further)

    loop_ready :
        (n : ℕ) (s : Sending)
        → length file_data - s.offset < n
        → Supplied n s
        → (t : Sending) × (whole_loop n s ≡ ready t)
          × AllAcks t.incoming
          × (t.in_flight ≤ length t.incoming)
    unfolding send_loop
    loop_ready zero s enough v = absurd (omega arith)
    loop_ready (suc n) s enough v = elim (Bool-cases (ltb s.offset (length file_data))) [
      | inl e ↦
          let more : s.offset < length file_data = ground arith in
          let (t, round, supplied, further) = round_ready n s more v in
          let (u, loops, left, many) = loop_ready n t (omega arith) supplied in
          (u, rw (send_loop, e, round) loops, left, many)
      | inr e ↦ (s, rw (send_loop, e) refl, v.acks, let many = v.many in omega arith)
    ]

    -- With an acknowledgement for every chunk the call succeeds.
    all_acknowledged :
        (message : ℕ) (frames : List NxfrFrame)
        → AllAcks frames
        → chunks_left (suc (length file_data)) 0 ≤ length frames
        → (t : Sending) × (send_file from_reader sha256 session job.stream_id file_data message
              frames
            ≡ ready t)
    unfolding send_file send_all
    all_acknowledged message frames acks many =
        let (t, loops, left, few) =
          loop_ready (suc (length file_data))
            (start_at from_reader sha256 session job.stream_id file_data 0 message frames)
            (omega arith) (record { acks = acks; many = omega arith }) in
        let (u, waits, _, _, _, _) = await_ready 1 t.incoming t left (omega arith) few in
        (u, rw (loops, waits) refl)

    module _ (reader : List ℕ → Result CodecError Value)
        (width : (p : List ℕ) → length (sha256 p) ≡ 32) where
      received :
          (pieces : List (List ℕ)) (message : ℕ)
          → All HasContent pieces
          → pieces ≢ []
          → IsU64 job.expected_size
          → length (concat pieces) ≡ job.expected_size
          → sha256 (concat pieces) ≡ job.expected_hash
          → (found : Option (List ℕ))
          → receive_file sha256 reader job none found
              (frames_of sha256 job session message 0 pieces)
            ≡ written (concat pieces)
      received [] message some_bytes some_piece fits total hash found = absurd (some_piece refl)
      received (p ∷ ps) message some_bytes some_piece fits total hash found =
          file_delivered sha256 job session reader width p ps message found some_bytes fits total
            hash

      some_piece : 0 < length file_data → cut (suc (length file_data)) file_data ≢ []
      some_piece some_byte e = cc (cut-nonempty (length file_data) file_data some_byte)

      -- A file of one byte or more, with the size (below 2^64) and the hash that the receiver was told, which
      -- is sent by `send_file` while frames come that are all acknowledgements, at least one for each chunk
      -- of 1 MiB: the call succeeds, and the frames that it has sent, given to a `receive_file` whose journal
      -- does not know the file, put the file in its place as it was. A hash has 32 bytes.
      pub sent_file_arrives :
          (message : ℕ) (frames : List NxfrFrame) (found : Option (List ℕ))
          → 0 < length file_data
          → length file_data ≡ job.expected_size
          → IsU64 job.expected_size
          → sha256 file_data ≡ job.expected_hash
          → AllAcks frames
          → chunks_left (suc (length file_data)) 0 ≤ length frames
          → (t : Sending) × (send_file from_reader sha256 session job.stream_id file_data message
                frames
              ≡ ready t)
            × (receive_file sha256 reader job none found (frames_sent t.wire) ≡ written file_data)
      sent_file_arrives message frames found some_byte total fits hash acks many =
          let (t, sends) = all_acknowledged message frames acks many in
          let streamed =
            Ends-ready (send_file_streams from_reader sha256 session job file_data message frames)
              sends in
          let whole = concat-cut (suc (length file_data)) file_data (omega arith) in
          (
            t,
            sends,
            rw streamed.sent (
                received (cut (suc (length file_data)) file_data) message
                  (cut-HasContent (suc (length file_data)) file_data) (some_piece some_byte) fits
                  (rw whole total) (rw whole hash) found
                ∙ ap written whole),
          )
