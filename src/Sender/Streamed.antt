-- ===== src/Sender/Streamed.antt =====
-- The frames that `send_file` puts on the connection, and when it succeeds
-- (crates/nxfr-daemon/src/sender.rs).
use nxfr.Prelude.{
  ℕ, zero, suc, ◌-◌, ◌<◌, ◌≤◌, ◌≡◌, refl, arith, ◌∙◌, sym, List, [], ◌++◌, append_assoc, append-nil,
  nil_of_length, ltb, length, length-drop, drop, Result, Bool-cases, inl, inr,
}
use nxfr.Common.Errors.{CodecError}
use nxfr.Transport.Codec.{NxfrFrame}
use nxfr.Codec.Value.{Value}
use nxfr.Payload.Chunk
use nxfr.Receiver.{Job}
use nxfr.Receiver.Delivery.{frames_of}
use nxfr.Sender.{
  max_in_flight, Sending, send_chunk, end_of, send_piece, send_round, send_loop, send_all, start_at,
  nothing_skipped, send_file,
}
use nxfr.Sender.Rounds.{
  Ends, well, Ends-then, Ends-weaken, frames_sent, IsPaced, Logged, Cleared, await_acks-Cleared,
}
use nxfr.Sender.Window.{start-IsPaced, send_piece-IsPaced}
use nxfr.Sender.Pieces.{cut, cut-nonempty, chunk-take, rest-drop, length-chunk, flag-last}

module _ (from_reader : List ℕ → Result CodecError Value) (sha256 : List ℕ → List ℕ) (session : ℕ)
    (job : Job) (file_data : List ℕ) where
  abbrev pub stream : ℕ
  stream = job.stream_id

  -- The frames of what follows an offset.
  abbrev frames_from : ℕ → ℕ → ℕ → List NxfrFrame
  frames_from n message offset =
      frames_of sha256 job session message offset (cut n (drop offset file_data))

  abbrev piece : Sending → Sending
  piece = send_piece from_reader sha256 session stream file_data

  -- The frame of a chunk is that of the piece.
  piece_frame :
      (n : ℕ) (s : Sending)
      → s.offset < length file_data
      → length file_data - end_of from_reader sha256 session stream file_data s.offset < n
      → frames_sent (piece s).wire ++ frames_from n (piece s).next_message_id (piece s).offset
        ≡ frames_sent s.wire ++ frames_from (suc n) s.next_message_id s.offset
  unfolding send_piece send_chunk frames_of Chunk.serialize
  piece_frame n s more enough =
      let content = chunk-take file_data s.offset more in
      let rest = rest-drop file_data s.offset more in
      let len = length-chunk file_data s.offset more in
      let flag = flag-last file_data s.offset more n enough in
      let some_left = length-drop s.offset file_data in
      append_assoc (frames_sent s.wire) _ _
      ∙ rw (cut-nonempty n (drop s.offset file_data) (omega arith), content, len, ← rest, flag) refl

  -- Nothing follows the end of the file.
  none_follow :
      (n message offset : ℕ) → length file_data ≤ offset → frames_from (suc n) message offset ≡ []
  unfolding frames_of cut
  none_follow n message offset over =
      let nothing =
        nil_of_length (drop offset file_data) (omega (arith, length-drop offset file_data)) in
      rw nothing refl

  pub record Streamed (frames : List NxfrFrame) (t : Sending) : Type 0 where
    pub sent : frames_sent t.wire ≡ frames
    pub paced : IsPaced from_reader t

  -- A round takes the next frame of those that are to be sent.
  record Rounded (n : ℕ) (s t : Sending) : Type 0 where
    paced : IsPaced from_reader t
    further : s.offset < t.offset
    within : t.offset ≤ length file_data
    same_frames :
        frames_sent t.wire ++ frames_from n t.next_message_id t.offset
        ≡ frames_sent s.wire ++ frames_from (suc n) s.next_message_id s.offset

  piece-Rounded :
      (n : ℕ) (s t : Sending)
      → s.offset < length file_data
      → length file_data - s.offset ≤ n
      → Cleared from_reader max_in_flight s t
      → Rounded n s (piece t)
  unfolding send_piece send_chunk
  piece-Rounded n s t more enough c =
      let w = c.waited in
      let same = w.same_offset in
      record {
        paced = send_piece-IsPaced from_reader sha256 session stream file_data t w.paced c.few;
        further = omega arith;
        within = omega arith;
        same_frames =
            piece_frame n t (omega arith) (omega arith)
            ∙ rw (w.same_offset, w.same_message, w.same_sent) refl;
      }

  send_loop_streams :
      (n : ℕ) (s : Sending)
      → IsPaced from_reader s
      → length file_data - s.offset < n
      → Ends
          (Streamed (frames_sent s.wire ++ frames_from n s.next_message_id s.offset))
          (Logged from_reader)
          (send_loop from_reader sha256 session stream file_data
            (nothing_skipped from_reader sha256 session stream file_data)
            n
            s)
  unfolding send_loop send_round
  send_loop_streams zero s v enough = absurd (omega arith)
  send_loop_streams (suc n) s v enough = elim (Bool-cases (ltb s.offset (length file_data))) [
    | inl e ↦
        rw (send_loop, e)
          (Ends-then
            (Ends-then {R = Rounded n s}
              (await_acks-Cleared from_reader max_in_flight s.incoming s (omega arith) v)
              (λ t c. well _ (piece-Rounded n s t (ground arith) (omega arith) c)))
            (λ t r.
              Ends-weaken from_reader
                (λ u h. record { sent = h.sent ∙ r.same_frames; paced = h.paced })
                (send_loop_streams n t r.paced (let f = r.further in omega arith))))
    | inr e ↦
        rw (send_loop, e)
          (well s (record {
            sent =
                rw (none_follow n s.next_message_id s.offset (ground arith))
                  (sym (append-nil (frames_sent s.wire)));
            paced = v;
          }))
  ]

  -- All the frames of a call.
  abbrev pub all_frames : ℕ → List NxfrFrame
  all_frames message =
      frames_of sha256 job session message 0 (cut (suc (length file_data)) file_data)

  pub send_file_streams :
      (message : ℕ) (frames : List NxfrFrame)
      → Ends
          (Streamed (all_frames message))
          (Logged from_reader)
          (send_file from_reader sha256 session stream file_data message frames)
  unfolding send_file send_all
  send_file_streams message frames =
      Ends-then
        (send_loop_streams (suc (length file_data))
          (start_at from_reader sha256 session stream file_data 0 message frames)
          (start-IsPaced from_reader sha256 session stream file_data 0 message frames)
          (omega arith))
        (λ t h.
          Ends-weaken from_reader
            (λ u c. record { sent = c.waited.same_sent ∙ h.sent; paced = c.waited.paced })
            (await_acks-Cleared from_reader 1 t.incoming t (omega arith) h.paced))
