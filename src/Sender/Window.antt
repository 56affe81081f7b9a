-- ===== src/Sender/Window.antt =====
-- The whole of a call of `send_file` or `send_file_resume` (crates/nxfr-daemon/src/sender.rs).
use nxfr.Prelude.{
  ℕ, zero, suc, ◌-◌, ◌<◌, ◌≤◌, ◌≡◌, ◌≢◌, refl, arith, List, Bool, ltb, length, Result, Bool-cases,
  inl, inr,
}
use nxfr.Common.Errors.{CodecError}
use nxfr.Transport.Codec.{NxfrFrame}
use nxfr.Codec.Value.{Value}
use nxfr.Sender.{
  max_in_flight, Sending, exhausted, send_chunk, end_of, send_piece, send_round, send_loop,
  send_all, start_at, send_file, send_file_resume,
}
use nxfr.Sender.Rounds.{
  Ends, well, Ends-then, Ends-weaken, Ends-ne-exhausted, IsWindowed, IsPaced, Logged, chunks_out,
  acks_in, await_acks-Cleared,
}

-- The window was kept, and as many acknowledgements have come as chunks were sent.
pub record Settled (from_reader : List ℕ → Result CodecError Value) (s : Sending) : Type 0 where
  pub windowed : IsWindowed from_reader s.wire
  pub settled : chunks_out from_reader s.wire ≡ acks_in from_reader s.wire

module _ (from_reader : List ℕ → Result CodecError Value) (sha256 : List ℕ → List ℕ)
    (session stream : ℕ) (file_data : List ℕ) where
  pub send_piece-IsPaced :
      (s : Sending)
      → IsPaced from_reader s
      → s.in_flight < max_in_flight
      → IsPaced from_reader (send_piece from_reader sha256 session stream file_data s)
  unfolding send_piece send_chunk
  send_piece-IsPaced s v room = record {
    counted = let c = v.counted in omega arith;
    windowed = (let c = v.counted in omega arith, v.windowed);
  }

  -- A round moves the offset on, not past the end.
  record Advanced (s t : Sending) : Type 0 where
    paced : IsPaced from_reader t
    further : s.offset < t.offset
    within : t.offset ≤ length file_data

  module _ (skip : ℕ → ℕ → Bool) where
    send_round_advances :
        (s : Sending)
        → IsPaced from_reader s
        → s.offset < length file_data
        → Ends
            (Advanced s)
            (Logged from_reader)
            (send_round from_reader sha256 session stream file_data skip s)
    unfolding send_round send_piece send_chunk
    send_round_advances s v more =
        elim (Bool-cases (
          skip s.offset (end_of from_reader sha256 session stream file_data s.offset - s.offset))) [
            | inl e ↦ rw e (
                well _ (record {
                  paced = record { counted = v.counted; windowed = v.windowed };
                  further = omega arith;
                  within = omega arith;
                }))
            | inr e ↦ rw e (
                Ends-then
                  (await_acks-Cleared from_reader max_in_flight s.incoming s (omega arith) v)
                  (λ t c. well _ (record {
                    paced = send_piece-IsPaced t c.waited.paced c.few;
                    further = let o = c.waited.same_offset in omega arith;
                    within = omega arith;
                  })))
          ]

    send_loop-Ends :
        (fuel : ℕ) (s : Sending)
        → IsPaced from_reader s
        → s.offset ≤ length file_data
        → length file_data - s.offset < fuel
        → Ends
            (IsPaced from_reader)
            (Logged from_reader)
            (send_loop from_reader sha256 session stream file_data skip fuel s)
    unfolding send_loop
    send_loop-Ends zero s v fits enough = absurd (omega arith)
    send_loop-Ends (suc fuel) s v fits enough =
        elim (Bool-cases (ltb s.offset (length file_data))) [
          | inl e ↦
              rw (send_loop, e)
                (Ends-then (send_round_advances s v (ground arith)) (λ t a.
                  send_loop-Ends fuel t a.paced a.within (let f = a.further in omega arith)))
          | inr e ↦ rw (send_loop, e) (well s v)
        ]

    send_all-Ends :
        (s : Sending)
        → IsPaced from_reader s
        → s.offset ≡ 0
        → Ends
            (Settled from_reader)
            (Logged from_reader)
            (send_all from_reader sha256 session stream file_data skip s)
    unfolding send_all
    send_all-Ends s v begun =
        Ends-then (send_loop-Ends (suc (length file_data)) s v (omega arith) (omega arith)) (λ t p.
          Ends-weaken from_reader
            (λ u c. record {
              windowed = c.waited.paced.windowed;
              settled = let n = c.waited.paced.counted in let few = c.few in omega arith;
            })
            (await_acks-Cleared from_reader 1 t.incoming t (omega arith) p))

  pub start-IsPaced :
      (acked message : ℕ) (frames : List NxfrFrame)
      → IsPaced from_reader
          (start_at from_reader sha256 session stream file_data acked message frames)
  start-IsPaced acked message frames = record { counted = refl; windowed = tt }

  send_file-Ends :
      (message : ℕ) (frames : List NxfrFrame)
      → Ends
          (Settled from_reader)
          (Logged from_reader)
          (send_file from_reader sha256 session stream file_data message frames)
  unfolding send_file
  send_file-Ends message frames = send_all-Ends _ _ (start-IsPaced 0 message frames) refl

  send_file_resume-Ends :
      (skip_ranges : List (ℕ × ℕ)) (message : ℕ) (frames : List NxfrFrame)
      → Ends
          (Settled from_reader)
          (Logged from_reader)
          (send_file_resume from_reader sha256 session stream file_data skip_ranges message frames)
  unfolding send_file_resume
  send_file_resume-Ends skip_ranges message frames =
      send_all-Ends _ _ (start-IsPaced _ message frames) refl

  -- Whatever frames come, and whatever ranges are to be skipped, the two calls end: the rounds given to
  -- their loop, one more than the file has bytes, do not run out.
  pub sending_terminates :
      (skip_ranges : List (ℕ × ℕ)) (message : ℕ) (frames : List NxfrFrame)
      → (send_file from_reader sha256 session stream file_data message frames ≢ exhausted)
        × (send_file_resume from_reader sha256 session stream file_data skip_ranges message frames
            ≢ exhausted)
  sending_terminates skip_ranges message frames = (
    Ends-ne-exhausted (send_file-Ends message frames),
    Ends-ne-exhausted (send_file_resume-Ends skip_ranges message frames),
  )

  -- In both calls, whether they succeed or fail, there are at no time more than eight chunks sent above the
  -- number of CHUNK_ACKs that have come by then, whichever chunk these name; and when the calls succeed, just
  -- as many CHUNK_ACKs have come as chunks were sent.
  pub window_kept :
      (skip_ranges : List (ℕ × ℕ)) (message : ℕ) (frames : List NxfrFrame)
      → Ends
          (Settled from_reader)
          (Logged from_reader)
          (send_file from_reader sha256 session stream file_data message frames)
        × Ends (Settled from_reader) (Logged from_reader) (
            send_file_resume from_reader sha256 session stream file_data skip_ranges message frames)
  window_kept skip_ranges message frames =
      (send_file-Ends message frames, send_file_resume-Ends skip_ranges message frames)
