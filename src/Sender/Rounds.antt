-- ===== src/Sender/Rounds.antt =====
-- The loops of the sender end, and never have more than eight chunks under way
-- (crates/nxfr-daemon/src/sender.rs).
use nxfr.Prelude.{
  ℕ, suc, ◌+◌, ◌<◌, ◌≤◌, ◌≡◌, ◌≢◌, refl, arith, ◌∙◌, String, List, [], ◌∷◌, ◌++◌, Bool, true, false,
  leb, if◌then◌else◌, Result, ok, err, Bool-cases, inl, inr,
}
use nxfr.Common.Errors.{CodecError}
use nxfr.Frame.{FrameKind, control, chunk, keepalive}
use nxfr.Transport.Codec.{NxfrFrame}
use nxfr.Codec.Value.{Value}
use nxfr.Codec.Messages.{ControlMessage, chunk_ack}
use nxfr.Codec.Decode.{decode_control}
use nxfr.Sender.{
  max_in_flight, Traffic, out, came, Sending, Outcome, ready, broken, exhausted, ◌then◌,
  take_message, take_kind, take_frame, await_acks,
}

-- What holds where a step ends well, and where it ends with an error; the rounds do not run out.
pub data Ends (P Q : Sending → Type 0) : Outcome → Type 0 where
  well : (s : Sending) → P s → Ends P Q (ready s)
  badly : (why : String) (s : Sending) → Q s → Ends P Q (broken why s)

pub Ends-then :
    {P Q R : Sending → Type 0} {next : Sending → Outcome} {o : Outcome}
    → Ends P Q o
    → ((s : Sending) → P s → Ends R Q (next s))
    → Ends R Q (o then next)
Ends-then (well s h) k = k s h
Ends-then (badly why s h) k = badly why s h

pub Ends-ne-exhausted : {P Q : Sending → Type 0} {o : Outcome} → Ends P Q o → o ≢ exhausted
Ends-ne-exhausted (well s h) e = cc
Ends-ne-exhausted (badly why s h) e = cc

-- The frames that were sent, in order.
abbrev pub frames_sent : List Traffic → List NxfrFrame
frames_sent [] = []
frames_sent (out f ∷ w) = frames_sent w ++ (f ∷ [])
frames_sent (came f ∷ w) = frames_sent w

module _ (from_reader : List ℕ → Result CodecError Value) where
  abbrev pub is_ack_message : Result CodecError ControlMessage → Bool
  is_ack_message (ok (chunk_ack stream message offset len)) = true
  is_ack_message _ = false

  abbrev pub is_ack_kind : FrameKind → List ℕ → Bool
  is_ack_kind control payload = is_ack_message (decode_control from_reader payload)
  is_ack_kind chunk payload = false
  is_ack_kind keepalive payload = false

  -- A CONTROL frame that holds a CHUNK_ACK.
  abbrev pub is_ack : NxfrFrame → Bool
  is_ack (header, payload) = is_ack_kind header.kind payload

  -- How many chunks were sent, and how many CHUNK_ACKs have come, whichever chunk they name.
  abbrev pub chunks_out : List Traffic → ℕ
  chunks_out [] = 0
  chunks_out (out f ∷ w) = suc (chunks_out w)
  chunks_out (came f ∷ w) = chunks_out w

  abbrev pub acks_in : List Traffic → ℕ
  acks_in [] = 0
  acks_in (out f ∷ w) = acks_in w
  acks_in (came f ∷ w) = let before = acks_in w in if is_ack f then suc before else before

  -- At no time were there more than eight chunks more than acknowledgements.
  abbrev pub IsWindowed : List Traffic → Type 0
  IsWindowed [] = Unit {0}
  IsWindowed (e ∷ w) = (chunks_out (e ∷ w) ≤ acks_in (e ∷ w) + max_in_flight) × IsWindowed w

  pub record IsPaced (s : Sending) : Type 0 where
    pub counted : s.in_flight + acks_in s.wire ≡ chunks_out s.wire
    pub windowed : IsWindowed s.wire

  -- After a wait that started at `s`.
  pub record Waited (s t : Sending) : Type 0 where
    pub paced : IsPaced t
    pub same_offset : t.offset ≡ s.offset
    pub same_message : t.next_message_id ≡ s.next_message_id
    pub same_sent : frames_sent t.wire ≡ frames_sent s.wire

  abbrev pub Logged : Sending → Type 0
  Logged s = IsWindowed s.wire

  chunks_out-le : (w : List Traffic) → IsWindowed w → chunks_out w ≤ acks_in w + max_in_flight
  chunks_out-le [] h = omega arith
  chunks_out-le (e ∷ w) h = h.0

  abbrev arrived : NxfrFrame → Sending → Sending
  arrived f s = record s { wire = came f ∷ s.wire }

  came-IsWindowed : (f : NxfrFrame) (w : List Traffic) → IsWindowed w → IsWindowed (came f ∷ w)
  came-IsWindowed f w h = let most = chunks_out-le w h in (ground arith, h)

  module _ (f : NxfrFrame) (s : Sending) (v : IsPaced s) where
    not_counted : is_ack f ≡ false → Waited s (arrived f s)
    not_counted e = record {
      paced = record { counted = rw e v.counted; windowed = came-IsWindowed f s.wire v.windowed };
      same_offset = refl;
      same_message = refl;
      same_sent = refl;
    }

    take_message_waits :
        (r : Result CodecError ControlMessage)
        → 0 < s.in_flight
        → is_ack f ≡ is_ack_message r
        → Ends (Waited s) Logged (take_message from_reader r (arrived f s))
    take_message_waits (err e) some_chunk h =
        badly "codec error" (arrived f s) (came-IsWindowed f s.wire v.windowed)
    take_message_waits (ok (chunk_ack stream message offset len)) some_chunk h = well _ (record {
      paced = record {
        counted = rw h (let c = v.counted in omega arith);
        windowed = came-IsWindowed f s.wire v.windowed;
      };
      same_offset = refl;
      same_message = refl;
      same_sent = refl;
    })
    take_message_waits (ok other) some_chunk h = well (arrived f s) (not_counted h)

  take_kind_waits :
      (kind : FrameKind) (f : NxfrFrame) (s : Sending)
      → IsPaced s
      → 0 < s.in_flight
      → f.0.kind ≡ kind
      → is_ack f ≡ is_ack_kind kind f.1
      → Ends (Waited s) Logged (take_kind from_reader kind f.1 (arrived f s))
  take_kind_waits control f s v some_chunk e h =
      take_message_waits f s v (decode_control from_reader f.1) some_chunk h
  take_kind_waits chunk f s v some_chunk e h = well (arrived f s) (not_counted f s v h)
  take_kind_waits keepalive f s v some_chunk e h = well (arrived f s) (not_counted f s v h)

  take_frame_waits :
      (f : NxfrFrame) (s : Sending)
      → IsPaced s
      → 0 < s.in_flight
      → Ends (Waited s) Logged (take_frame from_reader f s)
  unfolding take_frame
  take_frame_waits (header, payload) s v some_chunk =
      take_kind_waits header.kind (header, payload) s v some_chunk refl refl

  -- The wait ended with fewer than `limit` in flight.
  pub record Cleared (limit : ℕ) (s t : Sending) : Type 0 where
    pub waited : Waited s t
    pub few : t.in_flight < limit

  Cleared-after : (limit : ℕ) (s t u : Sending) → Waited s t → Cleared limit t u → Cleared limit s u
  Cleared-after limit s t u a b = record {
    waited = record {
      paced = b.waited.paced;
      same_offset = b.waited.same_offset ∙ a.same_offset;
      same_message = b.waited.same_message ∙ a.same_message;
      same_sent = b.waited.same_sent ∙ a.same_sent;
    };
    few = b.few;
  }

  pub Ends-weaken :
      {P R Q : Sending → Type 0} {o : Outcome}
      → ((s : Sending) → P s → R s)
      → Ends P Q o
      → Ends R Q o
  Ends-weaken k (well s h) = well s (k s h)
  Ends-weaken k (badly why s h) = badly why s h

  rest_kept :
      (fs : List NxfrFrame) (s : Sending) → IsPaced s → Waited s (record s { incoming = fs })
  rest_kept fs s v = record {
    paced = record { counted = v.counted; windowed = v.windowed };
    same_offset = refl;
    same_message = refl;
    same_sent = refl;
  }

  pub await_acks-Cleared :
      (limit : ℕ) (fs : List NxfrFrame) (s : Sending)
      → 0 < limit
      → IsPaced s
      → Ends (Cleared limit s) Logged (await_acks from_reader limit fs s)
  unfolding await_acks
  await_acks-Cleared limit [] s some_room v = elim (Bool-cases (leb limit s.in_flight)) [
    | inl e ↦ rw (await_acks, e) (badly "connection closed" _ v.windowed)
    | inr e ↦ rw (await_acks, e) (well _ (record { waited = rest_kept [] s v; few = ground arith }))
  ]
  await_acks-Cleared limit (f ∷ fs) s some_room v = elim (Bool-cases (leb limit s.in_flight)) [
    | inl e ↦
        rw (await_acks, e)
          (Ends-then (take_frame_waits f s v (ground arith)) (λ t w.
            Ends-weaken (λ u c. Cleared-after limit s t u w c)
              (await_acks-Cleared limit fs t some_room w.paced)))
    | inr e ↦
        rw (await_acks, e) (well _ (record { waited = rest_kept (f ∷ fs) s v; few = ground arith }))
  ]
