-- ===== src/Transfer/Complete.antt =====
-- Which sequences of events complete a transfer: a description without states, against the code.
use nxfr.Prelude.{
  ℕ, zero, suc, List, [], ◌∷◌, ◌++◌, ◌≡◌, refl, ap, ok, arith, ◌⊎◌, inl, inr, ◌↔◌, sym, ◌∙◌,
}
use nxfr.Machine.{replay}
use nxfr.Transfer.{
  TransferState, TransferEvent, TransferAction, idle, offered, pending, negotiating, streaming,
  paused, completing, complete, user_accept, receive_transfer_accept, all_metadata_acked,
  resume_received, transfer_handle_event,
}
use nxfr.Transfer.Diagram.{EndsStream, Confirms}
use nxfr.Transfer.Converse.{streaming-Completes, opening-Completes}
use nxfr.Transfer.Runs.{
  Opens, as_sender, as_receiver, pauses, IsCompleteRun, Completes, first_step, no_step, dead_end,
  complete_ends, from_idle, from_offered, from_pending, from_negotiating, from_streaming,
  from_paused, from_completing,
}

-- From the states on the way, what is left to happen.
record Ends (es : List TransferEvent) : Type 0 where
  acknowledgement : TransferEvent
  confirms : Confirms acknowledgement
  events : es ≡ acknowledgement ∷ []

record Streams (es : List TransferEvent) : Type 0 where
  interruptions : ℕ
  last : TransferEvent
  acknowledgement : TransferEvent
  ends : EndsStream last
  confirms : Confirms acknowledgement
  events : es ≡ pauses interruptions ++ last ∷ acknowledgement ∷ []

completing_run : (es : List TransferEvent) → Completes completing es → Ends es
completing_run [] c = absurd (cc (no_step completing c))
completing_run (e ∷ es) c =
    let (t, st, rest) = first_step completing e es c in
    elim (from_completing e t st) [
      | inl (k, same) ↦ record {
        acknowledgement = e;
        confirms = k;
        events = ap (λ r. e ∷ r) (complete_ends es (rw same at rest));
      }
      | inr d ↦ absurd (dead_end t es d rest)
    ]

paused_run :
    (e : TransferEvent) (es : List TransferEvent)
    → Completes paused (e ∷ es)
    → (e ≡ resume_received) × Completes streaming es
paused_run e es c =
    let (t, st, rest) = first_step paused e es c in
    elim (from_paused e t st) [
      | inl (k, same) ↦ (k, rw same at rest)
      | inr d ↦ absurd (dead_end t es d rest)
    ]

streaming_run : (es : List TransferEvent) → Completes streaming es → Streams es
streaming_run [] c = absurd (cc (no_step streaming c))
streaming_run (e ∷ []) c =
    let (t, st, rest) = first_step streaming e [] c in
    absurd (ground (arith, from_streaming e t st, no_step t rest))
streaming_run (e ∷ e' ∷ es) c =
    let (t, st, rest) = first_step streaming e (e' ∷ es) c in
    elim (from_streaming e t st) [
      | inl (k, same) ↦
          let r = completing_run (e' ∷ es) (rw same at rest) in
          record {
            interruptions = zero;
            last = e;
            acknowledgement = r.acknowledgement;
            ends = k;
            confirms = r.confirms;
            events = ap (λ r'. e ∷ r') r.events;
          }
      | inr (inl (p, same)) ↦
          let (q, rest') = paused_run e' es (rw same at rest) in
          let r = streaming_run es rest' in
          record {
            interruptions = suc r.interruptions;
            last = r.last;
            acknowledgement = r.acknowledgement;
            ends = r.ends;
            confirms = r.confirms;
            events = cc (p, q, r.events);
          }
      | inr (inr d) ↦ absurd (dead_end t (e' ∷ es) d rest)
    ]

negotiating_run :
    (e : TransferEvent) (es : List TransferEvent)
    → Completes negotiating (e ∷ es)
    → (e ≡ all_metadata_acked) × Streams es
negotiating_run e es c =
    let (t, st, rest) = first_step negotiating e es c in
    elim (from_negotiating e t st) [
      | inl (k, same) ↦ (k, streaming_run es (rw same at rest))
      | inr d ↦ absurd (dead_end t es d rest)
    ]

-- From the answer on: either side waits for its own event.
answered :
    (s : TransferState) (a e : TransferEvent) (es : List TransferEvent)
    → ((s ≡ offered) × (a ≡ receive_transfer_accept)) ⊎ ((s ≡ pending) × (a ≡ user_accept))
    → Completes s (e ∷ es)
    → (e ≡ a) × Completes negotiating es
answered s a e es (inl (p, q)) c =
    let (t, st, rest) = first_step offered e es (rw p at c) in
    elim (from_offered e t st) [
      | inl (k, same) ↦ (k ∙ sym q, rw same at rest)
      | inr d ↦ absurd (dead_end t es d rest)
    ]
answered s a e es (inr (p, q)) c =
    let (t, st, rest) = first_step pending e es (rw p at c) in
    elim (from_pending e t st) [
      | inl (k, same) ↦ (k ∙ sym q, rw same at rest)
      | inr d ↦ absurd (dead_end t es d rest)
    ]

opened :
    (r a : TransferEvent) (s : TransferState) (e : TransferEvent) (es : List TransferEvent)
    → Opens r a
    → ((s ≡ offered) × (a ≡ receive_transfer_accept)) ⊎ ((s ≡ pending) × (a ≡ user_accept))
    → Completes s (a ∷ e ∷ es)
    → IsCompleteRun (r ∷ a ∷ e ∷ es)
opened r a s e es o w c =
    let (same, rest) = answered s a a (e ∷ es) w c in
    let (acked, f) = negotiating_run e es rest in
    record {
      request = r;
      answer = a;
      interruptions = f.interruptions;
      last = f.last;
      acknowledgement = f.acknowledgement;
      opens = o;
      ends = f.ends;
      confirms = f.confirms;
      events = cc (acked, f.events);
    }

idle_run : (es : List TransferEvent) → Completes idle es → IsCompleteRun es
idle_run [] c = absurd (cc (no_step idle c))
idle_run (r ∷ []) c =
    let (t, st, rest) = first_step idle r [] c in
    absurd (ground (arith, from_idle r t st, no_step t rest))
idle_run (r ∷ e ∷ es) c =
    let (t, st, rest) = first_step idle r (e ∷ es) c in
    elim (from_idle r t st) [
      | inl (k, same) ↦
          after r receive_transfer_accept t e es (rw k as_sender) (inl (same, refl)) rest
      | inr (k, same) ↦ after r user_accept t e es (rw k as_receiver) (inr (same, refl)) rest
    ]
  where
    after :
        (r a : TransferEvent) (s : TransferState) (e : TransferEvent) (es : List TransferEvent)
        → Opens r a
        → ((s ≡ offered) × (a ≡ receive_transfer_accept)) ⊎ ((s ≡ pending) × (a ≡ user_accept))
        → Completes s (e ∷ es)
        → IsCompleteRun (r ∷ e ∷ es)
    after r a s e [] o w c = absurd (cc (no_step negotiating (answered s a e [] w c).1))
    after r a s e (e' ∷ es) o w c =
        let (same, rest) = answered s a e (e' ∷ es) w c in
        rw same (opened r a s e' es o w (rw same at c))

-- A sequence of events is accepted and completes the transfer exactly if it is a request and its
-- acceptance, the acknowledged metadata, any number of pauses that are resumed, the end of the
-- stream, and its confirmation, in this order and nothing else.
pub complete_iff :
    (es : List TransferEvent)
    → ((acts : List TransferAction) × (replay transfer_handle_event idle es ≡ ok (complete, acts)))
      ↔ IsCompleteRun es
complete_iff es = (
  idle_run es,
  λ r. rw r.events (
      opening-Completes r.request r.answer _ r.opens
        (streaming-Completes r.interruptions r.last r.acknowledgement r.ends r.confirms)),
)
