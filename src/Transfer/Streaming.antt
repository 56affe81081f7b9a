-- ===== src/Transfer/Streaming.antt =====
-- When chunks may be sent, and that nothing starts before the transfer was accepted.
use nxfr.Prelude.{List, [], ◌∷◌, ◌++◌, ◌≡◌, refl, Bool, true, false, ok, arith}
use nxfr.Machine.{replay, replay_induction}
use nxfr.Transfer.{
  TransferState, TransferEvent, TransferAction, idle, offered, pending, negotiating, streaming,
  paused, begin_chunk_transmission, stop_chunk_transmission, resume_chunk_transmission,
  transfer_handle_event,
}

-- A reader of the actions: chunks flow from the begin or a resumption to the next stop.
abbrev pub flows : Bool → List TransferAction → Bool
flows on [] = on
flows on (begin_chunk_transmission ∷ as') = flows true as'
flows on (resume_chunk_transmission ∷ as') = flows true as'
flows on (stop_chunk_transmission ∷ as') = flows false as'
flows on (_ ∷ as') = flows on as'

flows-append :
    (xs ys : List TransferAction) (on : Bool) → flows on (xs ++ ys) ≡ flows (flows on xs) ys
flows-append [] ys on = refl
flows-append (begin_chunk_transmission ∷ xs) ys on = flows-append xs ys true
flows-append (resume_chunk_transmission ∷ xs) ys on = flows-append xs ys true
flows-append (stop_chunk_transmission ∷ xs) ys on = flows-append xs ys false
flows-append (_ ∷ xs) ys on = flows-append xs ys on

-- What the state says of the flow: on in the streaming state, off before it and in a pause.
abbrev pub Agrees : Bool → TransferState → Type 0
Agrees on streaming = on ≡ true
Agrees on idle = on ≡ false
Agrees on offered = on ≡ false
Agrees on pending = on ≡ false
Agrees on negotiating = on ≡ false
Agrees on paused = on ≡ false
Agrees on _ = Unit {0}

step-Agrees :
    (s t : TransferState) (e : TransferEvent) (acts : List TransferAction) (on : Bool)
    → transfer_handle_event s e ≡ ok (t, acts)
    → Agrees on s
    → Agrees (flows on acts) t
unfolding transfer_handle_event
step-Agrees s t e acts on h a = ground arith

-- After any accepted events from the start, chunks flow in the streaming state, and they do not flow
-- before it or while the transfer is paused.
pub flow_follows_state :
    (es : List TransferEvent) (s : TransferState) (acts : List TransferAction)
    → replay transfer_handle_event idle es ≡ ok (s, acts)
    → Agrees (flows false acts) s
flow_follows_state es s acts h =
    replay_induction transfer_handle_event
      (λ s es u acts. (on : Bool) → Agrees on s → Agrees (flows on acts) u) (λ s on a. a)
      (λ s t u e es now more first ih on a.
        rw (flows-append now more on) (ih (flows on now) (step-Agrees s t e now on first a)))
      es idle s acts h false refl
