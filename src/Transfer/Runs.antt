-- ===== src/Transfer/Runs.antt =====
-- The sequences of events that complete a transfer.
use nxfr.Prelude.{ℕ, zero, suc, List, [], ◌∷◌, ◌++◌, ◌≡◌, refl, ok, arith, ◌⊎◌}
use nxfr.Machine.{replay, replay-First, replay-nil}
use nxfr.Transfer.{
  TransferState, TransferEvent, TransferAction, idle, offered, pending, negotiating, streaming,
  paused, completing, complete, cancelled, failed, send_transfer_request, receive_transfer_request,
  user_accept, receive_transfer_accept, all_metadata_acked, pause_received, resume_received,
  transfer_handle_event,
}
use nxfr.Transfer.Diagram.{EndsStream, sent_last, received_all, Confirms, peer_confirms, confirmed}

-- A sender offers and is accepted, or a receiver is offered a transfer and its user accepts.
pub data Opens : TransferEvent → TransferEvent → Type 0 where
  as_sender : Opens send_transfer_request receive_transfer_accept
  as_receiver : Opens receive_transfer_request user_accept

abbrev pub pauses : ℕ → List TransferEvent
pauses zero = []
pauses (suc n) = pause_received ∷ resume_received ∷ pauses n

pub record IsCompleteRun (es : List TransferEvent) : Type 0 where
  pub request : TransferEvent
  pub answer : TransferEvent
  pub interruptions : ℕ
  pub last : TransferEvent
  pub acknowledgement : TransferEvent
  pub opens : Opens request answer
  pub ends : EndsStream last
  pub confirms : Confirms acknowledgement
  pub events :
      es
      ≡ request
        ∷ answer
        ∷ all_metadata_acked
        ∷ (pauses interruptions ++ last ∷ acknowledgement ∷ [])

abbrev pub Completes : TransferState → List TransferEvent → Type 0
Completes s es =
    (acts : List TransferAction) × (replay transfer_handle_event s es ≡ ok (complete, acts))

abbrev pub IsDead : TransferState → Type 0
IsDead t = (t ≡ cancelled) ⊎ (t ≡ failed)

abbrev pub Steps : TransferState → TransferEvent → TransferState → Type 0
Steps s e t = (acts : List TransferAction) × (transfer_handle_event s e ≡ ok (t, acts))

-- One step of a run that completes.
pub first_step :
    (s : TransferState) (e : TransferEvent) (es : List TransferEvent)
    → Completes s (e ∷ es)
    → (t : TransferState) × Steps s e t × Completes t es
first_step s e es (acts, h) =
    let f = replay-First transfer_handle_event s complete e es acts h in
    (f.next, (f.now, f.step), (f.more, f.rest))

pub no_step : (s : TransferState) → Completes s [] → s ≡ complete
no_step s (acts, h) = (replay-nil transfer_handle_event s complete acts h).0

pub dead_end : (t : TransferState) (es : List TransferEvent) → IsDead t → Completes t es → ⊥
unfolding transfer_handle_event
dead_end t [] d c = ground (arith, no_step t c)
dead_end t (e ∷ es) d c = let (u, (acts, st), rest) = first_step t e es c in ground arith

pub complete_ends : (es : List TransferEvent) → Completes complete es → es ≡ []
unfolding transfer_handle_event
complete_ends [] c = refl
complete_ends (e ∷ es) c = let (u, (acts, st), rest) = first_step complete e es c in ground arith

pub from_idle :
    (e : TransferEvent) (t : TransferState)
    → Steps idle e t
    → ((e ≡ send_transfer_request) × (t ≡ offered))
      ⊎ ((e ≡ receive_transfer_request) × (t ≡ pending))
unfolding transfer_handle_event
from_idle e t (acts, h) = ground arith

pub from_offered :
    (e : TransferEvent) (t : TransferState)
    → Steps offered e t
    → ((e ≡ receive_transfer_accept) × (t ≡ negotiating)) ⊎ IsDead t
unfolding transfer_handle_event
from_offered e t (acts, h) = ground arith

pub from_pending :
    (e : TransferEvent) (t : TransferState)
    → Steps pending e t
    → ((e ≡ user_accept) × (t ≡ negotiating)) ⊎ IsDead t
unfolding transfer_handle_event
from_pending e t (acts, h) = ground arith

pub from_negotiating :
    (e : TransferEvent) (t : TransferState)
    → Steps negotiating e t
    → ((e ≡ all_metadata_acked) × (t ≡ streaming)) ⊎ IsDead t
unfolding transfer_handle_event
from_negotiating e t (acts, h) = ground arith

pub from_streaming :
    (e : TransferEvent) (t : TransferState)
    → Steps streaming e t
    → (EndsStream e × (t ≡ completing)) ⊎ ((e ≡ pause_received) × (t ≡ paused)) ⊎ IsDead t
unfolding transfer_handle_event
from_streaming e t (acts, h) = grind (arith, sent_last, received_all)

pub from_paused :
    (e : TransferEvent) (t : TransferState)
    → Steps paused e t
    → ((e ≡ resume_received) × (t ≡ streaming)) ⊎ IsDead t
unfolding transfer_handle_event
from_paused e t (acts, h) = ground arith

pub from_completing :
    (e : TransferEvent) (t : TransferState)
    → Steps completing e t
    → (Confirms e × (t ≡ complete)) ⊎ IsDead t
unfolding transfer_handle_event
from_completing e t (acts, h) = grind (arith, peer_confirms, confirmed)
