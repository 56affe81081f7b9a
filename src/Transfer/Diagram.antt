-- ===== src/Transfer/Diagram.antt =====
-- The transition table of docs/PROTOCOL.md, section 11.3, as a relation, against the code. The trigger of a
-- row is the event of the code that stands for it.
use nxfr.Prelude.{
  ◌&&◌, ◌||◌, not, List, [], ◌∷◌, ◌≡◌, refl, Bool, true, false, ok, err, arith, ◌↔◌, any, ◌||◌,
}
use nxfr.Common.Errors.{StateError, invalid_transition}
use nxfr.Transfer.{
  TransferState, TransferEvent, TransferAction, idle, offered, pending, negotiating, streaming,
  paused, completing, complete, cancelled, failed, consent, negotiation, chunk_ack, pause,
  completion, send_transfer_request, receive_transfer_request, user_accept, user_reject,
  receive_transfer_accept, receive_transfer_reject, all_metadata_acked, all_files_rejected,
  pause_received, resume_received, last_chunk_sent, all_chunks_received, cancel_received, ack_sent,
  ack_success, ack_partial_failure, checksum_mismatch, disk_full, connection_lost, fatal_error,
  timer_fired, is_active, is_terminal, is_break, transfer_handle_event, state_name, event_name,
  send_error, notify_user, cleanup_partial_files, preserve_resume_state, send_cancel,
}

-- The events of a row, where it has several.
pub data FailsNegotiation : TransferEvent → Type 0 where
  all_rejected : FailsNegotiation all_files_rejected
  negotiation_timeout : FailsNegotiation (timer_fired negotiation)

pub data FailsStream : TransferEvent → Type 0 where
  bad_chunk : FailsStream checksum_mismatch
  no_space : FailsStream disk_full

pub data EndsStream : TransferEvent → Type 0 where
  sent_last : EndsStream last_chunk_sent
  received_all : EndsStream all_chunks_received

pub data Confirms : TransferEvent → Type 0 where
  peer_confirms : Confirms ack_success
  confirmed : Confirms ack_sent

pub data FailsCompletion : TransferEvent → Type 0 where
  partial_failure : FailsCompletion ack_partial_failure
  bad_file : FailsCompletion checksum_mismatch
  completion_timeout : FailsCompletion (timer_fired completion)

pub data Breaks : TransferEvent → Type 0 where
  fatal : Breaks fatal_error
  lost : Breaks connection_lost

-- `Transition s e t`: the document has a row from `s` to `t` whose trigger is `e`; the last two rows are
-- from any active state.
pub data Transition : TransferState → TransferEvent → TransferState → Type 0 where
  offers : Transition idle send_transfer_request offered
  is_offered : Transition idle receive_transfer_request pending
  accepts : Transition pending user_accept negotiating
  rejects : Transition pending user_reject cancelled
  is_accepted : Transition offered receive_transfer_accept negotiating
  is_rejected : Transition offered receive_transfer_reject cancelled
  offer_expires : Transition offered (timer_fired consent) failed
  starts : Transition negotiating all_metadata_acked streaming
  fails_negotiation : {e : TransferEvent} → FailsNegotiation e → Transition negotiating e failed
  pauses : Transition streaming pause_received paused
  ends_stream : {e : TransferEvent} → EndsStream e → Transition streaming e completing
  fails_stream : {e : TransferEvent} → FailsStream e → Transition streaming e failed
  resumes : Transition paused resume_received streaming
  pause_expires : Transition paused (timer_fired pause) failed
  confirms : {e : TransferEvent} → Confirms e → Transition completing e complete
  fails_completion : {e : TransferEvent} → FailsCompletion e → Transition completing e failed
  cancels : {s : TransferState} → is_active s ≡ true → Transition s cancel_received cancelled
  breaks :
      {s : TransferState} {e : TransferEvent}
      → is_active s ≡ true
      → Breaks e
      → Transition s e failed

-- What the code has beyond the table: the consent timer of the receiving side, and the timer of an
-- acknowledgement.
pub data IsAdded : TransferState → TransferEvent → TransferState → Type 0 where
  pending_expires : IsAdded pending (timer_fired consent) failed
  chunk_timeout : IsAdded streaming (timer_fired chunk_ack) failed

-- A step by a row of the table, or one that was added.
pub data Follows (s : TransferState) (e : TransferEvent) (t : TransferState) : Type 0 where
  by_table : Transition s e t → Follows s e t
  beside_table : IsAdded s e t → Follows s e t

ruleset rows = (
  by_table, beside_table, offers, is_offered, accepts, rejects, is_accepted, is_rejected,
  offer_expires, pending_expires, starts, fails_negotiation, all_rejected, negotiation_timeout,
  pauses, ends_stream, sent_last, received_all, fails_stream, bad_chunk, no_space, chunk_timeout,
  resumes, pause_expires, confirms, peer_confirms, confirmed, fails_completion, partial_failure,
  bad_file, completion_timeout, cancels, breaks, fatal, lost,
)

Follows-of_step :
    (s t : TransferState) (e : TransferEvent) (acts : List TransferAction)
    → transfer_handle_event s e ≡ ok (t, acts)
    → Follows s e t
unfolding transfer_handle_event
Follows-of_step s t e acts h = grind (arith, rows)

abbrev Leads : TransferState → TransferEvent → TransferState → Type 0
Leads s e t = (acts : List TransferAction) × (transfer_handle_event s e ≡ ok (t, acts))

abbrev loss_actions : List TransferAction
loss_actions =
    preserve_resume_state ∷ notify_user "Transfer failed due to error or connection loss" ∷ []

module _ (s : TransferState) (active : is_active s ≡ true) where
  cancel-Leads : Leads s cancel_received cancelled
  unfolding transfer_handle_event
  cancel-Leads =
      (send_cancel ∷ cleanup_partial_files ∷ notify_user "Transfer cancelled" ∷ [], ground arith)

  break-Leads : (e : TransferEvent) → Breaks e → Leads s e failed
  unfolding transfer_handle_event
  break-Leads _ fatal = (loss_actions, ground arith)
  break-Leads _ lost = (loss_actions, ground arith)

step-of_Transition : (s t : TransferState) (e : TransferEvent) → Transition s e t → Leads s e t
unfolding transfer_handle_event
step-of_Transition _ _ _ offers = (_, refl)
step-of_Transition _ _ _ (fails_negotiation all_rejected) = (_, refl)
step-of_Transition _ _ _ (fails_negotiation negotiation_timeout) = (_, refl)
step-of_Transition _ _ _ (ends_stream sent_last) = (_, refl)
step-of_Transition _ _ _ (ends_stream received_all) = (_, refl)
step-of_Transition _ _ _ (fails_stream bad_chunk) = (_, refl)
step-of_Transition _ _ _ (fails_stream no_space) = (_, refl)
step-of_Transition _ _ _ (confirms peer_confirms) = (_, refl)
step-of_Transition _ _ _ (confirms confirmed) = (_, refl)
step-of_Transition _ _ _ (fails_completion partial_failure) = (_, refl)
step-of_Transition _ _ _ (fails_completion bad_file) = (_, refl)
step-of_Transition _ _ _ (fails_completion completion_timeout) = (_, refl)
step-of_Transition s _ _ (cancels active) = cancel-Leads s active
step-of_Transition s _ e (breaks active b) = break-Leads s active e b
step-of_Transition _ _ _ _ = (_, refl)

step-of_Follows : (s t : TransferState) (e : TransferEvent) → Follows s e t → Leads s e t
unfolding transfer_handle_event
step-of_Follows s t e (by_table r) = step-of_Transition s t e r
step-of_Follows _ _ _ (beside_table pending_expires) = (_, refl)
step-of_Follows _ _ _ (beside_table chunk_timeout) = (_, refl)

-- The code against the table of the protocol: an event is accepted in a state, and leads to `t`, exactly if
-- the table has such a row, or if it is one of two additions, which both end in the failed state: the
-- consent timer of a pending offer, and the timer of an acknowledgement while streaming.
pub transfer_step_iff :
    (s t : TransferState) (e : TransferEvent)
    → ((acts : List TransferAction) × (transfer_handle_event s e ≡ ok (t, acts))) ↔ Follows s e t
transfer_step_iff s t e = (λ (acts, h). Follows-of_step s t e acts h, step-of_Follows s t e)

-- A refused event is reported with the names of the state and the event, and the code follows no row for it.
pub transfer_refusal :
    (s : TransferState) (e : TransferEvent) (x : StateError)
    → transfer_handle_event s e ≡ err x
    → (x ≡ invalid_transition (state_name s) (event_name e))
      × ((t : TransferState) → ¬ Follows s e t)
unfolding transfer_handle_event
transfer_refusal s e x h = (ground arith, λ t r. cc (h, (step-of_Follows s t e r).1))

abbrev pub tells : TransferAction → Bool
tells (notify_user m) = true
tells (send_error c) = true
tells _ = false

abbrev pub preserves : TransferAction → Bool
preserves preserve_resume_state = true
preserves _ = false

abbrev pub streams : TransferState → Bool
streams streaming = true
streams paused = true
streams _ = false

abbrev pub is_failed : TransferState → Bool
is_failed failed = true
is_failed _ = false

-- No transfer ends silently: a step into a terminal state notifies the user or sends an error. And the
-- resume state is preserved exactly by the steps into the failed state that leave the streaming or the
-- paused state, or that a fatal error or a lost connection causes.
pub ending_actions :
    (s t : TransferState) (e : TransferEvent) (acts : List TransferAction)
    → transfer_handle_event s e ≡ ok (t, acts)
    → ((not (is_terminal t) || any tells acts) ≡ true)
      × (any preserves acts ≡ (is_failed t && (streams s || is_break e)))
unfolding transfer_handle_event is_terminal
ending_actions s t e acts h = (ground arith, ground arith)
