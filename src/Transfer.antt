-- ===== src/Transfer.antt =====
-- crates/nxfr-core/src/transfer.rs: the transfer state machine, a pure step from a state and an event
-- to a state and actions.
pub mod Diagram
pub mod Timers
pub mod Runs
pub mod Converse
pub mod Complete
pub mod Streaming
mod Names
unfoldable pub use Names.*
use nxfr.Prelude.{
  String, List, [], ◌∷◌, Bool, true, false, ◌&&◌, ◌||◌, if◌then◌else◌, Result, ok, err,
}
use nxfr.Common.Errors.{StateError, invalid_transition}

pub data TransferAction : Type 0 where
  send_request display_consent_ui send_accept send_reject : TransferAction
  begin_metadata_exchange begin_chunk_transmission stop_chunk_transmission : TransferAction
  resume_chunk_transmission send_complete send_ack send_cancel : TransferAction
  send_error : String → TransferAction
  notify_user : String → TransferAction
  cleanup_partial_files preserve_resume_state : TransferAction
  start_timer : TransferTimer → TransferAction
  cancel_timer : TransferTimer → TransferAction

abbrev pub Outcome : Type 0
Outcome = Result StateError (TransferState × List TransferAction)

unfoldable pub is_terminal : TransferState → Bool
is_terminal complete = true
is_terminal cancelled = true
is_terminal failed = true
is_terminal _ = false

unfoldable pub is_active : TransferState → Bool
is_active offered = true
is_active pending = true
is_active negotiating = true
is_active streaming = true
is_active paused = true
is_active completing = true
is_active _ = false

-- `*event == TransferEvent::CancelReceived`
abbrev pub is_cancel : TransferEvent → Bool
is_cancel cancel_received = true
is_cancel _ = false

-- `*event == TransferEvent::FatalError || *event == TransferEvent::ConnectionLost`
abbrev pub is_break : TransferEvent → Bool
is_break fatal_error = true
is_break connection_lost = true
is_break _ = false

unfoldable pub invalid : TransferState → TransferEvent → Outcome
invalid s e = err (invalid_transition (state_name s) (event_name e))

-- The `match` on the state and the event, arm by arm.
unfoldable pub dispatch : TransferState → TransferEvent → Outcome
unfolding invalid
dispatch idle send_transfer_request = ok (offered, send_request ∷ start_timer consent ∷ [])
dispatch idle receive_transfer_request = ok (pending, display_consent_ui ∷ start_timer consent ∷ [])
dispatch pending user_accept = ok (
  negotiating,
  cancel_timer consent ∷ send_accept ∷ begin_metadata_exchange ∷ start_timer negotiation ∷ [],
)
dispatch pending user_reject =
    ok
      (cancelled, cancel_timer consent ∷ send_reject ∷ notify_user "Transfer rejected by user" ∷ [])
dispatch offered receive_transfer_accept =
    ok (negotiating, cancel_timer consent ∷ begin_metadata_exchange ∷ start_timer negotiation ∷ [])
dispatch offered receive_transfer_reject =
    ok (cancelled, cancel_timer consent ∷ notify_user "Transfer rejected by peer" ∷ [])
dispatch offered (timer_fired consent) = ok (failed, notify_user "Transfer consent timed out" ∷ [])
dispatch pending (timer_fired consent) =
    ok (failed, send_reject ∷ notify_user "Transfer consent timed out" ∷ [])
dispatch negotiating all_metadata_acked =
    ok (streaming, cancel_timer negotiation ∷ begin_chunk_transmission ∷ start_timer chunk_ack ∷ [])
dispatch negotiating all_files_rejected =
    ok (failed, cancel_timer negotiation ∷ notify_user "All files rejected during negotiation" ∷ [])
dispatch negotiating (timer_fired negotiation) =
    ok (failed, notify_user "Metadata negotiation timed out" ∷ [])
dispatch streaming pause_received =
    ok (paused, cancel_timer chunk_ack ∷ stop_chunk_transmission ∷ start_timer pause ∷ [])
dispatch streaming last_chunk_sent =
    ok (completing, cancel_timer chunk_ack ∷ send_complete ∷ start_timer completion ∷ [])
dispatch streaming all_chunks_received =
    ok (completing, cancel_timer chunk_ack ∷ send_ack ∷ start_timer completion ∷ [])
dispatch streaming checksum_mismatch = ok (
  failed,
  cancel_timer chunk_ack
      ∷ send_error "checksum_mismatch"
      ∷ cleanup_partial_files
      ∷ preserve_resume_state
      ∷ [],
)
dispatch streaming disk_full =
    ok (failed, cancel_timer chunk_ack ∷ send_error "disk_full" ∷ preserve_resume_state ∷ [])
dispatch streaming (timer_fired chunk_ack) =
    ok (failed, notify_user "Chunk ACK timed out" ∷ preserve_resume_state ∷ [])
dispatch paused resume_received =
    ok (streaming, cancel_timer pause ∷ resume_chunk_transmission ∷ start_timer chunk_ack ∷ [])
dispatch paused (timer_fired pause) = ok (
  failed,
  send_cancel
      ∷ notify_user "Transfer auto-cancelled after pause timeout"
      ∷ preserve_resume_state
      ∷ [],
)
dispatch completing ack_success =
    ok (complete, cancel_timer completion ∷ notify_user "Transfer completed successfully" ∷ [])
dispatch completing ack_sent =
    ok (complete, cancel_timer completion ∷ notify_user "Transfer received successfully" ∷ [])
dispatch completing ack_partial_failure =
    ok (
      failed,
      cancel_timer completion ∷ notify_user "Transfer completed with partial failures" ∷ [],
    )
dispatch completing checksum_mismatch = ok (
  failed,
  cancel_timer completion
      ∷ send_error "checksum_mismatch"
      ∷ notify_user "Final checksum verification failed"
      ∷ [],
)
dispatch completing (timer_fired completion) =
    ok (failed, notify_user "Transfer completion timed out" ∷ [])
dispatch s e = invalid s e

unfoldable pub transfer_handle_event : TransferState → TransferEvent → Outcome
unfolding is_terminal is_active invalid dispatch
transfer_handle_event s e =
    if is_terminal s
    then invalid s e
    else if is_cancel e && is_active s
    then ok (cancelled, send_cancel ∷ cleanup_partial_files ∷ notify_user "Transfer cancelled" ∷ [])
    else if is_break e && is_active s
    then ok (
      failed,
      preserve_resume_state ∷ notify_user "Transfer failed due to error or connection loss" ∷ [],
    )
    else dispatch s e
