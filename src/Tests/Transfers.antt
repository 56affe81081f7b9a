-- ===== src/Tests/Transfers.antt =====
-- The transfer machine on fixed sequences of events.
use nxfr.Prelude.{List, [], ◌∷◌, ◌++◌, ◌≡◌, refl, false, ok, ◌↔◌}
use nxfr.Machine.{replay}
use nxfr.Transfer
use nxfr.Transfer.{
  TransferState, TransferEvent, TransferAction, TransferTimer, transfer_handle_event, idle,
  streaming, paused, complete, failed, cancelled, send_transfer_request, receive_transfer_accept,
  all_metadata_acked, pause_received, resume_received, last_chunk_sent, ack_success,
  cancel_received, connection_lost, chunk_ack, is_terminal, is_active, is_break,
  preserve_resume_state, notify_user, send_cancel, cleanup_partial_files, negotiation, consent,
  pause, send_request, start_timer, cancel_timer, begin_metadata_exchange, begin_chunk_transmission,
  stop_chunk_transmission,
}
use nxfr.Transfer.Diagram
use nxfr.Transfer.Diagram.{
  transfer_step_iff, transfer_refusal, ending_actions, tells, preserves, is_failed, streams,
}
use nxfr.Transfer.Timers
use nxfr.Transfer.Timers.{
  transfer_drive_timers, break_leaves_timer, Fails, after_actions, expire, phase_timers,
}
use nxfr.Transfer.Runs.{IsCompleteRun}
use nxfr.Transfer.Complete.{complete_iff}

abbrev to_streaming : List TransferEvent
to_streaming = send_transfer_request ∷ receive_transfer_accept ∷ all_metadata_acked ∷ []

abbrev whole_transfer : List TransferEvent
whole_transfer =
    to_streaming ++ pause_received ∷ resume_received ∷ last_chunk_sent ∷ ack_success ∷ []

transfer_step_iff_example :
    ((acts : List TransferAction) × (transfer_handle_event streaming pause_received
        ≡ ok (paused, acts)))
    ↔ Transfer.Diagram.Follows streaming pause_received paused
transfer_step_iff_example = transfer_step_iff streaming paused pause_received

abbrev loss : List TransferAction
loss = preserve_resume_state ∷ notify_user "Transfer failed due to error or connection loss" ∷ []

paused_loss : transfer_handle_event paused connection_lost ≡ ok (failed, loss)
unfolding transfer_handle_event
paused_loss = refl

ack_timer_runs : Transfer.Timers.drive idle [] to_streaming ≡ ok (streaming, chunk_ack ∷ [])
unfolding Transfer.Timers.drive transfer_handle_event
ack_timer_runs = refl

streaming_goes_on : is_terminal streaming ≡ false
unfolding is_terminal
streaming_goes_on = refl

complete_iff_example :
    ((acts : List TransferAction) × (replay transfer_handle_event idle whole_transfer
        ≡ ok (complete, acts)))
    ↔ IsCompleteRun whole_transfer
complete_iff_example = complete_iff whole_transfer

abbrev actions_to_pause : List TransferAction
actions_to_pause =
    send_request
    ∷ start_timer consent
    ∷ cancel_timer consent
    ∷ begin_metadata_exchange
    ∷ start_timer negotiation
    ∷ cancel_timer negotiation
    ∷ begin_chunk_transmission
    ∷ start_timer chunk_ack
    ∷ cancel_timer chunk_ack
    ∷ stop_chunk_transmission
    ∷ start_timer pause
    ∷ []

pause_reached :
    replay transfer_handle_event idle (to_streaming ++ pause_received ∷ [])
    ≡ ok (paused, actions_to_pause)
unfolding replay transfer_handle_event
pause_reached = refl
