-- ===== src/Transfer/Names.antt =====
-- crates/nxfr-core/src/transfer.rs: states, events and timers, with their `Display` and `Debug` names.
use nxfr.Prelude.{String}

pub data TransferState : Type 0 where
  idle offered pending negotiating streaming paused completing : TransferState
  complete cancelled failed : TransferState

pub data TransferTimer : Type 0 where
  consent negotiation chunk_ack pause completion : TransferTimer

pub data TransferEvent : Type 0 where
  send_transfer_request receive_transfer_request user_accept user_reject : TransferEvent
  receive_transfer_accept receive_transfer_reject all_metadata_acked : TransferEvent
  all_files_rejected pause_received resume_received last_chunk_sent : TransferEvent
  all_chunks_received cancel_received transfer_complete_sent ack_sent : TransferEvent
  ack_success ack_partial_failure checksum_mismatch disk_full : TransferEvent
  connection_lost fatal_error : TransferEvent
  timer_fired : TransferTimer → TransferEvent

unfoldable pub state_name : TransferState → String
state_name idle = "Idle"
state_name offered = "Offered"
state_name pending = "Pending"
state_name negotiating = "Negotiating"
state_name streaming = "Streaming"
state_name paused = "Paused"
state_name completing = "Completing"
state_name complete = "Complete"
state_name cancelled = "Cancelled"
state_name failed = "Failed"

-- `TimerFired({t:?})`
unfoldable pub timer_event_name : TransferTimer → String
timer_event_name consent = "TimerFired(Consent)"
timer_event_name negotiation = "TimerFired(Negotiation)"
timer_event_name chunk_ack = "TimerFired(ChunkAck)"
timer_event_name pause = "TimerFired(Pause)"
timer_event_name completion = "TimerFired(Completion)"

unfoldable pub event_name : TransferEvent → String
unfolding timer_event_name
event_name send_transfer_request = "SendTransferRequest"
event_name receive_transfer_request = "ReceiveTransferRequest"
event_name user_accept = "UserAccept"
event_name user_reject = "UserReject"
event_name receive_transfer_accept = "ReceiveTransferAccept"
event_name receive_transfer_reject = "ReceiveTransferReject"
event_name all_metadata_acked = "AllMetadataAcked"
event_name all_files_rejected = "AllFilesRejected"
event_name pause_received = "PauseReceived"
event_name resume_received = "ResumeReceived"
event_name last_chunk_sent = "LastChunkSent"
event_name all_chunks_received = "AllChunksReceived"
event_name cancel_received = "CancelReceived"
event_name transfer_complete_sent = "TransferCompleteSent"
event_name ack_sent = "AckSent"
event_name ack_success = "AckSuccess"
event_name ack_partial_failure = "AckPartialFailure"
event_name checksum_mismatch = "ChecksumMismatch"
event_name disk_full = "DiskFull"
event_name connection_lost = "ConnectionLost"
event_name fatal_error = "FatalError"
event_name (timer_fired t) = timer_event_name t
