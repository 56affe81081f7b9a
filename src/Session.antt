-- ===== src/Session.antt =====
-- crates/nxfr-core/src/session.rs: the session state machine, a pure step from a state and an event
-- to a state and actions. A `DeviceId` is its list of 32 bytes.
pub mod Diagram
pub mod Timers
pub mod Runs
pub mod Trust
mod Names
unfoldable pub use Names.*
use nxfr.Prelude.{
  ℕ, String, List, [], ◌∷◌, Bool, true, false, if◌then◌else◌, Result, ok, err, replicate,
}
use nxfr.Common.Errors.{StateError, invalid_transition}

pub data SessionAction : Type 0 where
  open_connection : SessionAction
  send_hello : SessionAction
  send_hello_ack : ℕ → SessionAction
  record_session_id : ℕ → SessionAction
  display_sas : SessionAction
  pin_peer_identity : List ℕ → SessionAction
  send_error : String → SessionAction
  send_session_close : SessionAction
  close_connection : SessionAction
  release_resources : SessionAction
  start_timer : SessionTimer → SessionAction
  cancel_timer : SessionTimer → SessionAction
  log : String → SessionAction

abbrev pub Outcome : Type 0
Outcome = Result StateError (SessionState × List SessionAction)

unfoldable pub invalid : SessionState → SessionEvent → Outcome
invalid s e = err (invalid_transition (state_name s) (event_name e))

-- `*state != Closed && *state != Disconnected`
abbrev pub is_open : SessionState → Bool
is_open disconnected = false
is_open closed = false
is_open _ = true

abbrev pub tls_failure : SessionState × List SessionAction
tls_failure = (
  closed,
  cancel_timer tls_handshake ∷ log "TLS handshake failed or timed out" ∷ release_resources ∷ [],
)

abbrev pub active_loss : SessionState × List SessionAction
active_loss =
    (closed, log "Connection lost or fatal error in ACTIVE state" ∷ release_resources ∷ [])

abbrev pub grace_over : SessionState × List SessionAction
grace_over = (closed, cancel_timer close_grace ∷ close_connection ∷ release_resources ∷ [])

-- The `match` of the source, arm by arm; the guarded arms test `is_open`.
unfoldable pub session_handle_event : SessionState → SessionEvent → Outcome
unfolding invalid
session_handle_event disconnected user_connect =
    ok (connecting, open_connection ∷ start_timer tls_handshake ∷ [])
session_handle_event connecting tls_established =
    ok (hello_wait, cancel_timer tls_handshake ∷ send_hello ∷ start_timer hello_exchange ∷ [])
session_handle_event connecting tls_failed = ok tls_failure
session_handle_event connecting (timer_fired tls_handshake) = ok tls_failure
session_handle_event hello_wait (hello_received device_id is_paired) =
    ok (established, cancel_timer hello_exchange ∷ send_hello_ack 0 ∷ [])
session_handle_event hello_wait (hello_ack_received device_id session_id is_paired) =
    ok (established, cancel_timer hello_exchange ∷ record_session_id session_id ∷ [])
session_handle_event hello_wait (timer_fired hello_exchange) =
    ok (closed, log "HELLO exchange timed out" ∷ release_resources ∷ [])
session_handle_event hello_wait incompatible_version =
    ok (closed, send_error "unsupported_version" ∷ release_resources ∷ [])
session_handle_event established pair_request_sent =
    ok (pairing, display_sas ∷ start_timer pairing_sas ∷ [])
session_handle_event established mutually_paired = ok (active, [])
session_handle_event established unpaired_session_accepted = ok (active, [])
session_handle_event pairing pair_accept_received =
    ok (active, cancel_timer pairing_sas ∷ pin_peer_identity (replicate 32 0) ∷ [])
session_handle_event pairing pair_reject_received =
    ok (established, cancel_timer pairing_sas ∷ log "Pairing rejected by peer" ∷ [])
session_handle_event pairing (timer_fired pairing_sas) =
    ok
      (closed, log "Pairing SAS confirmation timed out" ∷ close_connection ∷ release_resources ∷ [])
session_handle_event active session_close_sent =
    ok (closing, send_session_close ∷ start_timer close_grace ∷ [])
session_handle_event active connection_lost = ok active_loss
session_handle_event active fatal_error_received = ok active_loss
session_handle_event closing session_close_received = ok grace_over
session_handle_event closing (timer_fired close_grace) = ok grace_over
session_handle_event s fatal_error_received =
    if is_open s
    then ok (closed, send_error "internal_error" ∷ close_connection ∷ release_resources ∷ [])
    else invalid s fatal_error_received
session_handle_event s connection_lost =
    if is_open s then ok (closed, release_resources ∷ []) else invalid s connection_lost
session_handle_event active (timer_fired keepalive_timeout) =
    ok (closed, send_error "session_timeout" ∷ close_connection ∷ release_resources ∷ [])
session_handle_event s e = invalid s e
