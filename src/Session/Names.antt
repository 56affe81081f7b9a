-- ===== src/Session/Names.antt =====
-- crates/nxfr-core/src/session.rs: states, events and timers, with their `Display` and `Debug` names.
use nxfr.Prelude.{ℕ, String, List, Bool}

pub data SessionState : Type 0 where
  disconnected connecting hello_wait established pairing active closing closed : SessionState

pub data SessionTimer : Type 0 where
  tls_handshake hello_exchange pairing_sas close_grace keepalive_timeout : SessionTimer

pub data SessionEvent : Type 0 where
  user_connect tls_established tls_failed : SessionEvent
  hello_received : List ℕ → Bool → SessionEvent
  hello_ack_received : List ℕ → ℕ → Bool → SessionEvent
  incompatible_version pair_request_sent pair_accept_received pair_reject_received : SessionEvent
  unpaired_session_accepted mutually_paired session_close_sent : SessionEvent
  session_close_received connection_lost fatal_error_received : SessionEvent
  timer_fired : SessionTimer → SessionEvent

unfoldable pub state_name : SessionState → String
state_name disconnected = "Disconnected"
state_name connecting = "Connecting"
state_name hello_wait = "HelloWait"
state_name established = "Established"
state_name pairing = "Pairing"
state_name active = "Active"
state_name closing = "Closing"
state_name closed = "Closed"

-- `TimerFired({t:?})`
unfoldable pub timer_event_name : SessionTimer → String
timer_event_name tls_handshake = "TimerFired(TlsHandshake)"
timer_event_name hello_exchange = "TimerFired(HelloExchange)"
timer_event_name pairing_sas = "TimerFired(PairingSas)"
timer_event_name close_grace = "TimerFired(CloseGrace)"
timer_event_name keepalive_timeout = "TimerFired(KeepaliveTimeout)"

unfoldable pub event_name : SessionEvent → String
unfolding timer_event_name
event_name user_connect = "UserConnect"
event_name tls_established = "TlsEstablished"
event_name tls_failed = "TlsFailed"
event_name (hello_received device_id is_paired) = "HelloReceived"
event_name (hello_ack_received device_id session_id is_paired) = "HelloAckReceived"
event_name incompatible_version = "IncompatibleVersion"
event_name pair_request_sent = "PairRequestSent"
event_name pair_accept_received = "PairAcceptReceived"
event_name pair_reject_received = "PairRejectReceived"
event_name unpaired_session_accepted = "UnpairedSessionAccepted"
event_name mutually_paired = "MutuallyPaired"
event_name session_close_sent = "SessionCloseSent"
event_name session_close_received = "SessionCloseReceived"
event_name connection_lost = "ConnectionLost"
event_name fatal_error_received = "FatalErrorReceived"
event_name (timer_fired t) = timer_event_name t
