-- ===== src/Tests/Machines.antt =====
-- The session and the transfer machine on fixed sequences of events.
use nxfr.Prelude.{List, [], ◌∷◌, ◌++◌, ◌≡◌, refl, true, false, any, All, ok, err, ◌↔◌, replicate}
use nxfr.Common.Errors.{invalid_transition}
use nxfr.Machine.{replay}
use nxfr.Session
use nxfr.Session.{
  SessionState, SessionEvent, SessionTimer, SessionAction, session_handle_event, user_connect,
  tls_established, hello_received, pair_request_sent, pair_accept_received, session_close_sent,
  session_close_received, disconnected, active, closing, closed, close_grace, open_connection,
  start_timer, cancel_timer, tls_handshake, hello_exchange, pairing_sas, send_hello, send_hello_ack,
  display_sas, pin_peer_identity, send_session_close, close_connection, release_resources,
}
use nxfr.Session.Diagram
use nxfr.Session.Diagram.{step_iff, step_refusal, Greets}
use nxfr.Session.Timers
use nxfr.Session.Timers.{drive_timers, Closes}
use nxfr.Session.Trust.{authorises, active_path, pins_after_sas, pins_need_sas}

abbrev to_active : List SessionEvent
to_active =
    user_connect
    ∷ tls_established
    ∷ hello_received (replicate 32 1) false
    ∷ pair_request_sent
    ∷ pair_accept_received
    ∷ []

abbrev actions_to_active : List SessionAction
actions_to_active =
    open_connection
    ∷ start_timer tls_handshake
    ∷ cancel_timer tls_handshake
    ∷ send_hello
    ∷ start_timer hello_exchange
    ∷ cancel_timer hello_exchange
    ∷ send_hello_ack 0
    ∷ display_sas
    ∷ start_timer pairing_sas
    ∷ cancel_timer pairing_sas
    ∷ pin_peer_identity (replicate 32 0)
    ∷ []

active_reached : replay session_handle_event disconnected to_active ≡ ok (active, actions_to_active)
unfolding replay session_handle_event
active_reached = refl

abbrev whole_session : List SessionEvent
whole_session = to_active ++ session_close_sent ∷ session_close_received ∷ []

abbrev actions_of_session : List SessionAction
actions_of_session =
    actions_to_active
    ++ send_session_close
      ∷ start_timer close_grace
      ∷ cancel_timer close_grace
      ∷ close_connection
      ∷ release_resources
      ∷ []

session_closes :
    replay session_handle_event disconnected whole_session ≡ ok (closed, actions_of_session)
unfolding replay session_handle_event
session_closes = refl

abbrev until_closing : List SessionEvent
until_closing = to_active ++ session_close_sent ∷ []

grace_runs : Session.Timers.drive disconnected [] until_closing ≡ ok (closing, close_grace ∷ [])
unfolding Session.Timers.drive session_handle_event
grace_runs = refl

drive_timers_example :
    (close_grace ∷ [] ≡ Session.Timers.phase_timers closing)
    × All (Closes closing) (close_grace ∷ [])
drive_timers_example = drive_timers until_closing closing (close_grace ∷ []) grace_runs

active_path_example :
    (h : SessionEvent) × (tail : List SessionEvent) × (to_active
      ≡ user_connect ∷ tls_established ∷ h ∷ tail)
    × Greets h
    × (any authorises tail ≡ true)
active_path_example = active_path to_active actions_to_active active_reached

pins_need_sas_example : pins_after_sas false actions_to_active ≡ true
pins_need_sas_example = pins_need_sas to_active active actions_to_active active_reached

step_iff_example :
    ((acts : List SessionAction) × (session_handle_event active session_close_sent
        ≡ ok (closing, acts)))
    ↔ Session.Diagram.Follows active session_close_sent closing
step_iff_example = step_iff active closing session_close_sent

close_refused :
    session_handle_event active session_close_received
    ≡ err (invalid_transition "Active" "SessionCloseReceived")
unfolding session_handle_event Session.state_name Session.event_name
close_refused = refl
