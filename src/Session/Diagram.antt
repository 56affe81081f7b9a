-- ===== src/Session/Diagram.antt =====
-- The transition table of docs/PROTOCOL.md, section 10.3, as a relation, against the code. The trigger of a
-- row is the event of the code that stands for it.
use nxfr.Prelude.{ℕ, List, ◌≡◌, refl, Bool, true, false, ok, err, arith, ◌↔◌}
use nxfr.Common.Errors.{StateError, invalid_transition}
use nxfr.Session.{
  SessionState, SessionEvent, SessionAction, disconnected, connecting, hello_wait, established,
  pairing, active, closing, closed, user_connect, tls_established, tls_failed, hello_received,
  hello_ack_received, incompatible_version, pair_request_sent, pair_accept_received,
  pair_reject_received, unpaired_session_accepted, mutually_paired, session_close_sent,
  session_close_received, connection_lost, fatal_error_received, timer_fired, tls_handshake,
  hello_exchange, pairing_sas, close_grace, keepalive_timeout, session_handle_event, state_name,
  event_name,
}

-- The events of a row, where it has several.
pub data FailsTls : SessionEvent → Type 0 where
  tls_error : FailsTls tls_failed
  tls_timeout : FailsTls (timer_fired tls_handshake)

pub data Greets : SessionEvent → Type 0 where
  hello : {d : List ℕ} {p : Bool} → Greets (hello_received d p)
  hello_ack : {d : List ℕ} {n : ℕ} {p : Bool} → Greets (hello_ack_received d n p)

pub data FailsHello : SessionEvent → Type 0 where
  hello_timeout : FailsHello (timer_fired hello_exchange)
  wrong_version : FailsHello incompatible_version

pub data SkipsPairing : SessionEvent → Type 0 where
  known_peer : SkipsPairing mutually_paired
  user_accepts : SkipsPairing unpaired_session_accepted

pub data EndsClosing : SessionEvent → Type 0 where
  peer_closes : EndsClosing session_close_received
  grace_ends : EndsClosing (timer_fired close_grace)

-- The triggers by which a side ends an active session.
pub data Closes : SessionEvent → Type 0 where
  this_side : Closes session_close_sent
  other_side : Closes session_close_received

-- `Transition s e t`: the document has a row from `s` to `t` whose trigger is `e`; its last row is from
-- any state.
pub data Transition : SessionState → SessionEvent → SessionState → Type 0 where
  connects : Transition disconnected user_connect connecting
  secures : Transition connecting tls_established hello_wait
  fails_tls : {e : SessionEvent} → FailsTls e → Transition connecting e closed
  greets : {e : SessionEvent} → Greets e → Transition hello_wait e established
  fails_hello : {e : SessionEvent} → FailsHello e → Transition hello_wait e closed
  asks_to_pair : Transition established pair_request_sent pairing
  skips_pairing : {e : SessionEvent} → SkipsPairing e → Transition established e active
  pairs : Transition pairing pair_accept_received active
  refuses : Transition pairing pair_reject_received established
  pairing_ends : Transition pairing (timer_fired pairing_sas) closed
  says_goodbye : {e : SessionEvent} → Closes e → Transition active e closing
  drops : Transition active connection_lost closed
  ends_closing : {e : SessionEvent} → EndsClosing e → Transition closing e closed
  is_fatal : {s : SessionState} → Transition s fatal_error_received closed

-- The rows that the code does not have: the other side's SESSION_CLOSE while the session is active, and
-- a fatal error where no connection is open.
abbrev pub is_missing : SessionState → SessionEvent → Bool
is_missing active session_close_received = true
is_missing disconnected fatal_error_received = true
is_missing closed fatal_error_received = true
is_missing _ _ = false

-- What the code has beyond the table: the keepalive timeout, and a connection that is lost in a state
-- that is open and not yet, or no longer, active.
pub data IsAdded : SessionState → SessionEvent → SessionState → Type 0 where
  silent_peer : IsAdded active (timer_fired keepalive_timeout) closed
  lost_connecting : IsAdded connecting connection_lost closed
  lost_hello : IsAdded hello_wait connection_lost closed
  lost_established : IsAdded established connection_lost closed
  lost_pairing : IsAdded pairing connection_lost closed
  lost_closing : IsAdded closing connection_lost closed

-- A step by a row of the table that is not missing, or one that was added.
pub data Follows (s : SessionState) (e : SessionEvent) (t : SessionState) : Type 0 where
  by_table : Transition s e t → is_missing s e ≡ false → Follows s e t
  beside_table : IsAdded s e t → Follows s e t

abbrev pub Leads : SessionState → SessionEvent → SessionState → Type 0
Leads s e t = (acts : List SessionAction) × (session_handle_event s e ≡ ok (t, acts))

ruleset rows = (
  by_table, beside_table, connects, secures, fails_tls, tls_error, tls_timeout, greets, hello,
  hello_ack, fails_hello, hello_timeout, wrong_version, asks_to_pair, skips_pairing, known_peer,
  user_accepts, pairs, refuses, pairing_ends, says_goodbye, this_side, other_side, drops,
  ends_closing, peer_closes, grace_ends, is_fatal, silent_peer, lost_connecting, lost_hello,
  lost_established, lost_pairing, lost_closing,
)

Follows-of_step :
    (s t : SessionState) (e : SessionEvent) (acts : List SessionAction)
    → session_handle_event s e ≡ ok (t, acts)
    → Follows s e t
unfolding session_handle_event
Follows-of_step s t e acts h = grind (arith, rows)

step-of_Transition :
    (s t : SessionState) (e : SessionEvent)
    → Transition s e t
    → is_missing s e ≡ false
    → Leads s e t
unfolding session_handle_event
step-of_Transition _ _ _ connects h = (_, refl)
step-of_Transition _ _ _ (fails_tls tls_error) h = (_, refl)
step-of_Transition _ _ _ (fails_tls tls_timeout) h = (_, refl)
step-of_Transition _ _ _ (greets hello) h = (_, refl)
step-of_Transition _ _ _ (greets hello_ack) h = (_, refl)
step-of_Transition _ _ _ (fails_hello hello_timeout) h = (_, refl)
step-of_Transition _ _ _ (fails_hello wrong_version) h = (_, refl)
step-of_Transition _ _ _ (skips_pairing known_peer) h = (_, refl)
step-of_Transition _ _ _ (skips_pairing user_accepts) h = (_, refl)
step-of_Transition _ _ _ (says_goodbye this_side) h = (_, refl)
step-of_Transition _ _ _ (says_goodbye other_side) h = cc
step-of_Transition _ _ _ (ends_closing peer_closes) h = (_, refl)
step-of_Transition _ _ _ (ends_closing grace_ends) h = (_, refl)
step-of_Transition disconnected _ _ is_fatal h = cc
step-of_Transition closed _ _ is_fatal h = cc
step-of_Transition _ _ _ _ h = (_, refl)

step-of_IsAdded : (s t : SessionState) (e : SessionEvent) → IsAdded s e t → Leads s e t
unfolding session_handle_event
step-of_IsAdded _ _ _ silent_peer = (_, refl)
step-of_IsAdded _ _ _ _ = (_, refl)

step-of_Follows : (s t : SessionState) (e : SessionEvent) → Follows s e t → Leads s e t
step-of_Follows s t e (by_table r h) = step-of_Transition s t e r h
step-of_Follows s t e (beside_table a) = step-of_IsAdded s t e a

-- The code against the table of the protocol: an event is accepted in a state, and leads to `t`, exactly if
-- the table has such a row, other than the SESSION_CLOSE of the other side in the active state and a fatal
-- error before the start or after the end, or if it is one of two additions: the keepalive timeout of an
-- active session, and a connection that is lost in another open state.
pub step_iff :
    (s t : SessionState) (e : SessionEvent)
    → ((acts : List SessionAction) × (session_handle_event s e ≡ ok (t, acts))) ↔ Follows s e t
step_iff s t e = (λ (acts, h). Follows-of_step s t e acts h, step-of_Follows s t e)

-- A refused event is reported with the names of the state and the event, and the code follows no row for it.
pub step_refusal :
    (s : SessionState) (e : SessionEvent) (x : StateError)
    → session_handle_event s e ≡ err x
    → (x ≡ invalid_transition (state_name s) (event_name e))
      × ((t : SessionState) → ¬ Follows s e t)
unfolding session_handle_event
step_refusal s e x h = (ground arith, λ t r. cc (h, (step-of_Follows s t e r).1))
