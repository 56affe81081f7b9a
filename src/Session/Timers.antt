-- ===== src/Session/Timers.antt =====
-- Which timers run: the driver of crates/nxfr-core/src/session.rs starts and cancels them as the
-- actions say, a timer that fires is over, and releasing the resources stops them all.
use nxfr.Prelude.{
  All, List, [], ◌∷◌, ◌≡◌, refl, Bool, true, false, Result, ok, ◌>>=◌, arith, if◌then◌else◌,
  >>=-eq-ok,
}
use nxfr.Common.Errors.{StateError}
use nxfr.Session.{
  SessionState, SessionEvent, SessionAction, SessionTimer, disconnected, connecting, hello_wait,
  established, pairing, active, closing, closed, timer_fired, tls_handshake, hello_exchange,
  pairing_sas, close_grace, keepalive_timeout, start_timer, cancel_timer, release_resources,
  session_handle_event,
}

abbrev pub same_timer : SessionTimer → SessionTimer → Bool
same_timer tls_handshake tls_handshake = true
same_timer hello_exchange hello_exchange = true
same_timer pairing_sas pairing_sas = true
same_timer close_grace close_grace = true
same_timer keepalive_timeout keepalive_timeout = true
same_timer _ _ = false

abbrev pub stop : SessionTimer → List SessionTimer → List SessionTimer
stop t [] = []
stop t (u ∷ us) = let rest = stop t us in if same_timer t u then rest else u ∷ rest

abbrev pub after_action : List SessionTimer → SessionAction → List SessionTimer
after_action ts (start_timer t) = t ∷ ts
after_action ts (cancel_timer t) = stop t ts
after_action ts release_resources = []
after_action ts _ = ts

abbrev pub after_actions : List SessionTimer → List SessionAction → List SessionTimer
after_actions ts [] = ts
after_actions ts (a ∷ as') = after_actions (after_action ts a) as'

-- A timer that fires no longer runs.
abbrev pub expire : SessionEvent → List SessionTimer → List SessionTimer
expire (timer_fired t) ts = stop t ts
expire _ ts = ts

-- Feed events in order; the state, and the timers that run.
unfoldable pub drive :
    SessionState
    → List SessionTimer
    → List SessionEvent
    → Result StateError (SessionState × List SessionTimer)
drive s ts [] = ok (s, ts)
drive s ts (e ∷ es) = do
  (t, acts) ← session_handle_event s e
  drive t (after_actions (expire e ts) acts) es

-- The timer that belongs to a state.
abbrev pub phase_timers : SessionState → List SessionTimer
phase_timers connecting = tls_handshake ∷ []
phase_timers hello_wait = hello_exchange ∷ []
phase_timers pairing = pairing_sas ∷ []
phase_timers closing = close_grace ∷ []
phase_timers _ = []

step-phase_timers :
    (s t : SessionState) (e : SessionEvent) (acts : List SessionAction)
    → session_handle_event s e ≡ ok (t, acts)
    → after_actions (expire e (phase_timers s)) acts ≡ phase_timers t
unfolding session_handle_event
step-phase_timers s t e acts h = ground arith

drive-phase_timers :
    (es : List SessionEvent) (s t : SessionState) (ts : List SessionTimer)
    → drive s (phase_timers s) es ≡ ok (t, ts)
    → ts ≡ phase_timers t
unfolding drive
drive-phase_timers [] s t ts h = cc
drive-phase_timers (e ∷ es) s t ts h =
    let ((u, acts), first, rest) = >>=-eq-ok (session_handle_event s e) _ h in
    drive-phase_timers es u t ts (rw (step-phase_timers s u e acts first) at rest)

-- The expiry of the timer is accepted, and closes the session.
abbrev pub Closes : SessionState → SessionTimer → Type 0
Closes s t =
    (acts : List SessionAction) × (session_handle_event s (timer_fired t) ≡ ok (closed, acts))

running-Closes : (s : SessionState) → All (Closes s) (phase_timers s)
unfolding session_handle_event
running-Closes connecting = ((_, refl), tt)
running-Closes hello_wait = ((_, refl), tt)
running-Closes pairing = ((_, refl), tt)
running-Closes closing = ((_, refl), tt)
running-Closes disconnected = tt
running-Closes established = tt
running-Closes active = tt
running-Closes closed = tt

-- After any accepted events from the start, the timers that run are the one of the state reached; and
-- if one that runs fires, that is accepted and closes the session.
pub drive_timers :
    (es : List SessionEvent) (s : SessionState) (ts : List SessionTimer)
    → drive disconnected [] es ≡ ok (s, ts)
    → (ts ≡ phase_timers s) × All (Closes s) ts
drive_timers es s ts h =
    let same = drive-phase_timers es disconnected s ts h in (same, rw same (running-Closes s))
