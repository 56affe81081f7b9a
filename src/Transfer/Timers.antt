-- ===== src/Transfer/Timers.antt =====
-- Which timers run during a transfer (crates/nxfr-core/src/transfer.rs): the driver starts and
-- cancels them as the actions say, and a timer that fires is over.
use nxfr.Prelude.{
  All, List, [], ◌∷◌, ◌≡◌, ◌≢◌, refl, Bool, true, false, Result, ok, ◌>>=◌, arith, if◌then◌else◌,
  >>=-eq-ok,
}
use nxfr.Common.Errors.{StateError}
use nxfr.Transfer.{
  TransferState, TransferEvent, TransferAction, TransferTimer, idle, offered, pending, negotiating,
  streaming, paused, completing, failed, consent, negotiation, chunk_ack, pause, completion,
  timer_fired, start_timer, cancel_timer, is_terminal, transfer_handle_event, cancel_received,
  fatal_error, connection_lost,
}

abbrev pub same_timer : TransferTimer → TransferTimer → Bool
same_timer consent consent = true
same_timer negotiation negotiation = true
same_timer chunk_ack chunk_ack = true
same_timer pause pause = true
same_timer completion completion = true
same_timer _ _ = false

abbrev pub stop : TransferTimer → List TransferTimer → List TransferTimer
stop t [] = []
stop t (u ∷ us) = let rest = stop t us in if same_timer t u then rest else u ∷ rest

abbrev pub after_action : List TransferTimer → TransferAction → List TransferTimer
after_action ts (start_timer t) = t ∷ ts
after_action ts (cancel_timer t) = stop t ts
after_action ts _ = ts

abbrev pub after_actions : List TransferTimer → List TransferAction → List TransferTimer
after_actions ts [] = ts
after_actions ts (a ∷ as') = after_actions (after_action ts a) as'

-- A timer that fires no longer runs.
abbrev pub expire : TransferEvent → List TransferTimer → List TransferTimer
expire (timer_fired t) ts = stop t ts
expire _ ts = ts

-- Feed events in order; the state, and the timers that run.
unfoldable pub drive :
    TransferState
    → List TransferTimer
    → List TransferEvent
    → Result StateError (TransferState × List TransferTimer)
drive s ts [] = ok (s, ts)
drive s ts (e ∷ es) = do
  (t, acts) ← transfer_handle_event s e
  drive t (after_actions (expire e ts) acts) es

-- The timer that belongs to a state that is not terminal.
abbrev pub phase_timers : TransferState → List TransferTimer
phase_timers offered = consent ∷ []
phase_timers pending = consent ∷ []
phase_timers negotiating = negotiation ∷ []
phase_timers streaming = chunk_ack ∷ []
phase_timers paused = pause ∷ []
phase_timers completing = completion ∷ []
phase_timers _ = []

abbrev Tracks : TransferState → List TransferTimer → Type 0
Tracks s ts = is_terminal s ≡ false → ts ≡ phase_timers s

step-Tracks :
    (s t : TransferState) (e : TransferEvent) (acts : List TransferAction) (ts : List TransferTimer)
    → transfer_handle_event s e ≡ ok (t, acts)
    → Tracks s ts
    → Tracks t (after_actions (expire e ts) acts)
unfolding transfer_handle_event
step-Tracks s t e acts ts h k n = ground (arith, k (ground arith))

drive-Tracks :
    (es : List TransferEvent) (s t : TransferState) (ts us : List TransferTimer)
    → drive s ts es ≡ ok (t, us)
    → Tracks s ts
    → Tracks t us
unfolding drive
drive-Tracks [] s t ts us h k = λ n. ground (arith, k (ground arith))
drive-Tracks (e ∷ es) s t ts us h k =
    let ((u, acts), first, rest) = >>=-eq-ok (transfer_handle_event s e) _ h in
    drive-Tracks es u t _ us rest (step-Tracks s u e acts ts first k)

-- The expiry of the timer is accepted, and fails the transfer.
abbrev pub Fails : TransferState → TransferTimer → Type 0
Fails s t =
    (acts : List TransferAction) × (transfer_handle_event s (timer_fired t) ≡ ok (failed, acts))

running-Fails : (s : TransferState) → All (Fails s) (phase_timers s)
unfolding transfer_handle_event
running-Fails offered = ((_, refl), tt)
running-Fails pending = ((_, refl), tt)
running-Fails negotiating = ((_, refl), tt)
running-Fails streaming = ((_, refl), tt)
running-Fails paused = ((_, refl), tt)
running-Fails completing = ((_, refl), tt)
running-Fails _ = tt

-- After any accepted events from the start that have not ended the transfer, the timers that run are
-- the one of the state reached; and if one that runs fires, that is accepted and fails the transfer.
pub transfer_drive_timers :
    (es : List TransferEvent) (s : TransferState) (ts : List TransferTimer)
    → drive idle [] es ≡ ok (s, ts)
    → is_terminal s ≡ false
    → (ts ≡ phase_timers s) × All (Fails s) ts
transfer_drive_timers es s ts h n =
    let same = drive-Tracks es idle s [] ts h (λ k. refl) n in (same, rw same (running-Fails s))

abbrev breaks_off : TransferEvent → Bool
breaks_off cancel_received = true
breaks_off fatal_error = true
breaks_off connection_lost = true
breaks_off _ = false

-- A cancellation, a fatal error or a lost connection that is accepted ends the transfer, and the timer
-- of the state that it leaves runs on: there is one, and no action cancels it.
pub break_leaves_timer :
    (s t : TransferState) (e : TransferEvent) (acts : List TransferAction)
    → transfer_handle_event s e ≡ ok (t, acts)
    → breaks_off e ≡ true
    → (is_terminal t ≡ true)
      × (after_actions (expire e (phase_timers s)) acts ≡ phase_timers s)
      × (phase_timers s ≢ [])
unfolding transfer_handle_event
break_leaves_timer s t e acts h b = (ground arith, ground arith, λ n. ground arith)
