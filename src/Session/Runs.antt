-- ===== src/Session/Runs.antt =====
-- What holds of every accepted sequence of events from the start of a session.
use nxfr.Prelude.{ℕ, List, [], ◌∷◌, ◌++◌, ◌≡◌, ok, arith, ◌+◌, suc}
use nxfr.Machine.{replay, replay_induction}
use nxfr.Session.{
  SessionState, SessionEvent, SessionAction, disconnected, closed, release_resources,
  session_handle_event,
}

abbrev pub releases : List SessionAction → ℕ
releases [] = 0
releases (release_resources ∷ as') = suc (releases as')
releases (_ ∷ as') = releases as'

releases-append : (xs ys : List SessionAction) → releases (xs ++ ys) ≡ releases xs + releases ys
releases-append [] ys = omega arith
releases-append (release_resources ∷ xs) ys = omega (arith, releases-append xs ys)
releases-append (_ ∷ xs) ys = releases-append xs ys

abbrev pub ended : SessionState → ℕ
ended closed = 1
ended _ = 0

step-releases :
    (s t : SessionState) (e : SessionEvent) (acts : List SessionAction)
    → session_handle_event s e ≡ ok (t, acts)
    → ended s + releases acts ≡ ended t
unfolding session_handle_event
step-releases s t e acts h = ground arith

-- The resources are released once by the time that the session is closed, and not before.
pub releases_once :
    (es : List SessionEvent) (s : SessionState) (acts : List SessionAction)
    → replay session_handle_event disconnected es ≡ ok (s, acts)
    → releases acts ≡ ended s
releases_once es s acts h = omega (
  arith,
  replay_induction session_handle_event (λ s es u acts. ended s + releases acts ≡ ended u)
      (λ s. omega arith)
      (λ s t u e es now more first ih.
        omega (arith, releases-append now more, step-releases s t e now first))
      es disconnected s acts h,
)
