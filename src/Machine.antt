-- ===== src/Machine.antt =====
-- The two state machines of crates/nxfr-core (session.rs and transfer.rs) have one shape: a pure
-- step from a state and an event to a state and actions, or a refusal. Here: sequences of events.
use nxfr.Prelude.{List, [], ◌∷◌, ◌++◌, ◌≡◌, ap, ◌∙◌, Result, ok, ◌>>=◌, arith, >>=-eq-ok}
use nxfr.Common.Errors.{StateError}

module _ {S E A : Type 0} (handle : S → E → Result StateError (S × List A)) where
  -- Feed events in order, each of which has to be accepted; the state and all actions.
  unfoldable pub replay : S → List E → Result StateError (S × List A)
  replay s [] = ok (s, [])
  replay s (e ∷ es) = do (t, acts) ← handle s e; (u, more) ← replay t es; ok (u, acts ++ more)

  -- What an accepted sequence did first.
  pub record First (s u : S) (e : E) (es : List E) (acts : List A) : Type 0 where
    pub next : S
    pub now : List A
    pub more : List A
    pub step : handle s e ≡ ok (next, now)
    pub rest : replay next es ≡ ok (u, more)
    pub split : acts ≡ now ++ more

  pub replay-First :
      (s u : S) (e : E) (es : List E) (acts : List A)
      → replay s (e ∷ es) ≡ ok (u, acts)
      → First s u e es acts
  unfolding replay
  replay-First s u e es acts h =
      let ((t, now), first, k) = >>=-eq-ok (handle s e) _ h in
      let ((v, more), rest, last) = >>=-eq-ok (replay t es) _ k in
      record {
        next = t;
        now = now;
        more = more;
        step = first;
        rest = rest ∙ ap ok (cc last);
        split = ground arith;
      }

  pub replay-nil : (s u : S) (acts : List A) → replay s [] ≡ ok (u, acts) → (s ≡ u) × (acts ≡ [])
  unfolding replay
  replay-nil s u acts h = ground arith

  -- What holds of no events, and is kept by one more event before them, holds of every sequence.
  pub replay_induction {ℓ} :
      (P : S → List E → S → List A → Type ℓ)
      → ((s : S) → P s [] s [])
      → ((s t u : S) (e : E) (es : List E) (now more : List A)
          → handle s e ≡ ok (t, now)
          → P t es u more
          → P s (e ∷ es) u (now ++ more))
      → (es : List E) (s u : S) (acts : List A) → replay s es ≡ ok (u, acts)
      → P s es u acts
  replay_induction P none_yet one_more [] s u acts h =
      let (p, q) = replay-nil s u acts h in rw (q, p) (none_yet u)
  replay_induction P none_yet one_more (e ∷ es) s u acts h =
      let f = replay-First s u e es acts h in
      rw f.split (
        one_more s f.next u e es f.now f.more f.step
          (replay_induction P none_yet one_more es f.next u f.more f.rest))
