-- ===== src/Session/Trust.antt =====
-- No session is active, and no identity is pinned, before the steps that have to come first.
use nxfr.Prelude.{
  List, [], ◌∷◌, ◌++◌, ◌≡◌, refl, Bool, true, false, ◌&&◌, any, ok, arith, ◌⊎◌, inl, inr,
}
use nxfr.Session.{
  SessionState, SessionEvent, SessionAction, disconnected, connecting, hello_wait, established,
  pairing, active, closed, user_connect, tls_established, pair_accept_received, mutually_paired,
  unpaired_session_accepted, display_sas, pin_peer_identity, session_handle_event,
}
use nxfr.Session.Diagram.{Greets, hello, hello_ack}
use nxfr.Machine.{replay_induction, replay, replay-First, replay-nil}

-- The peer's acceptance of pairing, its known identity, or the user's word.
abbrev pub authorises : SessionEvent → Bool
authorises pair_accept_received = true
authorises mutually_paired = true
authorises unpaired_session_accepted = true
authorises _ = false

abbrev is_active : SessionState → Bool
is_active active = true
is_active _ = false

step_authorises :
    (s t : SessionState) (e : SessionEvent) (acts : List SessionAction)
    → session_handle_event s e ≡ ok (t, acts)
    → is_active s ≡ false
    → (authorises e ≡ true) ⊎ (is_active t ≡ false)
unfolding session_handle_event
step_authorises s t e acts h n = ground arith

active_authorised :
    (es : List SessionEvent) (s : SessionState) (acts : List SessionAction)
    → replay session_handle_event s es ≡ ok (active, acts)
    → is_active s ≡ false
    → any authorises es ≡ true
active_authorised [] s acts h n = cc (replay-nil session_handle_event s active acts h).0
active_authorised (e ∷ es) s acts h n =
    let f = replay-First session_handle_event s active e es acts h in
    elim (step_authorises s f.next e f.now f.step n) [
      | inl a ↦ rw a refl
      | inr n' ↦ ground (arith, active_authorised es f.next f.more f.rest n')
    ]

closed_stays :
    (es : List SessionEvent) (u : SessionState) (acts : List SessionAction)
    → replay session_handle_event closed es ≡ ok (u, acts)
    → u ≡ closed
unfolding session_handle_event
closed_stays [] u acts h = ground (arith, replay-nil session_handle_event closed u acts h)
closed_stays (e ∷ es) u acts h =
    let f = replay-First session_handle_event closed u e es acts h in ground (arith, f.step)

from_disconnected :
    (e : SessionEvent) (t : SessionState) (acts : List SessionAction)
    → session_handle_event disconnected e ≡ ok (t, acts)
    → (e ≡ user_connect) × (t ≡ connecting)
unfolding session_handle_event
from_disconnected e t acts h = ground arith

from_connecting :
    (e : SessionEvent) (t : SessionState) (acts : List SessionAction)
    → session_handle_event connecting e ≡ ok (t, acts)
    → ((e ≡ tls_established) × (t ≡ hello_wait)) ⊎ (t ≡ closed)
unfolding session_handle_event
from_connecting e t acts h = ground arith

from_hello_wait :
    (e : SessionEvent) (t : SessionState) (acts : List SessionAction)
    → session_handle_event hello_wait e ≡ ok (t, acts)
    → (Greets e × (t ≡ established)) ⊎ (t ≡ closed)
unfolding session_handle_event
from_hello_wait e t acts h = grind (arith, hello, hello_ack)

not_active_closed :
    (es : List SessionEvent) (t : SessionState) (acts : List SessionAction)
    → t ≡ closed
    → replay session_handle_event t es ≡ ok (active, acts)
    → ⊥
not_active_closed es t acts e h = cc (closed_stays es active acts (rw e at h))

greeted :
    (es : List SessionEvent) (acts : List SessionAction)
    → replay session_handle_event hello_wait es ≡ ok (active, acts)
    → (h : SessionEvent) × (tail : List SessionEvent) × (es ≡ h ∷ tail)
      × Greets h
      × (any authorises tail ≡ true)
greeted [] acts h = absurd (cc (replay-nil session_handle_event hello_wait active acts h).0)
greeted (e ∷ es) acts h =
    let f = replay-First session_handle_event hello_wait active e es acts h in
    elim (from_hello_wait e f.next f.now f.step) [
      | inl (g, t) ↦ (e, es, refl, g, active_authorised es f.next f.more f.rest (rw t refl))
      | inr t ↦ absurd (not_active_closed es f.next f.more t f.rest)
    ]

secured :
    (es : List SessionEvent) (acts : List SessionAction)
    → replay session_handle_event connecting es ≡ ok (active, acts)
    → (h : SessionEvent) × (tail : List SessionEvent) × (es ≡ tls_established ∷ h ∷ tail)
      × Greets h
      × (any authorises tail ≡ true)
secured [] acts h = absurd (cc (replay-nil session_handle_event connecting active acts h).0)
secured (e ∷ es) acts h =
    let f = replay-First session_handle_event connecting active e es acts h in
    elim (from_connecting e f.next f.now f.step) [
      | inl (g, t) ↦
          let (hi, tail, split, greets, auth) = greeted es f.more (rw t at f.rest) in
          (hi, tail, cc, greets, auth)
      | inr t ↦ absurd (not_active_closed es f.next f.more t f.rest)
    ]

-- Every way to the active state connects, completes TLS and the HELLO exchange, in this order, and
-- then has an authorisation: an accepted pairing, a known peer, or the user's acceptance.
pub active_path :
    (es : List SessionEvent) (acts : List SessionAction)
    → replay session_handle_event disconnected es ≡ ok (active, acts)
    → (h : SessionEvent) × (tail : List SessionEvent) × (es
        ≡ user_connect ∷ tls_established ∷ h ∷ tail)
      × Greets h
      × (any authorises tail ≡ true)
active_path [] acts h = absurd (cc (replay-nil session_handle_event disconnected active acts h).0)
active_path (e ∷ es) acts h =
    let f = replay-First session_handle_event disconnected active e es acts h in
    let (g, t) = from_disconnected e f.next f.now f.step in
    let (hi, tail, split, greets, auth) = secured es f.more (rw t at f.rest) in
    (hi, tail, cc, greets, auth)

-- Reads the actions in order: a pin counts only after the SAS was shown.
abbrev pub pins_after_sas : Bool → List SessionAction → Bool
pins_after_sas shown [] = true
pins_after_sas shown (display_sas ∷ as') = pins_after_sas true as'
pins_after_sas shown (pin_peer_identity d ∷ as') = shown && pins_after_sas shown as'
pins_after_sas shown (_ ∷ as') = pins_after_sas shown as'

abbrev shown_after : Bool → List SessionAction → Bool
shown_after shown [] = shown
shown_after shown (display_sas ∷ as') = shown_after true as'
shown_after shown (_ ∷ as') = shown_after shown as'

pins_after_sas-append :
    (xs ys : List SessionAction) (shown : Bool)
    → pins_after_sas shown xs ≡ true
    → pins_after_sas (shown_after shown xs) ys ≡ true
    → pins_after_sas shown (xs ++ ys) ≡ true
pins_after_sas-append [] ys shown h k = k
pins_after_sas-append (display_sas ∷ xs) ys shown h k = pins_after_sas-append xs ys true h k
pins_after_sas-append (pin_peer_identity d ∷ xs) ys shown h k =
    ground (arith, pins_after_sas-append xs ys shown)
pins_after_sas-append (_ ∷ xs) ys shown h k = pins_after_sas-append xs ys shown h k

-- In the pairing state the SAS has been shown.
abbrev Knows : Bool → SessionState → Type 0
Knows shown s = s ≡ pairing → shown ≡ true

step_pins :
    (s t : SessionState) (e : SessionEvent) (acts : List SessionAction) (shown : Bool)
    → session_handle_event s e ≡ ok (t, acts)
    → Knows shown s
    → (pins_after_sas shown acts ≡ true) × (Knows (shown_after shown acts) t)
unfolding session_handle_event
step_pins s t e acts shown h k = (ground arith, λ p. ground arith)

-- No run of accepted events pins an identity before it has displayed the SAS.
pub pins_need_sas :
    (es : List SessionEvent) (s : SessionState) (acts : List SessionAction)
    → replay session_handle_event disconnected es ≡ ok (s, acts)
    → pins_after_sas false acts ≡ true
pins_need_sas es s acts h =
    replay_induction session_handle_event
      (λ s es u acts. (shown : Bool) → Knows shown s → pins_after_sas shown acts ≡ true)
      (λ s shown k. refl)
      (λ s t u e es now more first ih shown k.
        let (here, k') = step_pins s t e now shown first k in
        pins_after_sas-append now more shown here (ih (shown_after shown now) k'))
      es disconnected s acts h false (λ e. cc)
