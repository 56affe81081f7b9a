-- ===== src/Web/Granted.antt =====
-- Whom the approval gate lets in (crates/nxfr-web/src/lib.rs).
use nxfr.Prelude.{
  ℕ, ◌≡◌, ◌⊎◌, refl, ap, List, [], ◌∷◌, All, Option, none, some, Bool, true, false, not, ◌&&◌,
  list_eq, list_eq→eq, any, if◌then◌else◌, Bool-cases, inl, inr, Result, ok, err,
}
use nxfr.Web.Gate.{
  PendingRequest, Server, is_some_token, is_accepted, is_pending, grants, is_valid, is_valid_token,
  insert_request, respond_found, respond_to_request, Reply, Attempts, admitted, check_auth, auth,
  ask, api_request, is_some, RespondError,
}

-- What happens to a server: a request for access, an answer of the host, a login or upload.
pub data Event : Type 0 where
  asks : (now seconds ip : ℕ) (id fresh : List ℕ) (token : Option (List ℕ)) → Event
  answers : (id : List ℕ) (accepts : Bool) (fresh : List ℕ) → Event
  tries : (now ip : ℕ) (token : Option (List ℕ)) → Event

abbrev after_answer : Server → Result RespondError Server → Server
after_answer s (ok t) = t
after_answer s (err e) = s

abbrev pub step : Event → Server → Server
step (asks now seconds ip id fresh token) s = (api_request now seconds ip id fresh token s).0
step (answers id accepts fresh) s = after_answer s (respond_to_request id accepts fresh s)
step (tries now ip token) s = (auth now ip token s).0

unfoldable pub run : List Event → Server → Server
run [] s = s
run (e ∷ es) s = run es (step e s)

-- The event neither shows the token or the PIN of the server, nor is it a yes of the host.
pub data IsHarmless (main : List ℕ) (pin : Option (List ℕ)) : Event → Type 0 where
  shows_nothing :
      (now seconds ip : ℕ) (id fresh : List ℕ)
      → IsHarmless main pin (asks now seconds ip id fresh none)
  shows_other :
      (now seconds ip : ℕ) (id fresh token : List ℕ)
      → list_eq main token ≡ false
      → is_some_token token pin ≡ false
      → IsHarmless main pin (asks now seconds ip id fresh (some token))
  refuses : (id fresh : List ℕ) → IsHarmless main pin (answers id false fresh)
  tries_any : (now ip : ℕ) (token : Option (List ℕ)) → IsHarmless main pin (tries now ip token)

abbrev pub NoneAccepted : List PendingRequest → Type 0
NoneAccepted = All (λ r. is_accepted r.status ≡ false)

insert-NoneAccepted :
    (req : PendingRequest) (rs : List PendingRequest)
    → is_accepted req.status ≡ false
    → NoneAccepted rs
    → NoneAccepted (insert_request req rs)
unfolding insert_request
insert-NoneAccepted req [] k h = (k, tt)
insert-NoneAccepted req (r ∷ rs) k h = elim (Bool-cases (list_eq r.session_id req.session_id)) [
  | inl e ↦ rw e (k, h.1)
  | inr e ↦ rw e (h.0, insert-NoneAccepted req rs k h.1)
]

none_grants :
    (token : List ℕ) (rs : List PendingRequest) → NoneAccepted rs → any (grants token) rs ≡ false
none_grants token [] h = refl
none_grants token (r ∷ rs) h = rw (h.0, none_grants token rs h.1) refl

-- The secrets are what they were, and no request has been accepted.
record IsShut (main : List ℕ) (pin : Option (List ℕ)) (s : Server) : Type 0 where
  same_token : s.token ≡ main
  same_pin : s.pin ≡ pin
  none_accepted : NoneAccepted s.pending_requests

module _ (main : List ℕ) (pin : Option (List ℕ)) where
  shut_out :
      (token : List ℕ) (s : Server)
      → IsShut main pin s
      → list_eq main token ≡ false
      → is_some_token token pin ≡ false
      → is_valid_token token s ≡ false
  unfolding is_valid_token
  shut_out token s v not_main not_pin =
      rw (v.same_token, not_main, v.same_pin, not_pin) (none_grants token _ v.none_accepted)

  admitted-IsShut :
      (a : Option Attempts) (s : Server) (serve : Server → Server × Reply)
      → IsShut main pin s
      → ((t : Server) → IsShut main pin t → IsShut main pin (serve t).0)
      → IsShut main pin (admitted a s serve).0
  admitted-IsShut none s serve v k = v
  admitted-IsShut (some failed) s serve v k =
      k _ (record {
        same_token = v.same_token;
        same_pin = v.same_pin;
        none_accepted = v.none_accepted;
      })

  pick :
      (b : Bool) (x y : Server × Reply)
      → IsShut main pin x.0
      → IsShut main pin y.0
      → IsShut main pin (if b then x else y).0
  pick true x y h k = h
  pick false x y h k = k

  check_auth-IsShut :
      (now ip : ℕ) (token : Option (List ℕ)) (s : Server)
      → IsShut main pin s
      → IsShut main pin (check_auth now ip token s).0
  check_auth-IsShut now ip token s v =
      pick (is_valid token s) _ _ v (record {
        same_token = v.same_token;
        same_pin = v.same_pin;
        none_accepted = v.none_accepted;
      })

  ask-IsShut :
      (seconds ip : ℕ) (id fresh : List ℕ) (token : Option (List ℕ)) (s : Server)
      → is_valid token s ≡ false
      → IsShut main pin s
      → IsShut main pin (ask seconds ip id fresh token s).0
  ask-IsShut seconds ip id fresh token s invalid v = rw invalid (
      pick (not s.auto_accept && not (is_some s.pin)) _ _
        (record {
          same_token = v.same_token;
          same_pin = v.same_pin;
          none_accepted = insert-NoneAccepted _ _ refl v.none_accepted;
        })
        v)

  refuse-IsShut :
      (found : Option PendingRequest) (fresh : List ℕ) (s : Server)
      → IsShut main pin s
      → IsShut main pin (after_answer s (respond_found found false fresh s))
  refuse-IsShut none fresh s v = v
  refuse-IsShut (some r) fresh s v = elim (Bool-cases (is_pending r.status)) [
    | inl e ↦ rw e (record {
      same_token = v.same_token;
      same_pin = v.same_pin;
      none_accepted = insert-NoneAccepted _ _ refl v.none_accepted;
    })
    | inr e ↦ rw e v
  ]

  step-IsShut :
      {e : Event} (s : Server)
      → IsHarmless main pin e
      → IsShut main pin s
      → IsShut main pin (step e s)
  unfolding api_request auth respond_to_request
  step-IsShut s (shows_nothing now seconds ip id fresh) v =
      admitted-IsShut _ s _ v (λ t h. ask-IsShut seconds ip id fresh none t refl h)
  step-IsShut s (shows_other now seconds ip id fresh token not_main not_pin) v =
      admitted-IsShut _ s _ v (λ t h.
        ask-IsShut seconds ip id fresh (some token) t (shut_out token t h not_main not_pin) h)
  step-IsShut s (refuses id fresh) v = refuse-IsShut _ fresh s v
  step-IsShut s (tries_any now ip token) v =
      admitted-IsShut _ s _ v (check_auth-IsShut now ip token)

  run-IsShut :
      (events : List Event) (s : Server)
      → All (IsHarmless main pin) events
      → IsShut main pin s
      → IsShut main pin (run events s)
  unfolding run
  run-IsShut [] s h v = v
  run-IsShut (e ∷ es) s h v = run-IsShut es (step e s) h.1 (step-IsShut s h.0 v)

is_some_token_sound :
    (token : List ℕ) (pin : Option (List ℕ)) → is_some_token token pin ≡ true → pin ≡ some token
is_some_token_sound token none h = cc
is_some_token_sound token (some t) h = ap some (list_eq→eq t token h)

-- As long as nobody shows the token or the PIN in a request for access, and the host accepts no request, the
-- only tokens that are valid after any requests, refusals and logins are the token and the PIN themselves.
-- At the start no request had been accepted.
pub no_way_in :
    (events : List Event) (s : Server) (token : List ℕ)
    → NoneAccepted s.pending_requests
    → All (IsHarmless s.token s.pin) events
    → is_valid_token token (run events s) ≡ true
    → (s.token ≡ token) ⊎ (s.pin ≡ some token)
no_way_in events s token none_yet harmless valid =
    let v =
      run-IsShut s.token s.pin events s harmless
        (record { same_token = refl; same_pin = refl; none_accepted = none_yet }) in
    elim (Bool-cases (list_eq s.token token)) [
      | inl e ↦ inl (list_eq→eq s.token token e)
      | inr not_main ↦ elim (Bool-cases (is_some_token token s.pin)) [
        | inl e ↦ inr (is_some_token_sound token s.pin e)
        | inr not_pin ↦
            absurd (cc (shut_out s.token s.pin token (run events s) v not_main not_pin, valid))
      ]
    ]
