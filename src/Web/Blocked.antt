-- ===== src/Web/Blocked.antt =====
-- When an address is blocked for guessing (crates/nxfr-web/src/lib.rs).
use nxfr.Prelude.{
  ℕ, suc, ◌+◌, ◌-◌, ◌≤◌, ◌<◌, ◌≡◌, ◌∙◌, refl, arith, ap, All, List, [], ◌∷◌, Option, none, some,
  Bool, true, false, ==_refl, ltb, leb, if◌then◌else◌, length,
}
use nxfr.Web.Gate.{
  Server, is_valid_token, is_valid, Reply, authenticated, forbidden, is_blocked,
  max_failed_attempts, rate_limit_window, block_duration, Attempts, get_attempts, block_of,
  check_block, failed_again, record_failure, admitted, check_auth, auth,
}

get_attempts-record_failure :
    (now ip : ℕ) (failed : Attempts)
    → get_attempts ip (record_failure now ip failed)
      ≡ some (failed_again now (get_attempts ip failed))
unfolding get_attempts record_failure
get_attempts-record_failure now ip failed = rw ==_refl refl

-- Tries to log in, with their times and tokens, by one address.
abbrev pub Tries : Type 0
Tries = List (ℕ × Option (List ℕ))

unfoldable pub tries_of : ℕ → Tries → Server → Server
tries_of ip [] s = s
tries_of ip (e ∷ rest) s = tries_of ip rest (auth e.0 ip e.1 s).0

-- Each try comes within the window after the last one.
abbrev pub IsRapid : ℕ → Tries → Type 0
IsRapid last [] = Unit {0}
IsRapid last (e ∷ rest) = (last ≤ e.0) × (e.0 ≤ last + rate_limit_window) × IsRapid e.0 rest

abbrev pub last_time : ℕ → Tries → ℕ
last_time last [] = last
last_time last (e ∷ rest) = last_time e.0 rest

-- No token of the tries is valid.
abbrev pub AllWrong : Server → Tries → Type 0
AllWrong s = All (λ e. is_valid e.1 s ≡ false)

same_validity :
    (token : Option (List ℕ)) (failed : Attempts) (s : Server)
    → is_valid token (record s { failed_attempts = failed }) ≡ is_valid token s
unfolding is_valid_token
same_validity none failed s = refl
same_validity (some t) failed s = refl

AllWrong-kept :
    (tries : Tries) (failed : Attempts) (s : Server)
    → AllWrong s tries
    → AllWrong (record s { failed_attempts = failed }) tries
AllWrong-kept [] failed s h = tt
AllWrong-kept (e ∷ rest) failed s h =
    (same_validity e.1 failed s ∙ h.0, AllWrong-kept rest failed s h.1)

module _ (ip : ℕ) where
  failing :
      (now : ℕ) (token : Option (List ℕ)) (s : Server)
      → check_block now ip s.failed_attempts ≡ some s.failed_attempts
      → is_valid token s ≡ false
      → (auth now ip token s).0
        ≡ record s { failed_attempts = record_failure now ip s.failed_attempts }
  unfolding auth
  failing now token s passes invalid =
      ap (λ (a : Option Attempts). (admitted a s (check_auth now ip token)).0) passes
      ∙ ap
          (λ (b : Bool).
            let r : Server × Reply = if b then (s, authenticated) else (
              record s { failed_attempts = record_failure now ip s.failed_attempts },
              forbidden,
            ) in
            r.0)
          invalid

  passes_under :
      (now count last : ℕ) (failed : Attempts)
      → get_attempts ip failed ≡ some (count, last)
      → count < max_failed_attempts
      → check_block now ip failed ≡ some failed
  unfolding check_block
  passes_under now count last failed known few =
      let under : leb max_failed_attempts count ≡ false = ground arith in rw (known, under) refl

  counted :
      (tries : Tries) (count last : ℕ) (s : Server)
      → get_attempts ip s.failed_attempts ≡ some (count, last)
      → count + length tries ≤ max_failed_attempts
      → IsRapid last tries
      → AllWrong s tries
      → get_attempts ip (tries_of ip tries s).failed_attempts
        ≡ some (count + length tries, last_time last tries)
  unfolding tries_of
  counted [] count last s known few rapid wrong =
      let same : count + 0 ≡ count = omega arith in rw same known
  counted (e ∷ rest) count last s known few rapid wrong =
      let failed = record_failure e.0 ip s.failed_attempts in
      let in_window : ltb rate_limit_window (e.0 - last) ≡ false =
        let (a, b, c) = rapid in ground arith in
      let one_more : failed_again e.0 (some (count, last)) ≡ (suc count, e.0) =
        rw in_window (ap (λ (k : ℕ). (k, e.0)) (omega arith)) in
      let now_known : get_attempts ip failed ≡ some (suc count, e.0) =
        get_attempts-record_failure e.0 ip s.failed_attempts ∙ rw known (ap some one_more) in
      ap (λ (u : Server). get_attempts ip (tries_of ip rest u).failed_attempts)
        (failing e.0 e.1 s (passes_under e.0 count last s.failed_attempts known (omega arith))
          wrong.0)
      ∙ counted rest (suc count) e.0 (record s { failed_attempts = failed }) now_known (omega arith)
          rapid.2 (AllWrong-kept rest failed s wrong.1)
      ∙ ap (λ (k : ℕ). some (k, last_time e.0 rest)) (omega arith)

  passes_new :
      (now : ℕ) (failed : Attempts)
      → get_attempts ip failed ≡ none
      → check_block now ip failed ≡ some failed
  unfolding check_block
  passes_new now failed unknown = rw unknown refl

  stopped :
      (now count last : ℕ) (token : Option (List ℕ)) (s : Server)
      → get_attempts ip s.failed_attempts ≡ some (count, last)
      → max_failed_attempts ≤ count
      → now < last + block_duration
      → auth now ip token s ≡ (s, is_blocked)
  unfolding auth check_block
  stopped now count last token s known many soon =
      let over : leb max_failed_attempts count ≡ true = ground arith in
      let still : ltb (now - last) block_duration ≡ true = ground arith in
      ap
        (λ (a : Option (ℕ × ℕ)).
          admitted (block_of now ip a s.failed_attempts) s (check_auth now ip token))
        known
      ∙ rw (over, still) refl

  -- An address of which no failure is known and that fails to log in five times, each time within a minute
  -- after the last: until 300 seconds after the fifth failure every login is answered with 403, also one with
  -- the right token, and changes nothing.
  pub five_tries_block :
      (first : ℕ × Option (List ℕ)) (tries : Tries) (s : Server) (now : ℕ) (token : Option (List ℕ))
      → get_attempts ip s.failed_attempts ≡ none
      → length tries ≡ 4
      → IsRapid first.0 tries
      → AllWrong s (first ∷ tries)
      → now < last_time first.0 tries + block_duration
      → auth now ip token (tries_of ip (first ∷ tries) s)
        ≡ (tries_of ip (first ∷ tries) s, is_blocked)
  unfolding tries_of
  five_tries_block first tries s now token unknown four rapid wrong soon =
      let failed = record_failure first.0 ip s.failed_attempts in
      let t : Server = record s { failed_attempts = failed } in
      let known : get_attempts ip failed ≡ some (1, first.0) =
        get_attempts-record_failure first.0 ip s.failed_attempts ∙ rw unknown refl in
      rw (failing first.0 first.1 s (passes_new first.0 s.failed_attempts unknown) wrong.0) (
        stopped now (1 + length tries) (last_time first.0 tries) token (tries_of ip tries t)
          (counted tries 1 first.0 t known (omega arith) rapid
            (AllWrong-kept tries failed s wrong.1))
          (omega arith) soon)
