-- ===== src/Prelude/Results.antt =====
-- Rust's `Result`, its `?` as the bind of `do` blocks, and the inversion of a successful bind.
use mathlib.Core.Path.{◌≡◌, refl}
use mathlib.Core.Bool.{Bool, true, false}
use mathlib.Core.Logic.{◌⊎◌, inl, inr}
use mathlib.Core.Option.{Option, none, some}
use mathlib.Core.List.{List, [], ◌∷◌}

pub data Result {ℓ} (E : Type 0) (A : Type ℓ) : Type ℓ where
  ok : A → Result E A
  err : E → Result E A

module _ {E : Type 0} where
  infixl 5 ◌>>◌ ◌>>=◌
  -- The error is passed on, and the rest is not run.
  abbrev pub ◌>>=◌ {ℓ κ} :
      {A : Type ℓ} {B : Type κ} (first : Result E A) (rest : A → Result E B) → Result E B
  err stop >>= rest = err stop
  ok found >>= rest = rest found

  -- A check that has no value of its own.
  abbrev pub ◌>>◌ {ℓ} : {B : Type ℓ} (check : Result E (Unit {0})) (rest : Result E B) → Result E B
  check >> rest = check >>= λ _. rest

-- `if test { return Err(e) }`
abbrev pub reject_if : {E : Type 0} → Bool → E → Result E (Unit {0})
reject_if true e = err e
reject_if false e = ok tt

-- `Option::ok_or_else`
abbrev pub ok_or {ℓ} : {E : Type 0} {A : Type ℓ} → Option A → E → Result E A
ok_or none e = err e
ok_or (some a) e = ok a

-- `iter().map(f).collect::<Result<Vec<_>, _>>()`, and a loop that pushes or returns the error.
module _ {ℓ κ} {E : Type 0} {A : Type ℓ} {B : Type κ} where
  unfoldable pub traverse : (A → Result E B) → List A → Result E (List B)
  traverse f [] = ok []
  traverse f (a ∷ as') = do b ← f a; bs ← traverse f as'; ok (b ∷ bs)

pub Result-cases {ℓ} :
    {E : Type 0} {A : Type ℓ} (r : Result E A) → ((a : A) × (r ≡ ok a)) ⊎ ((e : E) × (r ≡ err e))
Result-cases (ok a) = inl (a, refl)
Result-cases (err e) = inr (e, refl)

-- What a chain of steps that succeeds has gone through.
pub >>=-eq-ok {ℓ κ} :
    {E : Type 0} {A : Type ℓ} {B : Type κ} (first : Result E A) (rest : A → Result E B) {b : B}
    → (first >>= rest) ≡ ok b
    → (a : A) × (first ≡ ok a) × (rest a ≡ ok b)
>>=-eq-ok (err stop) rest reached = cc
>>=-eq-ok (ok found) rest reached = (found, refl, reached)
