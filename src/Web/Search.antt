-- ===== src/Web/Search.antt =====
-- What `position` finds in a buffer and in the bytes that it is a part of (crates/nxfr-web/src/lib.rs).
use nxfr.Prelude.{
  ℕ, zero, suc, ◌+◌, ◌-◌, ◌≤◌, ◌<◌, ◌≡◌, refl, arith, ◌∙◌, ap, sym, List, [], ◌∷◌, ◌++◌, Option,
  none, some, true, false, ◌==◌, length, take, drop, Bool-cases, inl, inr, &&→both,
}
use mathlib.Core.Option
use nxfr.Web.Upload.{starts_with, position}

pub starts_with-append :
    (needle xs ys : List ℕ) → starts_with needle xs ≡ true → starts_with needle (xs ++ ys) ≡ true
unfolding starts_with
starts_with-append [] xs ys h = refl
starts_with-append (c ∷ cs) [] ys h = cc
starts_with-append (c ∷ cs) (x ∷ xs) ys h =
    let (p, q) = &&→both (c == x) (starts_with cs xs) h in rw p (starts_with-append cs xs ys q)

starts_with_prefix :
    (needle xs ys : List ℕ)
    → length needle ≤ length xs
    → starts_with needle (xs ++ ys) ≡ starts_with needle xs
unfolding starts_with
starts_with_prefix [] xs ys h = refl
starts_with_prefix (c ∷ cs) [] ys h = absurd (omega arith)
starts_with_prefix (c ∷ cs) (x ∷ xs) ys h = rw (starts_with_prefix cs xs ys (omega arith)) refl

length-starts_with : (needle xs : List ℕ) → starts_with needle xs ≡ true → length needle ≤ length xs
unfolding starts_with
length-starts_with [] xs h = omega arith
length-starts_with (c ∷ cs) [] h = cc
length-starts_with (c ∷ cs) (x ∷ xs) h =
    let (p, q) = &&→both (c == x) (starts_with cs xs) h in omega (arith, length-starts_with cs xs q)

map-suc_inv :
    (o : Option ℕ) (p : ℕ)
    → Option.map (λ (k : ℕ). suc k) o ≡ some p
    → (k : ℕ) × (o ≡ some k) × (p ≡ suc k)
map-suc_inv none p h = cc
map-suc_inv (some k) p h = (k, refl, cc h)

module _ (needle : List ℕ) (some_needle : 0 < length needle) where
  -- What is found in a part of the text is found in the whole.
  pub position-append :
      (xs ys : List ℕ) (p : ℕ)
      → position needle xs ≡ some p
      → (position needle (xs ++ ys) ≡ some p) × (p + length needle ≤ length xs)
  unfolding position
  position-append [] ys p h = cc
  position-append (x ∷ xs) ys p h = elim (Bool-cases (starts_with needle (x ∷ xs))) [
    | inl here ↦
        let zero_is : ◌≡◌ {A = ℕ} 0 p = cc (rw here at h) in
        let fits = length-starts_with needle (x ∷ xs) here in
        (rw (position, starts_with-append needle (x ∷ xs) ys here) (ap some zero_is), omega arith)
    | inr later ↦
        let (k, found, next) = map-suc_inv (position needle xs) p (rw later at h) in
        let (whole, fits) = position-append xs ys k found in
        let not_here : starts_with needle ((x ∷ xs) ++ ys) ≡ false =
          starts_with_prefix needle (x ∷ xs) ys (omega arith) ∙ later in
        (rw (position, not_here, whole, next) refl, omega arith)
  ]

  -- What is found in the whole and lies in a part is found in the part.
  pub position_prefix :
      (xs ys : List ℕ) (p : ℕ)
      → position needle (xs ++ ys) ≡ some p
      → p + length needle ≤ length xs
      → position needle xs ≡ some p
  unfolding position
  position_prefix [] ys p h fits = absurd (omega arith)
  position_prefix (x ∷ xs) ys p h fits =
      let same = starts_with_prefix needle (x ∷ xs) ys (omega arith) in
      elim (Bool-cases (starts_with needle (x ∷ xs))) [
        | inl here ↦ rw (position, here) (rw (same, here) at h)
        | inr later ↦
            let (k, found, next) =
              map-suc_inv (position needle (xs ++ ys)) p (rw (same, later) at h) in
            let part = position_prefix xs ys k found (omega arith) in
            rw (position, later, part, next) refl
      ]

  pub position-drop :
      (k : ℕ) (xs : List ℕ) (p : ℕ)
      → position needle xs ≡ some p
      → k ≤ p
      → position needle (drop k xs) ≡ some (p - k)
  unfolding position
  position-drop zero xs p h le = h ∙ ap some (omega arith)
  position-drop (suc k) [] p h le = cc
  position-drop (suc k) (x ∷ xs) p h le = elim (Bool-cases (starts_with needle (x ∷ xs))) [
    | inl here ↦ let zero_is : ◌≡◌ {A = ℕ} 0 p = cc (rw here at h) in absurd (omega arith)
    | inr later ↦
        let (j, found, next) = map-suc_inv (position needle xs) p (rw later at h) in
        position-drop k xs j found (omega arith) ∙ ap some (omega arith)
  ]

module _ {ℓ} {A : Type ℓ} where
  take_prefix : (n : ℕ) (xs ys : List A) → n ≤ length xs → take n (xs ++ ys) ≡ take n xs
  take_prefix zero xs ys h = refl
  take_prefix (suc n) [] ys h = absurd (omega arith)
  take_prefix (suc n) (x ∷ xs) ys h = ap (λ zs. x ∷ zs) (take_prefix n xs ys (omega arith))

  pub drop_prefix : (n : ℕ) (xs ys : List A) → n ≤ length xs → drop n (xs ++ ys) ≡ drop n xs ++ ys
  drop_prefix zero xs ys h = refl
  drop_prefix (suc n) [] ys h = absurd (omega arith)
  drop_prefix (suc n) (x ∷ xs) ys h = drop_prefix n xs ys (omega arith)

  pub take_same :
      (n : ℕ) (xs ys rs zs : List A)
      → xs ++ ys ≡ rs ++ zs
      → n ≤ length xs
      → n ≤ length rs
      → take n xs ≡ take n rs
  take_same n xs ys rs zs same h k =
      sym (take_prefix n xs ys h) ∙ ap (take n) same ∙ take_prefix n rs zs k
