-- ===== src/Prelude/Text.antt =====
-- Text as bytes: the code points of an ASCII literal, splitting and joining.
use Prim.Native.Nat.{ℕ, ◌+◌, ◌-◌, ◌/◌, ◌%◌}
use Prim.Native.Char.{code}
use Prim.Native.String.{String}
use mathlib.Core.Path.{◌≡◌, refl, ap, ◌∙◌}
use mathlib.Core.Bool.{Bool, false, ◌||◌}
use mathlib.Core.List.{List, [], ◌∷◌, ◌++◌}
use mathlib.Core.Logic.{◌≢◌, inl, inr}
use native.Mathlib.Omega.{arith}
use nxfr.Prelude.Tests.{◌==◌, ltb, if◌then◌else◌, ==_refl, Bool-cases}
use nxfr.Prelude.Lists.{any, All}

-- The code points of a text: its bytes, if it is ASCII.
abbrev pub codes : String → List ℕ
codes String.[] = []
codes (String.◌∷◌ c s) = code c ∷ codes s

abbrev pub push_front : ℕ → List (List ℕ) → List (List ℕ)
push_front x [] = (x ∷ []) ∷ []
push_front x (p ∷ ps) = (x ∷ p) ∷ ps

-- `str::split(c)`: never empty, and one piece more than there are separators.
unfoldable pub split_on : ℕ → List ℕ → List (List ℕ)
split_on c [] = [] ∷ []
split_on c (x ∷ xs) = let rest = split_on c xs in if x == c then [] ∷ rest else push_front x rest

-- `[&str]::join(c)`
unfoldable pub join_with : ℕ → List (List ℕ) → List ℕ
join_with c [] = []
join_with c (p ∷ []) = p
join_with c (p ∷ q ∷ ps) = p ++ (c ∷ join_with c (q ∷ ps))

-- `split(c).next().unwrap_or("")`
abbrev pub first_or_empty : List (List ℕ) → List ℕ
first_or_empty [] = []
first_or_empty (p ∷ _) = p

-- `contains(c)`
abbrev pub contains : ℕ → List ℕ → Bool
contains c = any (λ x. x == c)

or_false : (p q : Bool) → (p || q) ≡ false → (p ≡ false) × (q ≡ false)
or_false p q h = ground arith

module _ (c : ℕ) where
  -- A piece without separators is split off whole.
  split_on_piece : (p : List ℕ) → contains c p ≡ false → split_on c p ≡ p ∷ []
  unfolding split_on
  split_on_piece [] h = refl
  split_on_piece (x ∷ p) h = ground (arith, split_on_piece p)

  split_on-append :
      (p rest : List ℕ) → contains c p ≡ false → split_on c (p ++ (c ∷ rest)) ≡ p ∷ split_on c rest
  unfolding split_on
  split_on-append [] rest h = rw ==_refl refl
  split_on-append (x ∷ p) rest h = ground (arith, split_on-append p rest)

  abbrev pub AreFree : List (List ℕ) → Type 0
  AreFree = All (λ p. contains c p ≡ false)

  -- Pieces without separators, joined, are split into themselves.
  pub split_on-join_with :
      (p : List ℕ) (ps : List (List ℕ))
      → AreFree (p ∷ ps)
      → split_on c (join_with c (p ∷ ps)) ≡ p ∷ ps
  unfolding join_with
  split_on-join_with p [] h = split_on_piece p h.0
  split_on-join_with p (q ∷ ps) h =
      split_on-append p (join_with c (q ∷ ps)) h.0 ∙ ap (λ qs. p ∷ qs) (split_on-join_with q ps h.1)

  push_front_free :
      (x : ℕ) (ps : List (List ℕ)) → (x == c) ≡ false → AreFree ps → AreFree (push_front x ps)
  push_front_free x [] h k = ground arith
  push_front_free x (p ∷ ps) h k = ground arith

  pub split_on_free : (xs : List ℕ) → AreFree (split_on c xs)
  unfolding split_on
  split_on_free [] = (refl, tt)
  split_on_free (x ∷ xs) = elim (Bool-cases (x == c)) [
    | inl e ↦ rw e (refl, split_on_free xs)
    | inr e ↦ rw e (push_front_free x (split_on c xs) e (split_on_free xs))
  ]

-- A test that no byte of a text passes passes no byte of its pieces, and back.
module _ (c : ℕ) (q : ℕ → Bool) where
  abbrev pub Avoid : List (List ℕ) → Type 0
  Avoid = All (λ p. any q p ≡ false)

  any-append : (xs ys : List ℕ) → any q xs ≡ false → any q ys ≡ false → any q (xs ++ ys) ≡ false
  any-append [] ys h k = k
  any-append (x ∷ xs) ys h k = ground (arith, any-append xs ys)

  push_front_avoids :
      (x : ℕ) (ps : List (List ℕ)) → q x ≡ false → Avoid ps → Avoid (push_front x ps)
  push_front_avoids x [] h k = ground arith
  push_front_avoids x (p ∷ ps) h k = ground arith

  pub split_on_avoids : (xs : List ℕ) → any q xs ≡ false → Avoid (split_on c xs)
  unfolding split_on
  split_on_avoids [] h = (refl, tt)
  split_on_avoids (x ∷ xs) h =
      let (hx, hxs) = or_false (q x) (any q xs) h in
      elim (Bool-cases (x == c)) [
        | inl e ↦ rw e (refl, split_on_avoids xs hxs)
        | inr e ↦ rw e (push_front_avoids x (split_on c xs) hx (split_on_avoids xs hxs))
      ]

  pub join_with_avoids :
      (ps : List (List ℕ)) → q c ≡ false → Avoid ps → any q (join_with c ps) ≡ false
  unfolding join_with
  join_with_avoids [] hc h = refl
  join_with_avoids (p ∷ []) hc h = h.0
  join_with_avoids (p ∷ r ∷ ps) hc h =
      any-append p (c ∷ join_with c (r ∷ ps)) h.0 (rw hc (join_with_avoids (r ∷ ps) hc h.1))

pub split_on-ne-nil : (c : ℕ) (xs : List ℕ) → split_on c xs ≢ []
unfolding split_on
split_on-ne-nil c [] e = cc
split_on-ne-nil c (x ∷ xs) e = ground (arith, split_on-ne-nil c xs)

-- The UTF-8 bytes of a code point, and of a text (`str::as_bytes`).
unfoldable pub encode_utf8 : ℕ → List ℕ
encode_utf8 c =
    if ltb c 0x80
    then c ∷ []
    else if ltb c 0x800
    then (0xc0 + c / 0x40) ∷ (0x80 + c % 0x40) ∷ []
    else if ltb c 0x10000
    then (0xe0 + c / 0x1000) ∷ (0x80 + c / 0x40 % 0x40) ∷ (0x80 + c % 0x40) ∷ []
    else (0xf0 + c / 0x40000)
      ∷ (0x80 + c / 0x1000 % 0x40)
      ∷ (0x80 + c / 0x40 % 0x40)
      ∷ (0x80 + c % 0x40)
      ∷ []

abbrev pub utf8_of : List ℕ → List ℕ
utf8_of [] = []
utf8_of (c ∷ cs) = encode_utf8 c ++ utf8_of cs

abbrev pub as_bytes : String → List ℕ
as_bytes s = utf8_of (codes s)

-- `hex::encode`: two digits in lower case for each byte.
abbrev pub hex_digit : ℕ → ℕ
hex_digit n = if ltb n 10 then b'0' + n else b'a' + n - 10

abbrev pub hex_encode : List ℕ → List ℕ
hex_encode [] = []
hex_encode (b ∷ bs) = hex_digit (b / 16) ∷ hex_digit (b % 16) ∷ hex_encode bs
