-- ===== src/Prelude/Slices.antt =====
-- Fixed-width fields of a byte buffer, `buf[at..at + n]`.
use Prim.Native.Nat.{ℕ, ◌+◌, ◌≤◌, ◌<◌, ◌^◌}
use mathlib.Core.Path.{◌≡◌}
use mathlib.Core.List.{List, ◌++◌}
use native.Mathlib.Omega.{arith}
use nxfr.Prelude.Lists.{
  length, take, drop, take-add, drop-add, length-take, length-drop, All, All-take, All-drop,
}
use nxfr.Prelude.Words.{
  IsByte, to_be_bytes, from_be_bytes, to_be_bytes-from_be_bytes, from_be_bytes-lt,
}

-- The length is checked before; out of range the field is cut short.
abbrev pub field_at {ℓ} : {A : Type ℓ} → List A → ℕ → ℕ → List A
field_at buf at n = take n (drop at buf)

pub field_at-add {ℓ} :
    {A : Type ℓ} (buf : List A) (at n m : ℕ)
    → field_at buf at (n + m) ≡ field_at buf at n ++ field_at buf (at + n) m
field_at-add buf at n m = rw drop-add (take-add n m (drop at buf))

pub length-field_at {ℓ} :
    {A : Type ℓ} (buf : List A) (at n : ℕ) → at + n ≤ length buf → length (field_at buf at n) ≡ n
length-field_at buf at n fits = omega (arith, length-take n (drop at buf), length-drop at buf)

module _ (buf : List ℕ) (at n : ℕ) (bytes : All IsByte buf) (fits : at + n ≤ length buf) where
  pub to_be_bytes-field_at : to_be_bytes n (from_be_bytes (field_at buf at n)) ≡ field_at buf at n
  to_be_bytes-field_at =
      rw (length-field_at buf at n fits) at
        (to_be_bytes-from_be_bytes (field_at buf at n) (All-take _ n _ (All-drop _ at buf bytes)))

  pub from_be_bytes-field_at_lt : from_be_bytes (field_at buf at n) < 256 ^ n
  from_be_bytes-field_at_lt =
      rw (length-field_at buf at n fits) at
        (from_be_bytes-lt (field_at buf at n) (All-take _ n _ (All-drop _ at buf bytes)))
