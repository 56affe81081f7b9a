-- ===== src/Codec/Arrays.antt =====
-- Arrays that `iter().map(..).collect()` builds, under the nesting check and the loops of the decoder.
use nxfr.Prelude.{
  ℕ, List, [], ◌∷◌, ◌≡◌, refl, ap, ◌%◌, ◌^◌, suc, length, All, IsU32, IsU64, Result, ok, arith,
  String,
}
use nxfr.Common.Errors.{CodecError}
use nxfr.Codec.Value.{
  Value, text, array_of, collect, length_values, check_nesting_depth, check_values,
}
use nxfr.Codec.Getters.{u32_item, str_item, uint_to_value}

module _ {ℓ} {A : Type ℓ} (item : A → Value) where
  pub length_values-array_of : (xs : List A) → length_values (array_of item xs) ≡ length xs
  length_values-array_of [] = refl
  length_values-array_of (x ∷ xs) = ap suc (length_values-array_of xs)

  pub check_values-array_of :
      (depth : ℕ)
      → ((x : A) → check_nesting_depth (item x) depth ≡ ok tt)
      → (xs : List A) → check_values (array_of item xs) depth ≡ ok tt
  unfolding check_values
  check_values-array_of depth shallow [] = refl
  check_values-array_of depth shallow (x ∷ xs) =
      rw (shallow x) (check_values-array_of depth shallow xs)

  pub collect-array_of :
      (read : Value → Result CodecError A) (xs : List A)
      → All (λ x. read (item x) ≡ ok x) xs
      → collect read (array_of item xs) ≡ ok xs
  unfolding collect
  collect-array_of read [] h = refl
  collect-array_of read (x ∷ xs) h = rw (h.0, collect-array_of read xs h.1) refl

module _ {ℓ κ μ} {A : Type ℓ} {P : A → Type κ} {Q : A → Type μ} (f : (a : A) → P a → Q a) where
  pub All-map : (xs : List A) → All P xs → All Q xs
  All-map [] h = tt
  All-map (x ∷ xs) h = (f x h.0, All-map xs h.1)

-- A word that fits is the word that the casts leave.
pub u64_mod : (n : ℕ) → IsU64 n → n % 2 ^ 64 ≡ n
u64_mod n h = omega arith

pub u32_mod : (n : ℕ) → IsU32 n → n % 2 ^ 64 % 2 ^ 32 ≡ n
u32_mod n h = omega arith

pub collect-u32_item :
    (key : String) (ids : List ℕ)
    → All IsU32 ids
    → collect (u32_item key) (array_of uint_to_value ids) ≡ ok ids
collect-u32_item key ids h = collect-array_of uint_to_value (u32_item key) ids (All-map same ids h)
  where
    same : (n : ℕ) → IsU32 n → u32_item key (uint_to_value n) ≡ ok n
    same n fits = ap ok (omega arith)

pub collect-str_item :
    (key : String) (ss : List String) → collect (str_item key) (array_of text ss) ≡ ok ss
collect-str_item key ss = collect-array_of text (str_item key) ss (every ss)
  where
    every : (xs : List String) → All (λ s. str_item key (text s) ≡ ok s) xs
    every [] = tt
    every (x ∷ xs) = (refl, every xs)
