-- ===== src/Codec/Value.antt =====
-- The values of the crate `ciborium`, as crates/nxfr-core/src/codec.rs matches on them, and the
-- check of their nesting.
use nxfr.Prelude.{
  ℕ, String, List, [], ◌∷◌, Bool, ltb, suc, ◌-◌, ◌%◌, ◌^◌, Result, ok, err, ◌>>=◌, ◌>>◌, reject_if,
}
use nxfr.Common.Limits.{max_cbor_nesting}
use nxfr.Common.Errors.{CodecError, nesting_too_deep, tag_not_allowed}

-- An `i128` that a CBOR integer holds; `negsuc n` is -(n + 1).
pub data ℤ : Type 0 where
  pos : ℕ → ℤ
  negsuc : ℕ → ℤ

-- `v as u32` and `v as u64`: the low bits of the two's complement.
abbrev pub as_unsigned : ℕ → ℤ → ℕ
as_unsigned bits (pos n) = n % 2 ^ bits
as_unsigned bits (negsuc n) = 2 ^ bits - 1 - n % 2 ^ bits

-- A float is known by its bit pattern.
mutual
  pub data Value : Type 0 where
    integer : ℤ → Value
    bytes : List ℕ → Value
    float : ℕ → Value
    text : String → Value
    bool : Bool → Value
    null : Value
    tag : ℕ → Value → Value
    array : Values → Value
    map_value : Entries → Value

  pub data Values : Type 0 where
    nil : Values
    cons : Value → Values → Values

  pub data Entries : Type 0 where
    end : Entries
    entry : Value → Value → Entries → Entries

-- The test at the head of `check_nesting_depth`.
abbrev pub check_depth : ℕ → Result CodecError (Unit {0})
check_depth depth = reject_if (ltb max_cbor_nesting depth) (nesting_too_deep depth)

unfoldable mutual
  pub check_nesting_depth : Value → ℕ → Result CodecError (Unit {0})
  check_nesting_depth (integer i) depth = check_depth depth
  check_nesting_depth (bytes b) depth = check_depth depth
  check_nesting_depth (float f) depth = check_depth depth
  check_nesting_depth (text s) depth = check_depth depth
  check_nesting_depth (bool b) depth = check_depth depth
  check_nesting_depth null depth = check_depth depth
  check_nesting_depth (tag t v) depth = check_depth depth >> err tag_not_allowed
  check_nesting_depth (array vs) depth = check_depth depth >> check_values vs (suc depth)
  check_nesting_depth (map_value es) depth = check_depth depth >> check_entries es (suc depth)

  pub check_values : Values → ℕ → Result CodecError (Unit {0})
  check_values nil depth = ok tt
  check_values (cons v vs) depth = check_nesting_depth v depth >> check_values vs depth

  pub check_entries : Entries → ℕ → Result CodecError (Unit {0})
  check_entries end depth = ok tt
  check_entries (entry k v es) depth =
      check_nesting_depth k depth >> (check_nesting_depth v depth >> check_entries es depth)

abbrev pub length_values : Values → ℕ
length_values nil = 0
length_values (cons v vs) = suc (length_values vs)

-- `iter().map(f).collect()` into an array.
abbrev pub array_of {ℓ} : {A : Type ℓ} → (A → Value) → List A → Values
array_of f [] = nil
array_of f (x ∷ xs) = cons (f x) (array_of f xs)

-- The loop over an array that pushes what `f` makes of an item, or returns its error.
unfoldable pub collect {ℓ} :
    {A : Type ℓ} → (Value → Result CodecError A) → Values → Result CodecError (List A)
collect f nil = ok []
collect f (cons v vs) = do x ← f v; xs ← collect f vs; ok (x ∷ xs)
