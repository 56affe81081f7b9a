-- ===== src/Codec/Ensures.antt =====
-- What holds of every result that a decoder returns, composed the way its `?` composes.
use nxfr.Prelude.{
  ℕ, String, List, [], ◌∷◌, ◌≡◌, refl, ap, suc, Result, ok, err, ◌>>=◌, Option, none, some, IsU32,
  IsU64, arith, Bool, length, All, true, false, ◌==◌, if◌then◌else◌, Bool-cases, ==→eq, inl, inr,
  ◌^◌, ◌%◌,
}
use nxfr.Common.Errors.{CodecError}
use nxfr.Common.Platform.{ProtocolVersion}
use nxfr.Codec.Value.{
  ℤ, pos, negsuc, as_unsigned, Value, Values, nil, cons, integer, bytes, array, collect,
  length_values,
}
use nxfr.Codec.Map.{CborMap, get}
use nxfr.Codec.Getters.{
  uint_of, bytes_of, uint_array_of, u32_item, version_of, version_part, optional, get_required,
  get_uint, get_uint_opt, get_bytes, get_bytes_opt, get_uint_array_opt, get_u32,
  parse_version_array,
}
use nxfr.Codec.WellFormed.{Optionally}

pub record Ensures {ℓ} {A : Type ℓ} (P : A → Type 0) (r : Result CodecError A) : Type ℓ where
  pub holds : (a : A) → r ≡ ok a → P a

abbrev pub Anything {ℓ} : {A : Type ℓ} → A → Type 0
Anything a = Unit {0}

module _ {ℓ} {A : Type ℓ} where
  pub anything : (r : Result CodecError A) → Ensures Anything r
  anything r = record { holds = λ a e. tt }

  pub returns : (P : A → Type 0) (a : A) → P a → Ensures P (ok a)
  returns P a h = record { holds = λ b e. (let same : a ≡ b = cc in rw (← same) h) }

  pub fails : (P : A → Type 0) (e : CodecError) → Ensures P (err e)
  fails P e = record { holds = λ b same. cc }

infixl 5 ◌then◌
pub ◌then◌ {ℓ κ} :
    {A : Type ℓ} {B : Type κ} {P : A → Type 0} {Q : B → Type 0} {m : Result CodecError A}
    {f : A → Result CodecError B}
    → Ensures P m
    → ((a : A) → P a → Ensures Q (f a))
    → Ensures Q (m >>= f)
◌then◌ {m = ok a} h k = k a (h.holds a refl)
◌then◌ {m = err e} h k = fails _ e

module _ {ℓ} {A : Type ℓ} (P : A → Type 0) (f : Value → Result CodecError A)
    (h : (v : Value) → Ensures P (f v)) where
  pub Ensures-optional : (o : Option Value) → Ensures (Optionally P) (optional f o)
  Ensures-optional none = returns (Optionally P) none tt
  Ensures-optional (some v) = h v then λ a p. returns (Optionally P) (some a) p

  pub Ensures-collect : (vs : Values) → Ensures (All P) (collect f vs)
  unfolding collect
  Ensures-collect nil = returns (All P) [] tt
  Ensures-collect (cons v vs) =
      h v then λ x p. Ensures-collect vs then λ xs ps. returns (All P) (x ∷ xs) (p, ps)

module _ {ℓ} {A : Type ℓ} where
  pub both :
      (P Q : A → Type 0) (r : Result CodecError A)
      → Ensures P r
      → Ensures Q r
      → Ensures (λ a. P a × Q a) r
  both P Q r h k = record { holds = λ a e. (h.holds a e, k.holds a e) }

  -- Of a test, both branches.
  pub branches :
      (P : A → Type 0) (b : Bool) {x y : Result CodecError A}
      → Ensures P x
      → Ensures P y
      → Ensures P (if b then x else y)
  branches P true h k = h
  branches P false h k = k

  pub Ensures-collect-length :
      (f : Value → Result CodecError A) (vs : Values)
      → Ensures (λ xs. length xs ≡ length_values vs) (collect f vs)
  unfolding collect
  Ensures-collect-length f nil = returns (λ xs. length xs ≡ 0) [] refl
  Ensures-collect-length f (cons v vs) = anything (f v) then λ x _.
      Ensures-collect-length f vs then λ xs same.
      returns (λ ys. length ys ≡ suc (length_values vs)) (x ∷ xs) (ap suc same)

pub as_unsigned_fits_32 : (i : ℤ) → IsU32 (as_unsigned 32 i)
as_unsigned_fits_32 (pos n) = omega arith
as_unsigned_fits_32 (negsuc n) = omega arith

pub as_unsigned_fits_64 : (i : ℤ) → IsU64 (as_unsigned 64 i)
as_unsigned_fits_64 (pos n) = omega arith
as_unsigned_fits_64 (negsuc n) = omega arith

uint_of_fits : (key : String) (v : Value) → Ensures IsU64 (uint_of key v)
uint_of_fits key (integer (pos n)) = returns IsU64 (as_unsigned 64 (pos n)) (omega arith)
uint_of_fits key (integer (negsuc n)) = fails IsU64 _
uint_of_fits key _ = fails IsU64 _

abbrev pub HasWidth : ℕ → List ℕ → Type 0
HasWidth n b = length b ≡ n

bytes_of_width : (key : String) (n : ℕ) (v : Value) → Ensures (HasWidth n) (bytes_of key n v)
bytes_of_width key n (bytes b) = elim (Bool-cases (length b == n)) [
  | inl same ↦ rw same (returns (HasWidth n) b (==→eq (length b) n same))
  | inr other ↦ rw other (fails (HasWidth n) _)
]
bytes_of_width key n _ = fails (HasWidth n) _

u32_item_fits : (key : String) (v : Value) → Ensures IsU32 (u32_item key v)
u32_item_fits key (integer i) = returns IsU32 (as_unsigned 32 i) (as_unsigned_fits_32 i)
u32_item_fits key _ = fails IsU32 _

uint_array_of_fits : (key : String) (v : Value) → Ensures (All IsU32) (uint_array_of key v)
uint_array_of_fits key (array vs) = Ensures-collect IsU32 (u32_item key) (u32_item_fits key) vs
uint_array_of_fits key _ = fails (All IsU32) _

abbrev pub IsVersion : ProtocolVersion → Type 0
IsVersion v = IsU32 v.major × IsU32 v.minor

version_part_fits : (v : Value) → Ensures IsU32 (version_part v)
version_part_fits (integer i) = returns IsU32 (as_unsigned 32 i) (as_unsigned_fits_32 i)
version_part_fits _ = fails IsU32 _

version_of_fits : (v : Value) → Ensures IsVersion (version_of v)
version_of_fits (array (cons a (cons b nil))) = version_part_fits a then λ major hm.
    version_part_fits b then λ minor hn.
    returns IsVersion (record { major = major; minor = minor }) (hm, hn)
version_of_fits _ = fails IsVersion _

pub parse_version_array_fits : (m : CborMap) → Ensures IsVersion (parse_version_array m)
unfolding parse_version_array
parse_version_array_fits m =
    anything (get_required m "protocol_version") then λ v _. version_of_fits v

module _ (m : CborMap) (key : String) where
  pub get_uint_fits : Ensures IsU64 (get_uint m key)
  unfolding get_uint
  get_uint_fits = anything (get_required m key) then λ v _. uint_of_fits key v

  pub get_u32_fits : Ensures IsU32 (get_u32 m key)
  get_u32_fits = get_uint_fits then λ n _. returns IsU32 (n % 2 ^ 32) (omega arith)

  pub get_uint_opt_fits : Ensures (Optionally IsU64) (get_uint_opt m key)
  unfolding get_uint_opt
  get_uint_opt_fits = Ensures-optional IsU64 (uint_of key) (uint_of_fits key) (get m key)

  pub get_uint_array_opt_fits : Ensures (Optionally (All IsU32)) (get_uint_array_opt m key)
  unfolding get_uint_array_opt
  get_uint_array_opt_fits =
      Ensures-optional (All IsU32) (uint_array_of key) (uint_array_of_fits key) (get m key)

  pub get_bytes_width : (n : ℕ) → Ensures (HasWidth n) (get_bytes m key n)
  unfolding get_bytes
  get_bytes_width n = anything (get_required m key) then λ v _. bytes_of_width key n v

  pub get_bytes_opt_width : (n : ℕ) → Ensures (Optionally (HasWidth n)) (get_bytes_opt m key n)
  unfolding get_bytes_opt
  get_bytes_opt_width n =
      Ensures-optional (HasWidth n) (bytes_of key n) (bytes_of_width key n) (get m key)
