-- ===== src/Sas.antt =====
-- crates/nxfr-core/src/sas.rs: the six digits that two users compare, and the order of the device
-- identities in the exporter's context. The four exporter bytes come from TLS and are an argument.
use native.Mathlib.Nat.{pow-suc}
use nxfr.Prelude.{
  ℕ, zero, suc, List, [], ◌∷◌, ◌++◌, ◌≡◌, refl, Bool, true, false, ◌⊎◌, inl, inr, ◌+◌, ◌-◌, ◌*◌,
  ◌/◌, ◌%◌, ◌^◌, ◌≤◌, ◌<◌, ltb, ◌==◌, if◌then◌else◌, length, All, arith, from_be_bytes,
  length-append, take, drop, take-append_self, drop-append_self, Bool-cases, All-append,
}

-- `<` on byte arrays: the first difference decides.
unfoldable pub bytes_lt : List ℕ → List ℕ → Bool
bytes_lt [] [] = false
bytes_lt [] (y ∷ ys) = true
bytes_lt (x ∷ xs) [] = false
bytes_lt (x ∷ xs) (y ∷ ys) = let rest = bytes_lt xs ys in if x == y then rest else ltb x y

-- `{:06}` of a number below a million: its decimal digits, with zeros in front.
unfoldable pub padded_decimal : ℕ → ℕ → List ℕ
padded_decimal zero v = []
padded_decimal (suc k) v = padded_decimal k (v / 10) ++ (b'0' + v % 10) ∷ []

unfoldable pub sas_value : List ℕ → ℕ
sas_value exporter_bytes = from_be_bytes exporter_bytes % 1000000

unfoldable pub derive_sas : List ℕ → List ℕ → List ℕ → List ℕ × List ℕ
derive_sas device_id_a device_id_b exporter_bytes = (
  padded_decimal 6 (sas_value exporter_bytes),
  if bytes_lt device_id_a device_id_b
      then device_id_a ++ device_id_b
      else device_id_b ++ device_id_a,
)

bytes_lt_total : (a b : List ℕ) → bytes_lt a b ≡ false → bytes_lt b a ≡ false → a ≡ b
unfolding bytes_lt
bytes_lt_total [] [] h k = refl
bytes_lt_total [] (y ∷ b) h k = cc
bytes_lt_total (x ∷ a) [] h k = cc
bytes_lt_total (x ∷ a) (y ∷ b) h k = ground (arith, bytes_lt_total a b)

bytes_lt_asym : (a b : List ℕ) → bytes_lt a b ≡ true → bytes_lt b a ≡ false
unfolding bytes_lt
bytes_lt_asym [] [] h = cc
bytes_lt_asym [] (y ∷ b) h = refl
bytes_lt_asym (x ∷ a) [] h = cc
bytes_lt_asym (x ∷ a) (y ∷ b) h = ground (arith, bytes_lt_asym a b)

-- Both sides derive the same digits and the same context, whichever identity each calls its own.
pub derive_sas_comm : (a b e : List ℕ) → derive_sas a b e ≡ derive_sas b a e
unfolding derive_sas
derive_sas_comm a b e = elim (Bool-cases (bytes_lt a b)) [
  | inl h ↦ rw (h, bytes_lt_asym a b h) refl
  | inr h ↦ elim (Bool-cases (bytes_lt b a)) [
    | inl k ↦ rw (h, k) refl
    | inr k ↦ rw (bytes_lt_total a b h k) refl
  ]
]

split_context : (a b c d : List ℕ) → length a ≡ length c → a ++ b ≡ c ++ d → (a ≡ c) × (b ≡ d)
split_context a b c d len e =
    let front : take (length a) (a ++ b) ≡ take (length c) (c ++ d) = cc in
    let back : drop (length a) (a ++ b) ≡ drop (length c) (c ++ d) = cc in
    (
      cc (front, take-append_self a b, take-append_self c d),
      cc (back, drop-append_self a b, drop-append_self c d),
    )

-- The context of two 32-byte identities names them: equal contexts come from the same pair.
pub derive_sas_context :
    (a b c d e f : List ℕ)
    → length a ≡ 32
    → length b ≡ 32
    → length c ≡ 32
    → length d ≡ 32
    → (derive_sas a b e).1 ≡ (derive_sas c d f).1
    → ((a ≡ c) × (b ≡ d)) ⊎ ((a ≡ d) × (b ≡ c))
unfolding derive_sas
derive_sas_context a b c d e f la lb lc ld same = ground (
  arith,
  split_context a b c d,
  split_context a b d c,
  split_context b a c d,
  split_context b a d c,
)

-- Reads decimal digits.
abbrev pub read_decimal : ℕ → List ℕ → ℕ
read_decimal acc [] = acc
read_decimal acc (c ∷ cs) = read_decimal (acc * 10 + (c - b'0')) cs

abbrev pub IsDigit : ℕ → Type 0
IsDigit c = (b'0' ≤ c) × (c ≤ b'9')

read_decimal-append :
    (xs ys : List ℕ) (acc : ℕ) → read_decimal acc (xs ++ ys) ≡ read_decimal (read_decimal acc xs) ys
read_decimal-append [] ys acc = refl
read_decimal-append (x ∷ xs) ys acc = read_decimal-append xs ys (acc * 10 + (x - b'0'))

read_decimal-padded_decimal : (k v : ℕ) → v < 10 ^ k → read_decimal 0 (padded_decimal k v) ≡ v
unfolding padded_decimal
read_decimal-padded_decimal zero v h = omega arith
read_decimal-padded_decimal (suc k) v h =
    rw (read_decimal-append (padded_decimal k (v / 10)))
      (rw (read_decimal-padded_decimal k (v / 10) (omega (arith, pow-suc 10 k))) (omega arith))

padded_decimal_shape :
    (k v : ℕ) → (length (padded_decimal k v) ≡ k) × All IsDigit (padded_decimal k v)
unfolding padded_decimal
padded_decimal_shape zero v = (refl, tt)
padded_decimal_shape (suc k) v =
    let (len, digits) = padded_decimal_shape k (v / 10) in
    (
      omega (arith, length-append (padded_decimal k (v / 10)) ((b'0' + v % 10) ∷ [])),
      All-append IsDigit (padded_decimal k (v / 10)) _ digits (omega arith),
    )

-- The SAS is six decimal digits, which spell the exporter bytes' number modulo a million.
pub derive_sas_digits :
    (a b e : List ℕ)
    → (length (derive_sas a b e).0 ≡ 6)
      × All IsDigit (derive_sas a b e).0
      × (read_decimal 0 (derive_sas a b e).0 ≡ from_be_bytes e % 1000000)
unfolding derive_sas sas_value
derive_sas_digits a b e =
    let value = from_be_bytes e % 1000000 in
    let (len, digits) = padded_decimal_shape 6 value in
    (len, digits, read_decimal-padded_decimal 6 value (omega arith))
