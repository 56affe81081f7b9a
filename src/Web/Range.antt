-- ===== src/Web/Range.antt =====
-- crates/nxfr-web/src/lib.rs: `parse_range_header`, on the code points of the header's value, and the loop
-- that sends the bytes of a range. A read of the file takes what is asked for or less (`read_len`).
use nxfr.Prelude.{
  ℕ, zero, suc, ◌+◌, ◌-◌, ◌*◌, ◌^◌, codes, List, [], ◌∷◌, ◌++◌, Option, none, some, Bool, true,
  false, ◌&&◌, ◌||◌, ltb, leb, ◌==◌, if◌then◌else◌, length, take, drop, split_on, first_or_empty,
}
use Prim.Native.Nat.{min}
use mathlib.Core.List.{reverse}

-- `char::is_whitespace`
unfoldable pub is_whitespace : ℕ → Bool
is_whitespace c =
    (leb 9 c && leb c 13)
    || c == 32
    || c == 0x85
    || c == 0xa0
    || c == 0x1680
    || (leb 0x2000 c && leb c 0x200a)
    || c == 0x2028
    || c == 0x2029
    || c == 0x202f
    || c == 0x205f
    || c == 0x3000

unfoldable pub trim_start : List ℕ → List ℕ
trim_start [] = []
trim_start (c ∷ cs) = let rest = trim_start cs in if is_whitespace c then rest else c ∷ cs

-- `str::trim`
abbrev pub trim : List ℕ → List ℕ
trim s = reverse (trim_start (reverse (trim_start s)))

abbrev pub max_u64 : ℕ
max_u64 = 2 ^ 64 - 1

-- The digits of `str::parse::<u64>()`, with its test for overflow.
unfoldable pub parse_digits : ℕ → List ℕ → Option ℕ
parse_digits n [] = some n
parse_digits n (c ∷ cs) =
    let m = n * 10 + (c - b'0') in
    let rest = parse_digits m cs in
    if ltb c b'0' || ltb b'9' c then none else if ltb max_u64 m then none else rest

-- `str::parse::<u64>()`: a plus sign in front is accepted, and some digit is needed.
abbrev pub some_digits : List ℕ → Option ℕ
some_digits [] = none
some_digits (c ∷ cs) = parse_digits 0 (c ∷ cs)

unfoldable pub parse_u64 : List ℕ → Option ℕ
unfolding parse_digits
parse_u64 [] = none
parse_u64 (c ∷ cs) = if c == b'+' then some_digits cs else parse_digits 0 (c ∷ cs)

abbrev pub strip : List ℕ → List ℕ → Option (List ℕ)
strip [] s = some s
strip (p ∷ ps) [] = none
strip (p ∷ ps) (c ∷ cs) = if p == c then strip ps cs else none

abbrev pub push_before : ℕ → Option (List ℕ × List ℕ) → Option (List ℕ × List ℕ)
push_before c none = none
push_before c (some (before, after)) = some (c ∷ before, after)

-- `str::split_once`
unfoldable pub split_once : ℕ → List ℕ → Option (List ℕ × List ℕ)
split_once sep [] = none
split_once sep (c ∷ cs) =
    let rest = push_before c (split_once sep cs) in if c == sep then some ([], cs) else rest

infixl 5 ◌>>=◌
abbrev pub ◌>>=◌ {ℓ κ} : {A : Type ℓ} {B : Type κ} → Option A → (A → Option B) → Option B
none >>= f = none
some a >>= f = f a

abbrev pub last_of : ℕ → List ℕ → Option ℕ
last_of file_size [] = some (file_size - 1)
last_of file_size (c ∷ cs) = parse_u64 (c ∷ cs)

-- `bytes=-500`: the last bytes of the file.
unfoldable pub suffix_range : ℕ → List ℕ → Option (ℕ × ℕ)
suffix_range file_size end_str = do
  suffix_len ← parse_u64 end_str
  if suffix_len == 0 || ltb file_size suffix_len
      then none
      else some (file_size - suffix_len, file_size - 1)

unfoldable pub plain_range : ℕ → List ℕ → List ℕ → Option (ℕ × ℕ)
plain_range file_size start_str end_str = do
  start ← parse_u64 start_str
  end ← last_of file_size end_str
  if ltb end start || leb file_size start then none else some (start, min end (file_size - 1))

abbrev pub range_of : ℕ → List ℕ → List ℕ → Option (ℕ × ℕ)
range_of file_size [] end_str = suffix_range file_size end_str
range_of file_size (c ∷ cs) end_str = plain_range file_size (c ∷ cs) end_str

unfoldable pub parse_range_header : List ℕ → ℕ → Option (ℕ × ℕ)
unfolding split_once
parse_range_header header_val file_size = if file_size == 0 then none else do
  range_spec ← strip (codes "bytes=") (trim header_val)
  parts ← split_once b'-' (trim (first_or_empty (split_on b',' range_spec)))
  range_of file_size parts.0 parts.1

abbrev pub buffer_size : ℕ
buffer_size = 65_536

module _ (read_len : ℕ → ℕ → ℕ) where
  -- `while remaining > 0`: the bytes sent, from the rest of the file; a read of nothing ends the loop.
  unfoldable pub send_range : ℕ → ℕ → List ℕ → List ℕ
  send_range zero remaining rest = []
  send_range (suc fuel) remaining rest = elim (ltb 0 remaining) [
    | false ↦ []
    | true ↦
        let n = read_len (min remaining buffer_size) (length rest) in
        elim (n == 0) [
          | true ↦ []
          | false ↦ take n rest ++ send_range fuel (remaining - n) (drop n rest)
        ]
  ]

  -- The body of the answer to a range request: from `start`, `end - start + 1` bytes.
  unfoldable pub serve_range : ℕ × ℕ → List ℕ → List ℕ
  unfolding send_range
  serve_range (start, end) content =
      send_range (suc (end - start + 1)) (end - start + 1) (drop start content)
