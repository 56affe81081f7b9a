-- ===== src/Web/Dechunked.antt =====
-- A strict reader of the chunked coding (RFC 9112, section 7.1, with no extensions and no trailers), and
-- what it makes of what `ChunkedWriter` writes
-- (crates/nxfr-web/src/lib.rs).
use nxfr.Prelude.{
  ℕ, zero, suc, ◌+◌, ◌-◌, ◌*◌, ◌/◌, ◌%◌, ◌^◌, ◌<◌, ◌≡◌, refl, arith, ◌∙◌, ap, sym, List, [], ◌∷◌,
  ◌++◌, append_assoc, All, Option, none, some, true, false, ◌&&◌, ltb, ◌==◌, if◌then◌else◌, length,
  length-append, take, drop, take-append_self, drop-append_self, Bool-cases, inl, inr,
}
use native.Mathlib.Nat.{pow-suc}
use nxfr.Receiver.Delivery.{concat}
use nxfr.Web.Chunked.{crlf, upper_digit, hex_upper, write_chunk, write_all}

-- The value of an upper-case digit.
abbrev pub hex_value : ℕ → Option ℕ
hex_value c =
    if ltb c b'0'
    then none
    else if ltb c 58
    then some (c - b'0')
    else if ltb c b'A'
    then none
    else if ltb c 71
    then some (c - b'A' + 10)
    else none

-- A line end, which has to be there.
unfoldable pub strip_crlf : List ℕ → Option (List ℕ)
strip_crlf (a ∷ b ∷ rest) = if a == 13 && b == 10 then some rest else none
strip_crlf _ = none

abbrev pub with_size : ℕ → Option (List ℕ) → Option (ℕ × List ℕ)
with_size n none = none
with_size n (some rest) = some (n, rest)

-- The size in front of a chunk: digits up to the line end, and what follows it.
abbrev pub size_step : Option ℕ → ℕ → (ℕ → Option (ℕ × List ℕ)) → Option (ℕ × List ℕ)
size_step none n next = none
size_step (some d) n next = next (16 * n + d)

unfoldable pub read_size : ℕ → List ℕ → Option (ℕ × List ℕ)
unfolding strip_crlf
read_size n [] = none
read_size n (c ∷ cs) =
    let rest = size_step (hex_value c) n (λ m. read_size m cs) in
    if c == 13 then with_size n (strip_crlf (c ∷ cs)) else rest

-- There is one digit at least.
abbrev pub if_digit : Option ℕ → List ℕ → Option (ℕ × List ℕ)
if_digit none bytes = none
if_digit (some d) bytes = read_size 0 bytes

unfoldable pub read_some_size : List ℕ → Option (ℕ × List ℕ)
read_some_size [] = none
read_some_size (c ∷ cs) = if_digit (hex_value c) (c ∷ cs)

upper_digit_value : (n : ℕ) → n < 16 → hex_value (upper_digit n) ≡ some n
upper_digit_value n h = ground arith

digit_is_no_return : (n : ℕ) → n < 16 → (upper_digit n == 13) ≡ false
digit_is_no_return n h = ground arith

read_digit :
    (n d : ℕ) (cs : List ℕ) → d < 16 → read_size n (upper_digit d ∷ cs) ≡ read_size (16 * n + d) cs
unfolding read_size
read_digit n d cs h = rw (read_size, digit_is_no_return d h, upper_digit_value d h) refl

read_hex_upper :
    (k n : ℕ) (tail : List ℕ) → n < 16 ^ k → read_size 0 (hex_upper k n ++ tail) ≡ read_size n tail
unfolding hex_upper
read_hex_upper zero n tail h = let none_left : n ≡ 0 = omega arith in rw none_left refl
read_hex_upper (suc k) n tail h = elim (Bool-cases (ltb n 16)) [
  | inl e ↦
      let alone : 16 * 0 + n ≡ n = omega arith in
      rw e (read_digit 0 n tail (ground arith) ∙ ap (λ (m : ℕ). read_size m tail) alone)
  | inr e ↦
      let whole : 16 * (n / 16) + n % 16 ≡ n = omega arith in
      rw e (
        ap (read_size 0) (append_assoc (hex_upper k (n / 16)) (upper_digit (n % 16) ∷ []) tail)
        ∙ read_hex_upper k (n / 16) (upper_digit (n % 16) ∷ tail) (omega (arith, pow-suc 16 k))
        ∙ read_digit (n / 16) (n % 16) tail (omega arith)
        ∙ ap (λ (m : ℕ). read_size m tail) whole)
]

read_return : (n : ℕ) (rest : List ℕ) → read_size n (crlf ++ rest) ≡ some (n, rest)
unfolding read_size strip_crlf
read_return n rest = refl

hex_upper_digit :
    (k n : ℕ)
    → n < 16 ^ suc k
    → (d : ℕ) × (rest : List ℕ) × (d < 16) × (hex_upper (suc k) n ≡ upper_digit d ∷ rest)
unfolding hex_upper
hex_upper_digit zero n h =
    let small : ltb n 16 ≡ true = let p = pow-suc 16 0 in ground arith in
    (n, [], ground arith, rw (hex_upper, small) refl)
hex_upper_digit (suc k) n h = elim (Bool-cases (ltb n 16)) [
  | inl e ↦ (n, [], ground arith, rw (hex_upper, e) refl)
  | inr e ↦
      let (d, rest, small, front) =
        hex_upper_digit k (n / 16) (omega (arith, pow-suc 16 (suc k))) in
      (d, rest ++ (upper_digit (n % 16) ∷ []), small, rw (hex_upper, e, front) refl)
]

read_some_hex :
    (n : ℕ) (tail : List ℕ)
    → n < 16 ^ 16
    → read_some_size (hex_upper 16 n ++ (crlf ++ tail)) ≡ some (n, tail)
unfolding read_some_size
read_some_hex n tail h =
    let (d, rest, small, front) = hex_upper_digit 15 n h in
    let read : read_size 0 (hex_upper 16 n ++ (crlf ++ tail)) ≡ some (n, tail) =
      read_hex_upper 16 n (crlf ++ tail) h ∙ read_return n tail in
    let again : read_size 0 ((upper_digit d ∷ rest) ++ (crlf ++ tail)) ≡ some (n, tail) =
      ap (λ (digits : List ℕ). read_size 0 (digits ++ (crlf ++ tail))) (sym front) ∙ read in
    ap (λ (digits : List ℕ). read_some_size (digits ++ (crlf ++ tail))) front
    ∙ rw (read_some_size, upper_digit_value d small) again

abbrev pub put_before : List ℕ → Option (List ℕ) → Option (List ℕ)
put_before content none = none
put_before content (some more) = some (content ++ more)

abbrev pub go_on_after : List ℕ → Option (List ℕ) → (List ℕ → Option (List ℕ)) → Option (List ℕ)
go_on_after content none next = none
go_on_after content (some later) next = put_before content (next later)

-- The line end of the whole, and nothing after it.
abbrev pub at_end : Option (List ℕ) → Option (List ℕ)
at_end (some []) = some []
at_end _ = none

-- Chunks up to one of size 0. A chunk has all the bytes of its size and a line end behind them.
abbrev pub after_size : Option (ℕ × List ℕ) → (List ℕ → Option (List ℕ)) → Option (List ℕ)
after_size none next = none
after_size (some (n, rest)) next =
    if n == 0
    then at_end (strip_crlf rest)
    else if ltb (length rest) n
    then none
    else go_on_after (take n rest) (strip_crlf (drop n rest)) next

unfoldable pub dechunk : ℕ → List ℕ → Option (List ℕ)
unfolding strip_crlf
dechunk zero bytes = none
dechunk (suc fuel) bytes = after_size (read_some_size bytes) (λ rest. dechunk fuel rest)

abbrev pub IsSizeable : List ℕ → Type 0
IsSizeable chunk = length chunk < 2 ^ 64

strip_line : (rest : List ℕ) → strip_crlf (crlf ++ rest) ≡ some rest
unfolding strip_crlf
strip_line rest = refl

has_chunk : (xs ys : List ℕ) → ltb (length (xs ++ ys)) (length xs) ≡ false
has_chunk xs ys = let len = length-append xs ys in ground arith

after_chunk :
    (b : ℕ) (bs rest : List ℕ) (next : List ℕ → Option (List ℕ))
    → after_size (some (length (b ∷ bs), (b ∷ bs) ++ (crlf ++ rest))) next
      ≡ put_before (b ∷ bs) (next rest)
after_chunk b bs rest next =
    let chunk : List ℕ = b ∷ bs in
    let more : (length chunk == 0) ≡ false = ground arith in
    rw
      (
        more,
        has_chunk chunk (crlf ++ rest),
        take-append_self chunk (crlf ++ rest),
        drop-append_self chunk (crlf ++ rest),
      )
      (ap (λ (r : Option (List ℕ)). go_on_after chunk r next) (strip_line rest))

dechunk_one :
    (fuel : ℕ) (b : ℕ) (bs rest : List ℕ)
    → IsSizeable (b ∷ bs)
    → dechunk (suc fuel) (write_chunk (b ∷ bs) ++ rest) ≡ put_before (b ∷ bs) (dechunk fuel rest)
unfolding write_chunk dechunk
dechunk_one fuel b bs rest fits =
    let chunk : List ℕ = b ∷ bs in
    let split : (hex_upper 16 (length chunk) ++ (crlf ++ (chunk ++ crlf))) ++ rest
        ≡ hex_upper 16 (length chunk) ++ (crlf ++ (chunk ++ (crlf ++ rest))) =
      simp append_assoc in
    let size : read_some_size ((hex_upper 16 (length chunk) ++ (crlf ++ (chunk ++ crlf))) ++ rest)
        ≡ some (length chunk, chunk ++ (crlf ++ rest)) =
      ap read_some_size split ∙ read_some_hex (length chunk) (chunk ++ (crlf ++ rest)) fits in
    ap (λ (r : Option (ℕ × List ℕ)). after_size r (λ later. dechunk fuel later)) size
    ∙ after_chunk b bs rest (λ later. dechunk fuel later)

-- A reader that insists on every line end, on whole chunks and on nothing after the last line end, given
-- one turn more than there are calls of `write_chunk`, accepts what the calls and `finish` have written and
-- reads from it what the calls were given, joined: empty pieces write nothing, so that none ends the
-- stream early. No piece has 2^64 bytes or more.
pub chunks_read_back :
    (chunks : List (List ℕ)) (fuel : ℕ)
    → All IsSizeable chunks
    → length chunks < fuel
    → dechunk fuel (write_all chunks) ≡ some (concat chunks)
unfolding write_all dechunk
chunks_read_back chunks zero fits enough = absurd (omega arith)
chunks_read_back [] (suc fuel) fits enough =
    ap (λ (r : Option (ℕ × List ℕ)). after_size r (λ later. dechunk fuel later))
      (read_some_hex 0 crlf (omega arith))
chunks_read_back ([] ∷ chunks) (suc fuel) fits enough =
    chunks_read_back chunks (suc fuel) fits.1 (omega arith)
chunks_read_back ((b ∷ bs) ∷ chunks) (suc fuel) fits enough =
    dechunk_one fuel b bs (write_all chunks) fits.0
    ∙ rw (chunks_read_back chunks fuel fits.1 (omega arith)) refl
