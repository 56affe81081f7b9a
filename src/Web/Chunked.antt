-- ===== src/Web/Chunked.antt =====
-- crates/nxfr-web/src/lib.rs: `ChunkedWriter`, the HTTP chunked coding (RFC 9112, section 7.1), on the
-- bytes that go out. The time limit of a write is left out.
use nxfr.Prelude.{
  ℕ, zero, suc, ◌+◌, ◌-◌, ◌/◌, ◌%◌, codes, List, [], ◌∷◌, ◌++◌, ltb, if◌then◌else◌, length,
}

abbrev pub crlf : List ℕ
crlf = 13 ∷ 10 ∷ []

abbrev pub upper_digit : ℕ → ℕ
upper_digit n = if ltb n 10 then b'0' + n else b'A' + n - 10

-- `{:X}`, of at most `k` digits.
unfoldable pub hex_upper : ℕ → ℕ → List ℕ
hex_upper zero n = []
hex_upper (suc k) n =
    let front = hex_upper k (n / 16) in
    if ltb n 16 then upper_digit n ∷ [] else front ++ (upper_digit (n % 16) ∷ [])

unfoldable pub write_chunk : List ℕ → List ℕ
unfolding hex_upper
write_chunk [] = []
write_chunk (b ∷ bs) = hex_upper 16 (length (b ∷ bs)) ++ (crlf ++ ((b ∷ bs) ++ crlf))

abbrev pub finish : List ℕ
finish = codes "0" ++ (crlf ++ crlf)

-- The calls of `write_chunk`, and `finish`.
unfoldable pub write_all : List (List ℕ) → List ℕ
unfolding write_chunk
write_all [] = finish
write_all (c ∷ chunks) = write_chunk c ++ write_all chunks
