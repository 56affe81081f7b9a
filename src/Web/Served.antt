-- ===== src/Web/Served.antt =====
-- What a range request is answered with (crates/nxfr-web/src/lib.rs).
use nxfr.Prelude.{
  ℕ, zero, suc, ◌+◌, ◌-◌, ◌≤◌, ◌<◌, ◌≡◌, refl, arith, ◌∙◌, ap, sym, codes, List, [], ◌∷◌, ◌++◌,
  some, true, false, ltb, ◌==◌, length, length-drop, length-take, take, drop, take-add, split_on,
  first_or_empty, Option-cases, inl, inr,
}
use Prim.Native.Nat.{min}
use nxfr.Web.Range.{
  trim, parse_u64, strip, split_once, last_of, suffix_range, plain_range, range_of,
  parse_range_header, buffer_size, send_range, serve_range,
}

-- A range lies within the file and is not empty.
pub record IsWithin (file_size : ℕ) (r : ℕ × ℕ) : Type 0 where
  pub ordered : r.0 ≤ r.1
  pub inside : r.1 < file_size

module _ (file_size : ℕ) (some_byte : 0 < file_size) where
  suffix-IsWithin :
      (end_str : List ℕ) (r : ℕ × ℕ)
      → suffix_range file_size end_str ≡ some r
      → IsWithin file_size r
  unfolding suffix_range
  suffix-IsWithin end_str r h = elim (Option-cases (parse_u64 end_str)) [
    | inl e ↦ cc (rw e at h)
    | inr (n, e) ↦ record { ordered = ground arith; inside = ground arith }
  ]

  plain-IsWithin :
      (start_str end_str : List ℕ) (r : ℕ × ℕ)
      → plain_range file_size start_str end_str ≡ some r
      → IsWithin file_size r
  unfolding plain_range
  plain-IsWithin start_str end_str r h = elim (Option-cases (parse_u64 start_str)) [
    | inl e ↦ cc (rw e at h)
    | inr (a, e) ↦ elim (Option-cases (last_of file_size end_str)) [
      | inl e' ↦ cc (rw (e, e') at h)
      | inr (b, e') ↦
          let h' = rw (e, e') at h in
          record { ordered = ground (arith, h'); inside = ground (arith, h') }
    ]
  ]

  range_of-IsWithin :
      (start_str end_str : List ℕ) (r : ℕ × ℕ)
      → range_of file_size start_str end_str ≡ some r
      → IsWithin file_size r
  range_of-IsWithin [] end_str r h = suffix-IsWithin end_str r h
  range_of-IsWithin (c ∷ cs) end_str r h = plain-IsWithin (c ∷ cs) end_str r h

parse-IsWithin :
    (header_val : List ℕ) (file_size : ℕ) (r : ℕ × ℕ)
    → parse_range_header header_val file_size ≡ some r
    → IsWithin file_size r
unfolding parse_range_header
parse-IsWithin header_val zero r h = cc
parse-IsWithin header_val (suc n) r h0 =
    let some_size : (suc n == 0) ≡ false = ground arith in
    let h = rw some_size at h0 in
    elim (Option-cases (strip (codes "bytes=") (trim header_val))) [
      | inl e ↦ cc (rw e at h)
      | inr (spec, e) ↦
          elim (Option-cases (split_once b'-' (trim (first_or_empty (split_on b',' spec))))) [
            | inl e' ↦ cc (rw (e, e') at h)
            | inr (parts, e') ↦
                range_of-IsWithin (suc n) (omega arith) parts.0 parts.1 r (rw (e, e') at h)
          ]
    ]

-- A read takes some of what is there, and no more than is asked for.
pub record IsReader (read_len : ℕ → ℕ → ℕ) : Type 0 where
  pub at_most : (want there : ℕ) → (read_len want there ≤ want) × (read_len want there ≤ there)
  pub some_byte : (want there : ℕ) → 0 < want → 0 < there → 0 < read_len want there

module _ (read_len : ℕ → ℕ → ℕ) (reader : IsReader read_len) where
  send_range_lem :
      (fuel remaining : ℕ) (rest : List ℕ)
      → remaining < fuel
      → remaining ≤ length rest
      → send_range read_len fuel remaining rest ≡ take remaining rest
  unfolding send_range
  send_range_lem zero remaining rest enough there = absurd (omega arith)
  send_range_lem (suc fuel) zero rest enough there = refl
  send_range_lem (suc fuel) (suc r) rest enough there =
      let n = read_len (min (suc r) buffer_size) (length rest) in
      let (few, fewer) = reader.at_most (min (suc r) buffer_size) (length rest) in
      let some_byte =
        reader.some_byte (min (suc r) buffer_size) (length rest) (omega arith) (omega arith) in
      let more : ltb 0 (suc r) ≡ true = ground arith in
      let read : (n == 0) ≡ false = ground arith in
      let whole : n + (suc r - n) ≡ suc r = omega arith in
      rw (send_range, more, read)
        (ap (λ (tail : List ℕ). take n rest ++ tail)
            (send_range_lem fuel (suc r - n) (drop n rest) (omega arith)
              (omega (arith, length-drop n rest)))
          ∙ sym (take-add n (suc r - n) rest)
          ∙ ap (λ (k : ℕ). take k rest) whole)

  -- A Range header that is understood names bytes of the file, from the first to the last, both included,
  -- and at least one; and however few bytes a read of the file takes at a time, the body is exactly
  -- those bytes. The size of the file is the one in the share's manifest.
  pub range_served :
      (header_val content : List ℕ) (start end : ℕ)
      → parse_range_header header_val (length content) ≡ some (start, end)
      → (start ≤ end)
        × (end < length content)
        × (serve_range read_len (start, end) content ≡ take (end - start + 1) (drop start content))
        × (length (serve_range read_len (start, end) content) ≡ end - start + 1)
  unfolding serve_range
  range_served header_val content start end h =
      let v = parse-IsWithin header_val (length content) (start, end) h in
      let ordered = v.ordered in
      let inside = v.inside in
      let body =
        send_range_lem (suc (end - start + 1)) (end - start + 1) (drop start content) (omega arith)
          (omega (arith, length-drop start content)) in
      (
        ordered,
        inside,
        body,
        rw body (
            omega (
              arith,
              length-take (end - start + 1) (drop start content),
              length-drop start content,
            )),
      )
