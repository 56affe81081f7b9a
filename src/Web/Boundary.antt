-- ===== src/Web/Boundary.antt =====
-- The file that is streamed to disk is the one that was sent (crates/nxfr-web/src/lib.rs).
use nxfr.Prelude.{
  ℕ, ◌+◌, ◌-◌, ◌≤◌, ◌<◌, ◌≡◌, refl, arith, ◌∙◌, ap, sym, List, [], ◌∷◌, ◌++◌, append_assoc,
  append-nil, All, none, some, Bool, false, ltb, length, length-append, length-drop, length-take,
  take, drop, take-append-drop, take_all, leb, Bool-cases, Option-cases, inl, inr,
}
use nxfr.Receiver.Delivery.{concat, HasContent}
use nxfr.Web.Upload.{starts_with, position, stored, write_last, is_empty_part, upload_loop}
use nxfr.Web.Search.{
  starts_with-append, position-append, position_prefix, position-drop, drop_prefix, take_same,
}

module _ (max_allowed : ℕ) (needle alt_needle rest : List ℕ) (some_needle : 0 < length needle) where
  abbrev whole : List ℕ → List ℕ
  whole r = r ++ (needle ++ rest)

  abbrev empty_part : List ℕ → List ℕ → Bool
  empty_part = is_empty_part max_allowed needle alt_needle

  -- What is to come, when `written` is on disk and `r` is not.
  record IsComing (pieces : List (List ℕ)) (buffer written r : List ℕ) : Type 0 where
    same : buffer ++ concat pieces ≡ whole r
    first : position needle (whole r) ≡ some (length r)
    some_bytes : All HasContent pieces
    fits : length written + length r ≤ max_allowed
    begun : empty_part (whole r) written ≡ false

  write_last_lem :
      (written r : List ℕ)
      → length written + length r ≤ max_allowed
      → write_last max_allowed needle alt_needle written r ≡ stored (written ++ r)
  write_last_lem written [] h = rw append-nil refl
  write_last_lem written (c ∷ cs) h =
      let few : ltb max_allowed (length written + length (c ∷ cs)) ≡ false = ground arith in
      rw few refl

  module _ (pieces : List (List ℕ)) (buffer written r : List ℕ)
      (v : IsComing pieces buffer written r) where
    found_end :
        (pos : ℕ)
        → position needle buffer ≡ some pos
        → write_last max_allowed needle alt_needle written (take pos buffer) ≡ stored (written ++ r)
    found_end pos found =
        let (in_whole, within) =
          position-append needle some_needle buffer (concat pieces) pos found in
        let at_end : length r ≡ pos = cc (rw v.same at in_whole, v.first) in
        let taken : take pos buffer ≡ r =
          take_same pos buffer (concat pieces) r (needle ++ rest) v.same (omega arith) (omega arith)
          ∙ rw (← at_end) (take_all r) in
        rw taken (write_last_lem written r v.fits)

    not_within : position needle buffer ≡ none → length buffer < length r + length needle
    not_within missing = elim (Bool-cases (leb (length r + length needle) (length buffer))) [
      | inr e ↦ ground arith
      | inl e ↦ absurd (
          cc (
            position_prefix needle some_needle buffer (concat pieces) (length r) (rw v.same v.first)
                (ground arith),
            missing,
          ))
    ]

    not_empty_part : empty_part buffer written ≡ false
    not_empty_part = elim (Bool-cases (starts_with alt_needle buffer)) [
      | inr e ↦ rw e (ground arith)
      | inl e ↦
          let all = starts_with-append alt_needle buffer (concat pieces) e in
          let all' = rw v.same at all in let b = v.begun in ground arith
    ]

    shift :
        (n : ℕ)
        → 0 < n
        → n ≤ length buffer
        → n ≤ length r
        → IsComing pieces (drop n buffer) (written ++ take n buffer) (drop n r)
    shift n some_byte h k =
        let dropped : drop n (whole r) ≡ whole (drop n r) = drop_prefix n r (needle ++ rest) k in
        let later = position-drop needle some_needle n (whole r) (length r) v.first k in
        let len = length-append written (take n buffer) in
        let len' = length-take n buffer in
        let len'' = length-drop n r in
        let fits = v.fits in
        record {
          same = sym (drop_prefix n buffer (concat pieces) h) ∙ ap (drop n) v.same ∙ dropped;
          first = rw dropped at later ∙ ap some (sym len'');
          some_bytes = v.some_bytes;
          fits = omega arith;
          begun = ground arith;
        }

  take_piece :
      (c : ℕ) (cs : List ℕ) (pieces : List (List ℕ)) (buffer written r : List ℕ)
      → IsComing ((c ∷ cs) ∷ pieces) buffer written r
      → IsComing pieces (buffer ++ (c ∷ cs)) written r
  take_piece c cs pieces buffer written r v = record {
    same = append_assoc buffer (c ∷ cs) (concat pieces) ∙ v.same;
    first = v.first;
    some_bytes = v.some_bytes.1;
    fits = v.fits;
    begun = v.begun;
  }

  written_whole :
      (n : ℕ) (buffer written r : List ℕ)
      → take n buffer ≡ take n r
      → (written ++ take n buffer) ++ drop n r ≡ written ++ r
  written_whole n buffer written r e =
      append_assoc written (take n buffer) (drop n r)
      ∙ ap (λ (xs : List ℕ). written ++ xs) (rw e (take-append-drop n r))

  upload_stores :
      (pieces : List (List ℕ)) (buffer written r : List ℕ)
      → IsComing pieces buffer written r
      → upload_loop max_allowed needle alt_needle pieces buffer written ≡ stored (written ++ r)
  unfolding upload_loop
  upload_stores [] buffer written r v = elim (Option-cases (position needle buffer)) [
    | inr (pos, found) ↦ rw (upload_loop, found) (found_end [] buffer written r v pos found)
    | inl missing ↦ absurd (
        let short = not_within [] buffer written r v missing in
        let len = ap length v.same in
        let len' = length-append buffer [] in
        let len'' = length-append r (needle ++ rest) in
        let len''' = length-append needle rest in omega arith)
  ]
  upload_stores ([] ∷ pieces) buffer written r v = absurd (let h = v.some_bytes.0 in omega arith)
  upload_stores ((c ∷ cs) ∷ pieces) buffer written r v =
      elim (Option-cases (position needle buffer)) [
        | inr (pos, found) ↦
            rw (upload_loop, found) (found_end ((c ∷ cs) ∷ pieces) buffer written r v pos found)
        | inl missing ↦
            let short = not_within ((c ∷ cs) ∷ pieces) buffer written r v missing in
            let busy = not_empty_part ((c ∷ cs) ∷ pieces) buffer written r v in
            elim (Bool-cases (ltb (length needle) (length buffer))) [
              | inr small ↦
                  rw (upload_loop, missing, busy, small)
                    (upload_stores pieces (buffer ++ (c ∷ cs)) written r
                      (take_piece c cs pieces buffer written r v))
              | inl large ↦
                  let n = length buffer - length needle in
                  let fits = v.fits in
                  let few : ltb max_allowed (length written + n) ≡ false = ground arith in
                  let moved =
                    shift ((c ∷ cs) ∷ pieces) buffer written r v n (ground arith) (omega arith)
                      (omega arith) in
                  let taken =
                    take_same n buffer (concat ((c ∷ cs) ∷ pieces)) r (needle ++ rest) v.same
                      (omega arith) (omega arith) in
                  rw (upload_loop, missing, busy, large, few)
                    (upload_stores pieces (drop n buffer ++ (c ∷ cs)) (written ++ take n buffer)
                        (drop n r)
                        (take_piece c cs pieces (drop n buffer) (written ++ take n buffer)
                          (drop n r) moved)
                      ∙ ap stored (written_whole n buffer written r taken))
            ]
      ]

  -- A file of at most the allowed size, in whose part the boundary first occurs at its end, and which does
  -- not begin with the boundary's own dashes: however the bytes of the request are cut into reads, none of
  -- them empty, and wherever the cuts fall in the boundary, the file that is stored is the one that was sent.
  -- The boundary that is looked for has a byte at least.
  pub upload_streams :
      (pieces : List (List ℕ)) (buffer body : List ℕ)
      → buffer ++ concat pieces ≡ whole body
      → position needle (whole body) ≡ some (length body)
      → starts_with alt_needle (whole body) ≡ false
      → All HasContent pieces
      → length body ≤ max_allowed
      → upload_loop max_allowed needle alt_needle pieces buffer [] ≡ stored body
  upload_streams pieces buffer body same first begins some_bytes fits =
      upload_stores pieces buffer [] body (record {
        same = same;
        first = first;
        some_bytes = some_bytes;
        fits = omega arith;
        begun = rw begins refl;
      })
