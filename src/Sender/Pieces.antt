-- ===== src/Sender/Pieces.antt =====
-- The chunks of a file, as the sender cuts it (crates/nxfr-daemon/src/sender.rs).
use nxfr.Prelude.{
  ℕ, zero, suc, ◌+◌, ◌-◌, ◌<◌, ◌≡◌, refl, arith, ◌∙◌, ap, List, [], ◌∷◌, ◌++◌, All, length,
  length-take, length-drop, take, drop, take-min, drop-min, drop-add, take-append-drop,
  if◌then◌else◌, ◌==◌,
}
use Prim.Native.Nat.{min}
use nxfr.Sender.{chunk_data_size}
use nxfr.Receiver.Delivery.{concat, last_flag, HasContent}

-- Pieces of 1 MiB, and a rest; there are at most `n`.
unfoldable pub cut : ℕ → List ℕ → List (List ℕ)
cut zero xs = []
cut (suc n) [] = []
cut (suc n) (x ∷ xs) = take chunk_data_size (x ∷ xs) ∷ cut n (drop chunk_data_size (x ∷ xs))

pub concat-cut : (n : ℕ) (xs : List ℕ) → length xs < n → concat (cut n xs) ≡ xs
unfolding cut
concat-cut zero xs h = absurd (omega arith)
concat-cut (suc n) [] h = refl
concat-cut (suc n) (x ∷ xs) h =
    ap (λ (rest : List ℕ). take chunk_data_size (x ∷ xs) ++ rest)
      (concat-cut n (drop chunk_data_size (x ∷ xs))
        (omega (arith, length-drop chunk_data_size (x ∷ xs))))
    ∙ take-append-drop chunk_data_size (x ∷ xs)

pub cut-HasContent : (n : ℕ) (xs : List ℕ) → All HasContent (cut n xs)
unfolding cut
cut-HasContent zero xs = tt
cut-HasContent (suc n) [] = tt
cut-HasContent (suc n) (x ∷ xs) = (
  omega (arith, length-take chunk_data_size (x ∷ xs)),
  cut-HasContent n (drop chunk_data_size (x ∷ xs)),
)

pub cut-nonempty :
    (n : ℕ) (xs : List ℕ)
    → 0 < length xs
    → cut (suc n) xs ≡ take chunk_data_size xs ∷ cut n (drop chunk_data_size xs)
unfolding cut
cut-nonempty n [] h = absurd (omega arith)
cut-nonempty n (x ∷ xs) h = refl

cut_flag :
    (n : ℕ) (xs : List ℕ) → length xs < n → last_flag (cut n xs) ≡ (if length xs == 0 then 1 else 0)
unfolding cut
cut_flag zero xs h = absurd (omega arith)
cut_flag (suc n) [] h = refl
cut_flag (suc n) (x ∷ xs) h = ground arith

-- The sender's bounds of a chunk that starts at `offset`, before the end of the file.
module _ (file_data : List ℕ) (offset : ℕ) (more : offset < length file_data) where
  abbrev end : ℕ
  end = min (offset + chunk_data_size) (length file_data)

  pub chunk-take :
      take (end - offset) (drop offset file_data) ≡ take chunk_data_size (drop offset file_data)
  chunk-take =
      let same : end - offset ≡ min chunk_data_size (length (drop offset file_data)) =
        omega (arith, length-drop offset file_data) in
      rw same (take-min chunk_data_size (drop offset file_data))

  pub rest-drop : drop end file_data ≡ drop chunk_data_size (drop offset file_data)
  rest-drop =
      drop-min (offset + chunk_data_size) file_data ∙ drop-add offset chunk_data_size file_data

  pub length-chunk : offset + length (take chunk_data_size (drop offset file_data)) ≡ end
  length-chunk =
      omega
        (arith, length-take chunk_data_size (drop offset file_data), length-drop offset file_data)

  pub flag-last :
      (n : ℕ)
      → length file_data - end < n
      → last_flag (cut n (drop end file_data)) ≡ (if end == length file_data then 1 else 0)
  flag-last n enough =
      let len = length-drop end file_data in
      cut_flag n (drop end file_data) (omega arith) ∙ ground arith
