-- ===== src/Web/Upload.antt =====
-- crates/nxfr-web/src/lib.rs: the part of `handle_connection` that streams the body of an uploaded file to
-- disk up to the boundary that ends it. What the reads of the connection give comes as a list: an empty
-- piece is a closed connection, and the end of the list a read that fails or takes 30 seconds.
use nxfr.Prelude.{
  ℕ, suc, ◌+◌, ◌-◌, ◌*◌, codes, List, [], ◌∷◌, ◌++◌, Option, none, some, Bool, true, false, ◌&&◌,
  ltb, ◌==◌, if◌then◌else◌, length, take, drop,
}
use mathlib.Core.Option

-- 10 GB
abbrev pub max_upload_limit : ℕ
max_upload_limit = 10 * 1024 * 1024 * 1024

unfoldable pub starts_with : List ℕ → List ℕ → Bool
starts_with [] s = true
starts_with (c ∷ cs) [] = false
starts_with (c ∷ cs) (d ∷ ds) = c == d && starts_with cs ds

-- `windows(needle.len()).position(|w| w == needle)`, for a needle that is not empty.
unfoldable pub position : List ℕ → List ℕ → Option ℕ
unfolding starts_with
position needle [] = none
position needle (c ∷ cs) =
    let later = Option.map (λ p. suc p) (position needle cs) in
    if starts_with needle (c ∷ cs) then some 0 else later

-- How the upload ends: with the content of the file, with the answer 413, or with an error; in the last
-- two the temporary file is removed.
pub data Uploaded : Type 0 where
  stored : List ℕ → Uploaded
  too_large : Uploaded
  disconnected : Uploaded
  read_failed : Uploaded

-- `\r\n--{boundary}` and `--{boundary}`
abbrev pub needle_of : List ℕ → List ℕ
needle_of boundary = 13 ∷ 10 ∷ (codes "--" ++ boundary)

abbrev pub alt_needle_of : List ℕ → List ℕ
alt_needle_of boundary = codes "--" ++ boundary

module _ (max_allowed : ℕ) (needle alt_needle : List ℕ) where
  -- `total_written` is the length of what is written.
  abbrev pub write_last : List ℕ → List ℕ → Uploaded
  write_last written [] = stored written
  write_last written (c ∷ cs) =
      if ltb max_allowed (length written + length (c ∷ cs))
      then too_large
      else stored (written ++ (c ∷ cs))

  abbrev pub read_more : List (List ℕ) → List ℕ → (List (List ℕ) → List ℕ → Uploaded) → Uploaded
  read_more [] buffer next = read_failed
  read_more ([] ∷ pieces) buffer next = disconnected
  read_more ((c ∷ cs) ∷ pieces) buffer next = next pieces (buffer ++ (c ∷ cs))

  -- The end of a turn: all but the last bytes, which may begin the boundary, are written.
  abbrev pub flush : List ℕ → List ℕ → (List ℕ → List ℕ → Uploaded) → Uploaded
  flush buffer written next =
      let safe_len = length buffer - length needle in
      if ltb (length needle) (length buffer)
      then if ltb max_allowed (length written + safe_len)
        then too_large
        else next (drop safe_len buffer) (written ++ take safe_len buffer)
      else next buffer written

  abbrev pub is_empty_part : List ℕ → List ℕ → Bool
  is_empty_part buffer written = length written == 0 && starts_with alt_needle buffer

  unfoldable pub upload_loop : List (List ℕ) → List ℕ → List ℕ → Uploaded
  unfolding position
  upload_loop [] buffer written = elim (position needle buffer) [
    | some pos ↦ write_last written (take pos buffer)
    | none ↦
        if is_empty_part buffer written
        then stored written
        else flush buffer written (λ kept more. read_failed)
  ]
  upload_loop (piece ∷ pieces) buffer written = elim (position needle buffer) [
    | some pos ↦ write_last written (take pos buffer)
    | none ↦ elim (is_empty_part buffer written) [
      | true ↦ stored written
      | false ↦
          flush buffer written (λ kept more.
            read_more (piece ∷ pieces) kept (λ rest full. upload_loop pieces full more))
    ]
  ]
