-- ===== src/Web/Filename.antt =====
-- crates/nxfr-web/src/lib.rs: `sanitize_filename`, and where `handle_connection` puts an uploaded file. A
-- name is its code points; the Unicode table behind `char::is_alphanumeric` and the random bytes are
-- arguments.
use nxfr.Prelude.{
  ℕ, suc, codes, hex_encode, List, [], ◌∷◌, ◌++◌, map, Option, none, some, Bool, true, not, ◌&&◌,
  ◌||◌, ltb, ◌==◌, list_eq, if◌then◌else◌, length, contains, split_on, join_with,
}
use nxfr.Path.Sanitizer.{slash, dot, is_empty}
use nxfr.Path.Jail.{FilePath, join}

module _ (is_alphanumeric : ℕ → Bool) where
  abbrev pub is_kept : ℕ → Bool
  is_kept c = is_alphanumeric c || c == b'.' || c == b'-' || c == b'_'

  abbrev pub replace : ℕ → ℕ
  replace c = if is_kept c then c else b'_'

  -- `trim_matches('.').is_empty()`
  abbrev pub all_dots : List ℕ → Bool
  all_dots [] = true
  all_dots (c ∷ cs) = c == dot && all_dots cs

  abbrev pub fresh_name : List ℕ → List ℕ
  fresh_name random = codes "uploaded_file_" ++ (hex_encode random ++ codes ".bin")

  unfoldable pub sanitize_filename : List ℕ → List ℕ → List ℕ
  sanitize_filename random name =
      let sanitized = map replace name in
      if is_empty sanitized
        || list_eq sanitized (codes ".")
        || list_eq sanitized (codes "..")
        || all_dots sanitized
      then fresh_name random
      else sanitized

  -- `!c.is_empty() && *c != "." && *c != ".."`
  abbrev pub is_component : List ℕ → Bool
  is_component c = not (is_empty c) && (not (list_eq c (codes ".")) && not (list_eq c (codes "..")))

  unfoldable pub components_of : List (List ℕ) → List (List ℕ)
  components_of [] = []
  components_of (c ∷ cs) = let rest = components_of cs in if is_component c then c ∷ rest else rest

  -- Each call of `sanitize_filename` has random bytes of its own.
  module _ (random : ℕ → List ℕ) where
    abbrev pub clean : ℕ → List ℕ → List ℕ
    clean i name = sanitize_filename (random i) name

    -- `(sub_dir, clean_name)`, from the components that are kept.
    abbrev pub last_and_dirs : ℕ → List ℕ → List (List ℕ) → List (List ℕ) × List ℕ
    last_and_dirs i c [] = ([], clean i c)
    last_and_dirs i c (d ∷ ds) =
        let (dirs, name) = last_and_dirs (suc i) d ds in (clean i c ∷ dirs, name)

    abbrev pub place_in : FilePath → List (List ℕ) × List ℕ → FilePath
    place_in inbox ([], name) = inbox ++ (name ∷ [])
    place_in inbox (d ∷ dirs, name) = join inbox (join_with slash (d ∷ dirs)) ++ (name ∷ [])

    abbrev pub target_of : FilePath → List ℕ → List (List ℕ) → Option FilePath
    target_of inbox raw_name [] = some (inbox ++ (clean 0 raw_name ∷ []))
    target_of inbox raw_name (c ∷ cs) =
        if ltb 11 (length (c ∷ cs)) then none else some (place_in inbox (last_and_dirs 0 c cs))

    -- The path before collisions; `none` is the answer 400 for a path that is too deep.
    unfoldable pub upload_target : FilePath → List ℕ → Option FilePath
    unfolding sanitize_filename components_of
    upload_target inbox raw_name =
        if contains slash raw_name
        then target_of inbox raw_name (components_of (split_on slash raw_name))
        else some (inbox ++ (clean 0 raw_name ∷ []))
