-- ===== src/Path/Sanitizer.antt =====
-- crates/nxfr-core/src/path.rs: `sanitize_path`.
use nxfr.Prelude.{
  ℕ, List, [], ◌∷◌, map, Option, none, some, Bool, true, false, ◌&&◌, ◌||◌, ◌-◌, length, any,
  list_eq, ltb, leb, ◌==◌, if◌then◌else◌, Result, ok, err, ◌>>=◌, ◌>>◌, reject_if, codes, split_on,
  join_with, first_or_empty, contains,
}
use nxfr.Common.Limits.{max_path_component, max_relative_path}
use nxfr.Common.Errors.{
  PathError, empty_path, absolute_path, parent_traversal, null_byte, control_character,
  windows_reserved_name, component_too_long, path_too_long, backslash,
}

abbrev pub slash : ℕ
slash = b'/'

abbrev pub dot : ℕ
dot = b'.'

abbrev pub is_empty : List ℕ → Bool
is_empty [] = true
is_empty _ = false

abbrev pub starts_with_slash : List ℕ → Bool
starts_with_slash [] = false
starts_with_slash (c ∷ _) = c == slash

-- `is_ascii_alphabetic`
abbrev pub is_ascii_alphabetic : ℕ → Bool
is_ascii_alphabetic c = (leb b'A' c && leb c b'Z') || (leb b'a' c && leb c b'z')

-- The first two characters are a letter and a colon.
unfoldable pub has_drive_letter : List ℕ → Bool
has_drive_letter (c ∷ d ∷ _) = d == b':' && is_ascii_alphabetic c
has_drive_letter _ = false

-- `c <= '\x1F' || c == '\x7F'`
abbrev pub is_control : ℕ → Bool
is_control c = leb c 0x1f || c == 0x7f

abbrev pub find : (ℕ → Bool) → List ℕ → Option ℕ
find q [] = none
find q (c ∷ cs) = if q c then some c else find q cs

abbrev pub reject_control : Option ℕ → Result PathError (Unit {0})
reject_control none = ok tt
reject_control (some c) = err (control_character c)

-- `to_ascii_uppercase`
unfoldable pub to_upper : ℕ → ℕ
to_upper c = if leb b'a' c && leb c b'z' then c - 32 else c

abbrev pub reserved_names : List (List ℕ)
reserved_names = map codes (
    "CON" ∷ "PRN" ∷ "AUX" ∷ "NUL" ∷ "COM1" ∷ "COM2" ∷ "COM3" ∷ "COM4" ∷ "COM5" ∷ "COM6" ∷ "COM7"
    ∷ "COM8" ∷ "COM9" ∷ "LPT1" ∷ "LPT2" ∷ "LPT3" ∷ "LPT4" ∷ "LPT5" ∷ "LPT6" ∷ "LPT7" ∷ "LPT8"
    ∷ "LPT9" ∷ [])

-- The name before the first dot, in upper case, is one that Windows reserves.
unfoldable pub is_reserved : List ℕ → Bool
is_reserved component =
    any (list_eq (map to_upper (first_or_empty (split_on dot component)))) reserved_names

-- `component.is_empty() || component == "."`
unfoldable pub is_skipped : List ℕ → Bool
is_skipped component = is_empty component || list_eq component (dot ∷ [])

-- The checks of the loop on a component that is not skipped.
unfoldable pub check_component : List ℕ → List ℕ → Result PathError (Unit {0})
check_component input component = do
  reject_if (list_eq component (dot ∷ dot ∷ [])) (parent_traversal input)
  reject_if (ltb max_path_component (length component)) (component_too_long (length component))
  reject_if (is_reserved component) (windows_reserved_name input)

-- The loop over the components; a skipped one is left out, and the first bad one is reported.
unfoldable pub normalize : List ℕ → List (List ℕ) → Result PathError (List (List ℕ))
normalize input [] = ok []
normalize input (c ∷ cs) =
    let rest = normalize input cs in
    if is_skipped c then rest else check_component input c >> (rest >>= λ kept. ok (c ∷ kept))

abbrev pub is_nil : List (List ℕ) → Bool
is_nil [] = true
is_nil _ = false

-- What is checked of the whole text, in the source's order.
unfoldable pub check_input : List ℕ → Result PathError (Unit {0})
check_input input = do
  reject_if (is_empty input) empty_path
  reject_if (contains 0x5c input) backslash
  reject_if (starts_with_slash input) (absolute_path input)
  reject_if (has_drive_letter input) (absolute_path input)
  reject_if (contains 0 input) null_byte
  reject_control (find is_control input)

-- What is checked of the components that are kept.
unfoldable pub assemble : List (List ℕ) → Result PathError (List ℕ)
assemble kept = do
  reject_if (is_nil kept) empty_path
  let path = join_with slash kept
  reject_if (ltb max_relative_path (length path)) (path_too_long (length path))
  ok path

unfoldable pub sanitize_path : List ℕ → Result PathError (List ℕ)
sanitize_path input = do
  check_input input
  kept ← normalize input (split_on slash input)
  assemble kept
