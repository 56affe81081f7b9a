-- ===== src/Path/Drive.antt =====
-- The test for a drive letter looks at the raw text (crates/nxfr-core/src/path.rs), before the
-- components that are a single dot are left out.
use nxfr.Prelude.{
  ℕ, List, [], ◌∷◌, ◌≡◌, refl, sym, Bool, true, false, ◌&&◌, length, list_eq, ◌==◌, ok, err,
  split_on, join_with, contains, arith, ◌≤◌, ◌⊎◌, ◌+◌,
}
use nxfr.Common.Limits.{max_relative_path}
use nxfr.Common.Errors.{absolute_path}
use nxfr.Path.Sanitizer.{
  slash, dot, has_drive_letter, is_ascii_alphabetic, is_control, is_skipped, is_reserved, is_nil,
  sanitize_path, check_input,
}
use nxfr.Path.Accepted.{keep, IsSafeComponent, sanitize_iff}
use nxfr.Path.Safe.{sanitize-IsSafePath}

-- `l:/rest`, and the same behind `./`.
abbrev pub on_drive : ℕ → List ℕ → List ℕ
on_drive l rest = l ∷ b':' ∷ slash ∷ rest

abbrev pub behind_dot : List ℕ → List ℕ
behind_dot path = dot ∷ slash ∷ path

letter_range : (l : ℕ) → is_ascii_alphabetic l ≡ true → (65 ≤ l) × (l ≤ 122) × ((l ≤ 90) ⊎ (97 ≤ l))
letter_range l h = ground arith

module _ (l : ℕ) (letter : is_ascii_alphabetic l ≡ true) where
  no_slash : (l == slash) ≡ false
  no_slash = let r = letter_range l letter in ground arith

  no_dot : (l == dot) ≡ false
  no_dot = let r = letter_range l letter in ground arith

  no_backslash : (l == 0x5c) ≡ false
  no_backslash = let r = letter_range l letter in ground arith

  no_control : is_control l ≡ false
  no_control = let r = letter_range l letter in ground arith

  and_false : (b : Bool) → (b && false) ≡ false
  and_false true = refl
  and_false false = refl

  not_reserved : is_reserved (l ∷ b':' ∷ []) ≡ false
  unfolding is_reserved split_on list_eq
  not_reserved = rw no_dot (simp and_false)

  drive_component : IsSafeComponent (l ∷ b':' ∷ [])
  unfolding is_skipped list_eq
  drive_component = record {
    kept = ground arith;
    not_parent = λ e. ground arith;
    short = omega arith;
    not_reserved = not_reserved;
  }

  split_hidden :
      (rest : List ℕ)
      → split_on slash (behind_dot (on_drive l rest))
        ≡ (dot ∷ []) ∷ (l ∷ b':' ∷ []) ∷ split_on slash rest
  unfolding split_on
  split_hidden rest = rw no_slash refl

  keep_hidden :
      (rest : List ℕ)
      → keep (split_on slash (behind_dot (on_drive l rest)))
        ≡ (l ∷ b':' ∷ []) ∷ keep (split_on slash rest)
  unfolding is_skipped list_eq
  keep_hidden rest = rw (split_hidden rest) (rw and_false refl)

  join_hidden :
      (kept : List (List ℕ))
      → is_nil kept ≡ false
      → join_with slash ((l ∷ b':' ∷ []) ∷ kept) ≡ on_drive l (join_with slash kept)
  unfolding join_with
  join_hidden [] h = absurd (cc h)
  join_hidden (c ∷ cs) h = refl

  -- A drive path behind `./` is accepted, and what comes out is the drive path.
  hidden_accepted :
      (rest p : List ℕ)
      → sanitize_path rest ≡ ok p
      → length p + 3 ≤ max_relative_path
      → sanitize_path (behind_dot (on_drive l rest)) ≡ ok (on_drive l p)
  unfolding has_drive_letter
  hidden_accepted rest p accepted short =
      let (a, joined) = (sanitize_iff rest p).0 accepted in
      let kept = keep_hidden rest in
      let out : join_with slash (keep (split_on slash (behind_dot (on_drive l rest))))
          ≡ on_drive l p =
        rw (kept, joined) (join_hidden _ a.some_component) in
      (sanitize_iff (behind_dot (on_drive l rest)) (on_drive l p)).1 (
        record {
          no_backslash = ground (arith, no_backslash, a.no_backslash);
          relative = refl;
          no_drive = refl;
          no_control = ground (arith, no_control, a.no_control);
          components = rw kept (drive_component, a.components);
          some_component = rw kept refl;
          short = rw out (omega arith);
        },
        sym out,
      )

  drive_refused :
      (p : List ℕ)
      → contains 0x5c p ≡ false
      → sanitize_path (on_drive l p) ≡ err (absolute_path (on_drive l p))
  unfolding sanitize_path check_input has_drive_letter
  drive_refused p h = ground (arith, no_backslash, no_slash, letter)

-- For every drive letter and every text that the sanitizer accepts, if its result has at most 4093 bytes:
-- put behind `./` the drive path is accepted and comes out as a drive path, which by itself the sanitizer
-- refuses as absolute.
pub drive_survives :
    (l : ℕ) (rest p : List ℕ)
    → is_ascii_alphabetic l ≡ true
    → sanitize_path rest ≡ ok p
    → length p + 3 ≤ max_relative_path
    → (sanitize_path (behind_dot (on_drive l rest)) ≡ ok (on_drive l p))
      × (sanitize_path (on_drive l p) ≡ err (absolute_path (on_drive l p)))
drive_survives l rest p letter accepted short = (
  hidden_accepted l letter rest p accepted short,
  drive_refused l letter p (sanitize-IsSafePath rest p accepted).no_backslash,
)
