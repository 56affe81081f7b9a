-- ===== src/Path/Accepted.antt =====
-- What `sanitize_path` accepts (docs/PROTOCOL.md, section 18.2), and what it returns.
use nxfr.Prelude.{
  ℕ, List, [], ◌∷◌, ◌≡◌, ◌≢◌, refl, ap, sym, Bool, false, ◌≤◌, length, any, All, list_eq_ne,
  ne_of_list_eq, if◌then◌else◌, ok, split_on, join_with, contains, arith, >>=-eq-ok, Bool-cases,
  inl, inr, ◌↔◌,
}
use nxfr.Common.Limits.{max_path_component, max_relative_path}
use nxfr.Path.Sanitizer.{
  slash, dot, is_empty, starts_with_slash, has_drive_letter, is_control, find, reject_control,
  is_reserved, is_skipped, check_component, normalize, is_nil, check_input, assemble, sanitize_path,
}

-- The components that are neither empty nor a single dot.
abbrev pub keep : List (List ℕ) → List (List ℕ)
keep [] = []
keep (c ∷ cs) = let rest = keep cs in if is_skipped c then rest else c ∷ rest

abbrev pub parent : List ℕ
parent = dot ∷ dot ∷ []

pub record IsSafeComponent (c : List ℕ) : Type 0 where
  pub kept : is_skipped c ≡ false
  pub not_parent : c ≢ parent
  pub short : length c ≤ max_path_component
  pub not_reserved : is_reserved c ≡ false

pub record IsSafePath (p : List ℕ) : Type 0 where
  pub no_backslash : contains 0x5c p ≡ false
  pub no_control : any is_control p ≡ false
  pub relative : starts_with_slash p ≡ false
  pub short : length p ≤ max_relative_path
  pub components : All IsSafeComponent (split_on slash p)

-- What the wire text has to satisfy.
pub record IsAcceptable (input : List ℕ) : Type 0 where
  pub no_backslash : contains 0x5c input ≡ false
  pub relative : starts_with_slash input ≡ false
  pub no_drive : has_drive_letter input ≡ false
  pub no_control : any is_control input ≡ false
  pub components : All IsSafeComponent (keep (split_on slash input))
  pub some_component : is_nil (keep (split_on slash input)) ≡ false
  pub short : length (join_with slash (keep (split_on slash input))) ≤ max_relative_path

check_component_iff :
    (input c : List ℕ)
    → is_skipped c ≡ false
    → (check_component input c ≡ ok tt) ↔ IsSafeComponent c
unfolding check_component
check_component_iff input c k = (
  λ h. record {
    kept = k;
    not_parent = ne_of_list_eq c parent (ground arith);
    short = ground arith;
    not_reserved = ground arith;
  },
  λ s. ground (arith, list_eq_ne c parent s.not_parent),
)

normalize_iff :
    (input : List ℕ) (cs kept : List (List ℕ))
    → (normalize input cs ≡ ok kept) ↔ ((kept ≡ keep cs) × All IsSafeComponent (keep cs))
unfolding normalize
normalize_iff input [] kept = (λ h. (ground arith, tt), λ h. ap ok (sym h.0))
normalize_iff input (c ∷ cs) kept = elim (Bool-cases (is_skipped c)) [
  | inl e ↦ rw e (normalize_iff input cs kept)
  | inr e ↦ rw e (
    λ h.
        let (u, checked, k) = >>=-eq-ok (check_component input c) _ h in
        let (ks, looped, last) = >>=-eq-ok (normalize input cs) _ k in
        let (same, safe) = (normalize_iff input cs ks).0 looped in
        (ground (arith, last, same), ((check_component_iff input c e).0 checked, safe)),
    λ (same, (safe, rest)).
        rw
          (
            (check_component_iff input c e).1 safe,
            (normalize_iff input cs (keep cs)).1 (refl, rest),
          )
          (ap ok (sym same)),
  )
]

find_none_iff :
    (q : ℕ → Bool) (xs : List ℕ) → (reject_control (find q xs) ≡ ok tt) ↔ (any q xs ≡ false)
find_none_iff q [] = (λ h. refl, λ h. refl)
find_none_iff q (x ∷ xs) = elim (Bool-cases (q x)) [
  | inl e ↦ rw e (λ h. absurd (cc h), λ h. absurd (cc h))
  | inr e ↦ rw e (find_none_iff q xs)
]

null_is_control : (xs : List ℕ) → any is_control xs ≡ false → contains 0 xs ≡ false
null_is_control [] h = refl
null_is_control (x ∷ xs) h = ground (arith, null_is_control xs)

-- The text passes the checks that come before the components.
record IsChecked (input : List ℕ) : Type 0 where
  not_empty : is_empty input ≡ false
  no_backslash : contains 0x5c input ≡ false
  relative : starts_with_slash input ≡ false
  no_drive : has_drive_letter input ≡ false
  no_control : any is_control input ≡ false

check_input_iff : (input : List ℕ) → (check_input input ≡ ok tt) ↔ IsChecked input
unfolding check_input
check_input_iff input = (
  λ h. record {
    not_empty = ground arith;
    no_backslash = ground arith;
    relative = ground arith;
    no_drive = ground arith;
    no_control = (find_none_iff is_control input).0 (ground arith);
  },
  λ c.
      let none_found = (find_none_iff is_control input).1 c.no_control in
      let no_null = null_is_control input c.no_control in
      ground (arith, c.not_empty, c.no_backslash, c.relative, c.no_drive),
)

assemble_iff :
    (kept : List (List ℕ)) (p : List ℕ)
    → (assemble kept ≡ ok p) ↔ (
        (is_nil kept ≡ false)
        × (length (join_with slash kept) ≤ max_relative_path)
        × (p ≡ join_with slash kept))
unfolding assemble
assemble_iff kept p = (λ h. ground arith, λ h. ground arith)

not_empty_of_kept :
    (input : List ℕ) → is_nil (keep (split_on slash input)) ≡ false → is_empty input ≡ false
unfolding split_on is_skipped
not_empty_of_kept [] h = absurd (cc h)
not_empty_of_kept (c ∷ cs) h = refl

-- A text is accepted, with the path `p`, exactly if it is acceptable and `p` joins the components
-- that are kept: those that are neither empty nor a single dot, unchanged and in order.
pub sanitize_iff :
    (input p : List ℕ)
    → (sanitize_path input ≡ ok p)
      ↔ (IsAcceptable input × (p ≡ join_with slash (keep (split_on slash input))))
unfolding sanitize_path
sanitize_iff input p = (
  λ h.
      let (u, checked, k) = >>=-eq-ok (check_input input) _ h in
      let (kept, looped, last) = >>=-eq-ok (normalize input (split_on slash input)) _ k in
      let c = (check_input_iff input).0 checked in
      let (same, safe) = (normalize_iff input (split_on slash input) kept).0 looped in
      let (some_kept, short, joined) = (assemble_iff kept p).0 last in
      (
        record {
          no_backslash = c.no_backslash;
          relative = c.relative;
          no_drive = c.no_drive;
          no_control = c.no_control;
          components = safe;
          some_component = rw same at some_kept;
          short = rw same at short;
        },
        rw same at joined,
      ),
  λ (a, joined).
      let c : IsChecked input = record {
        not_empty = not_empty_of_kept input a.some_component;
        no_backslash = a.no_backslash;
        relative = a.relative;
        no_drive = a.no_drive;
        no_control = a.no_control;
      } in
      rw
        (
          (check_input_iff input).1 c,
          (normalize_iff input (split_on slash input) _).1 (refl, a.components),
          (assemble_iff (keep (split_on slash input)) p).1 (a.some_component, a.short, joined),
        )
        refl,
)
