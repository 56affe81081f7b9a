-- ===== src/Path/Safe.antt =====
-- A path that the sanitizer returns stays below the directory that it is joined to, and the
-- sanitizer leaves it as it is.
use nxfr.Prelude.{
  ℕ, List, [], ◌∷◌, ◌≡◌, refl, ap, false, All, ok, split_on, join_with, arith, split_on-join_with,
  split_on_free, split_on_avoids, join_with_avoids, AreFree, Bool-cases, inl, inr,
}
use nxfr.Path.Sanitizer.{
  slash, starts_with_slash, has_drive_letter, is_skipped, is_nil, sanitize_path,
}
use nxfr.Path.Accepted.{keep, IsSafeComponent, IsSafePath, sanitize_iff}

-- What holds of all components holds of those that are kept.
keep-All : (P : List ℕ → Type 0) (cs : List (List ℕ)) → All P cs → All P (keep cs)
keep-All P [] h = tt
keep-All P (c ∷ cs) h = elim (Bool-cases (is_skipped c)) [
  | inl e ↦ rw e (keep-All P cs h.1)
  | inr e ↦ rw e (h.0, keep-All P cs h.1)
]

-- Kept components are kept again.
keep_safe : (cs : List (List ℕ)) → All IsSafeComponent cs → keep cs ≡ cs
keep_safe [] h = refl
keep_safe (c ∷ cs) h = rw h.0.kept (ap (λ ds. c ∷ ds) (keep_safe cs h.1))

split_on-join_with_some :
    (cs : List (List ℕ))
    → is_nil cs ≡ false
    → AreFree slash cs
    → split_on slash (join_with slash cs) ≡ cs
split_on-join_with_some [] n h = absurd (cc n)
split_on-join_with_some (c ∷ cs) n h = split_on-join_with slash c cs h

join_relative :
    (cs : List (List ℕ))
    → All IsSafeComponent cs
    → AreFree slash cs
    → starts_with_slash (join_with slash cs) ≡ false
unfolding join_with is_skipped
join_relative [] h f = refl
join_relative ([] ∷ cs) h f = absurd (cc h.0.kept)
join_relative ((x ∷ c) ∷ []) h f = ground (arith, f.0)
join_relative ((x ∷ c) ∷ d ∷ cs) h f = ground (arith, f.0)

module _ (input p : List ℕ) (accepted : sanitize_path input ≡ ok p) where
  -- The components of the result are those of the input that are kept, in order.
  pub sanitize_components : split_on slash p ≡ keep (split_on slash input)
  sanitize_components =
      let (a, joined) = (sanitize_iff input p).0 accepted in
      rw joined (
        split_on-join_with_some (keep (split_on slash input)) a.some_component
          (keep-All _ (split_on slash input) (split_on_free slash input)))

  -- What an accepted text comes out as is relative and at most 4096 bytes long, has no backslash and no
  -- control character, and each of its components is a safe one: not empty, no dot or double dot, at
  -- most 255 bytes, no reserved name.
  pub sanitize-IsSafePath : IsSafePath p
  sanitize-IsSafePath =
      let (a, joined) = (sanitize_iff input p).0 accepted in
      let pieces = split_on slash input in
      record {
        no_backslash = rw joined (
            join_with_avoids slash _ (keep pieces) refl
              (keep-All _ pieces (split_on_avoids slash _ input a.no_backslash)));
        no_control = rw joined (
            join_with_avoids slash _ (keep pieces) refl
              (keep-All _ pieces (split_on_avoids slash _ input a.no_control)));
        relative = rw joined (
            join_relative (keep pieces) a.components
              (keep-All _ pieces (split_on_free slash input)));
        short = rw joined a.short;
        components = rw sanitize_components a.components;
      }

  -- The sanitizer returns its own results unchanged, if they do not begin with a drive letter.
  pub sanitize_idem : has_drive_letter p ≡ false → sanitize_path p ≡ ok p
  sanitize_idem no_drive =
      let (a, joined) = (sanitize_iff input p).0 accepted in
      let s = sanitize-IsSafePath in
      let same : keep (split_on slash p) ≡ keep (split_on slash input) =
        rw sanitize_components (keep_safe (keep (split_on slash input)) a.components) in
      (sanitize_iff p p).1 (
        record {
          no_backslash = s.no_backslash;
          relative = s.relative;
          no_drive = no_drive;
          no_control = s.no_control;
          components = rw same a.components;
          some_component = rw same a.some_component;
          short = rw same a.short;
        },
        rw same joined,
      )
