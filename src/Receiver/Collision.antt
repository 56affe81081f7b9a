-- ===== src/Receiver/Collision.antt =====
-- crates/nxfr-daemon/src/receiver.rs: `resolve_collision`, which picks the name of a received file. A
-- path is the list of its components, and `exists` and the time are arguments.
use nxfr.Prelude.{
  ℕ, zero, suc, ◌+◌, ◌/◌, ◌%◌, ◌≡◌, refl, ◌⊎◌, inl, inr, codes, List, [], ◌∷◌, ◌++◌, Option, none,
  some, Bool, true, false, ◌==◌, ltb, list_eq, if◌then◌else◌, Bool-cases,
}
use nxfr.Path.Jail.{FilePath, parent_of, file_name}

-- The digits of a number of at most `k` digits.
unfoldable pub decimal : ℕ → ℕ → List ℕ
decimal zero n = []
decimal (suc k) n =
    let front = decimal k (n / 10) in
    if ltb n 10 then (b'0' + n) ∷ [] else front ++ ((b'0' + n % 10) ∷ [])

abbrev pub before_dot : Option (List ℕ × List ℕ) → ℕ → List ℕ → Option (List ℕ × List ℕ)
before_dot (some (stem, ext)) c cs = some (c ∷ stem, ext)
before_dot none c cs = if c == b'.' then some ([], cs) else none

-- The name before and behind its last dot.
unfoldable pub rsplit_dot : List ℕ → Option (List ℕ × List ℕ)
rsplit_dot [] = none
rsplit_dot (c ∷ cs) = before_dot (rsplit_dot cs) c cs

-- `file_stem`, and `extension` with its dot: a dot in front is no separator, and `..` has no extension.
abbrev pub stem_and_ext_of : List ℕ → Option (List ℕ × List ℕ) → List ℕ × List ℕ
stem_and_ext_of name none = (name, [])
stem_and_ext_of name (some ([], ext)) = (name, [])
stem_and_ext_of name (some (c ∷ stem, ext)) =
    if list_eq name (codes "..") then (name, []) else (c ∷ stem, b'.' ∷ ext)

abbrev pub stem_and_ext : Option (List ℕ) → List ℕ × List ℕ
stem_and_ext none = (codes "file", [])
stem_and_ext (some name) = stem_and_ext_of name (rsplit_dot name)

module _ (exists : FilePath → Bool) (path : FilePath) where
  -- `parent.join(…)`
  abbrev pub beside : List ℕ → FilePath
  beside name = parent_of path ++ (name ∷ [])

  abbrev pub parts : List ℕ × List ℕ
  parts = stem_and_ext (file_name path)

  -- `{stem} ({i}){ext}`
  unfoldable pub candidate : ℕ → FilePath
  candidate i = beside (parts.0 ++ (codes " (" ++ (decimal 20 i ++ (codes ")" ++ parts.1))))

  unfoldable pub first_free : ℕ → ℕ → Option FilePath
  first_free zero i = none
  first_free (suc n) i =
      let later = first_free n (suc i) in if exists (candidate i) then later else some (candidate i)

  -- `{stem}_{seconds}{ext}`
  abbrev pub fallback : ℕ → FilePath
  fallback seconds = beside (parts.0 ++ (codes "_" ++ (decimal 20 seconds ++ parts.1)))

  abbrev pub or_fallback : Option FilePath → ℕ → FilePath
  or_fallback (some free) seconds = free
  or_fallback none seconds = fallback seconds

  unfoldable pub resolve_collision : ℕ → FilePath
  resolve_collision seconds = if exists path then or_fallback (first_free 999 1) seconds else path

  -- The numbers from `i` on, `n` of them, are all taken.
  abbrev pub AllTaken : ℕ → ℕ → Type 0
  AllTaken zero i = Unit {0}
  AllTaken (suc n) i = (exists (candidate i) ≡ true) × AllTaken n (suc i)

  -- What the search for a number finds.
  data Search (n i : ℕ) : Option FilePath → Type 0 where
    free : (p : FilePath) → exists p ≡ false → Search n i (some p)
    full : AllTaken n i → Search n i none

  search : (n i : ℕ) → Search n i (first_free n i)
  unfolding first_free
  search zero i = full tt
  search (suc n) i = elim (Bool-cases (exists (candidate i))) [
    | inl taken ↦ rw taken (step taken (search n (suc i)))
    | inr e ↦ rw e (free (candidate i) e)
  ]
    where
      step :
          {o : Option FilePath}
          → exists (candidate i) ≡ true
          → Search n (suc i) o
          → Search (suc n) i o
      step taken (free p e) = free p e
      step taken (full all) = full (taken, all)

  found :
      {o : Option FilePath} (seconds : ℕ)
      → exists path ≡ true
      → Search 999 1 o
      → (exists (or_fallback o seconds) ≡ false)
        ⊎ ((or_fallback o seconds ≡ fallback seconds) × (exists path ≡ true) × AllTaken 999 1)
  found seconds there (free p e) = inl e
  found seconds there (full all) = inr (refl, there, all)

  picked :
      (seconds : ℕ) (b : Bool)
      → exists path ≡ b
      → (exists (if b then or_fallback (first_free 999 1) seconds else path) ≡ false)
        ⊎ (((if b then or_fallback (first_free 999 1) seconds else path) ≡ fallback seconds)
            × (exists path ≡ true)
            × AllTaken 999 1)
  picked seconds true e = found seconds e (search 999 1)
  picked seconds false e = inl e

  -- The name that is picked is not that of a file that exists, unless the wanted name and all of `name
  -- (1)` to `name (999)` exist: then it is the name with the time, of which nothing is known.
  pub collision_free :
      (seconds : ℕ)
      → (exists (resolve_collision seconds) ≡ false)
        ⊎ ((resolve_collision seconds ≡ fallback seconds) × (exists path ≡ true) × AllTaken 999 1)
  unfolding resolve_collision
  collision_free seconds = picked seconds (exists path) refl
