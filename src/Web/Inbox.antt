-- ===== src/Web/Inbox.antt =====
-- An uploaded file stays in the inbox, whatever its name (crates/nxfr-web/src/lib.rs).
use nxfr.Prelude.{
  ℕ, suc, ◌≤◌, ◌<◌, ◌≡◌, ◌≢◌, refl, arith, ap, sym, codes, hex_encode, hex_digit, List, [], ◌∷◌,
  ◌++◌, map, append_assoc, All, All-append, some, Bool, true, false, ◌||◌, ltb, ◌==◌, ==→eq,
  list_eq, ne_of_list_eq, AreFree, if◌then◌else◌, length, contains, split_on, split_on-join_with,
  Bool-cases, inl, inr, ◌/◌, ◌%◌,
}
use nxfr.Path.Sanitizer.{slash, is_empty}
use nxfr.Path.Jail.{FilePath}
use nxfr.Web.Filename.{
  replace, all_dots, fresh_name, sanitize_filename, clean, last_and_dirs, place_in, target_of,
  components_of, upload_target,
}

-- A name of a file in a directory, and not the directory itself or its parent.
pub record IsName (name : List ℕ) : Type 0 where
  pub no_slash : contains slash name ≡ false
  pub no_dot : name ≢ codes "."
  pub no_parent : name ≢ codes ".."
  pub no_nothing : name ≢ []

contains-append :
    (xs ys : List ℕ)
    → contains slash xs ≡ false
    → contains slash ys ≡ false
    → contains slash (xs ++ ys) ≡ false
contains-append [] ys h k = k
contains-append (x ∷ xs) ys h k = ground (arith, contains-append xs ys)

hex_digit_no_slash : (n : ℕ) → n < 16 → (hex_digit n == slash) ≡ false
hex_digit_no_slash n h = ground arith

hex_no_slash :
    (bytes : List ℕ) → All (λ b. b < 256) bytes → contains slash (hex_encode bytes) ≡ false
hex_no_slash [] h = refl
hex_no_slash (b ∷ bs) (small, h) =
    rw (hex_digit_no_slash (b / 16) (omega arith), hex_digit_no_slash (b % 16) (omega arith))
      (hex_no_slash bs h)

both_false : (a b : Bool) → (a || b) ≡ false → (a ≡ false) × (b ≡ false)
both_false true b h = cc
both_false false b h = (refl, h)

module _ (is_alphanumeric : ℕ → Bool) (not_slash : is_alphanumeric slash ≡ false) where
  replace_no_slash : (c : ℕ) → (replace is_alphanumeric c == slash) ≡ false
  replace_no_slash c = elim (Bool-cases (c == slash)) [
    | inl e ↦ rw (==→eq c slash e, not_slash) refl
    | inr e ↦ ground arith
  ]

  map_no_slash : (name : List ℕ) → contains slash (map (replace is_alphanumeric) name) ≡ false
  map_no_slash [] = refl
  map_no_slash (c ∷ cs) = rw (replace_no_slash c) (map_no_slash cs)

  fresh-IsName :
      (random : List ℕ) → All (λ b. b < 256) random → IsName (fresh_name is_alphanumeric random)
  fresh-IsName random h = record {
    no_slash =
        contains-append (codes "uploaded_file_") (hex_encode random ++ codes ".bin") refl
          (contains-append (hex_encode random) (codes ".bin") (hex_no_slash random h) refl);
    no_dot = λ e. cc e;
    no_parent = λ e. cc e;
    no_nothing = λ e. cc e;
  }

  picked :
      (sanitized random : List ℕ)
      → contains slash sanitized ≡ false
      → All (λ b. b < 256) random
      → IsName (
          if is_empty sanitized
            || list_eq sanitized (codes ".")
            || list_eq sanitized (codes "..")
            || all_dots is_alphanumeric sanitized
          then fresh_name is_alphanumeric random
          else sanitized)
  picked [] random free h = fresh-IsName random h
  picked (c ∷ cs) random free h =
      elim (Bool-cases (
        list_eq (c ∷ cs) (codes ".")
        || list_eq (c ∷ cs) (codes "..")
        || all_dots is_alphanumeric (c ∷ cs))) [
          | inl e ↦ rw e (fresh-IsName random h)
          | inr e ↦
              let kept : IsName (c ∷ cs) = record {
                no_slash = free;
                no_dot = ne_of_list_eq (c ∷ cs) (codes ".") (both_false _ _ (both_false _ _ e).0).0;
                no_parent =
                    ne_of_list_eq (c ∷ cs) (codes "..") (both_false _ _ (both_false _ _ e).0).1;
                no_nothing = λ k. cc k;
              } in
              rw e kept
        ]

  sanitize_filename-IsName :
      (random name : List ℕ)
      → All (λ b. b < 256) random
      → IsName (sanitize_filename is_alphanumeric random name)
  unfolding sanitize_filename
  sanitize_filename-IsName random name h =
      picked (map (replace is_alphanumeric) name) random (map_no_slash name) h

  cleaned-AreNames :
      (random : ℕ → List ℕ)
      → ((i : ℕ) → All (λ b. b < 256) (random i))
      → (i : ℕ) (c : List ℕ) (cs : List (List ℕ))
      → All IsName (last_and_dirs is_alphanumeric random i c cs).0
        × IsName (last_and_dirs is_alphanumeric random i c cs).1
  cleaned-AreNames random h i c [] = (tt, sanitize_filename-IsName (random i) c (h i))
  cleaned-AreNames random h i c (d ∷ ds) =
      let v = cleaned-AreNames random h (suc i) d ds in
      ((sanitize_filename-IsName (random i) c (h i), v.0), v.1)

AreNames-free : (names : List (List ℕ)) → All IsName names → AreFree slash names
AreNames-free [] h = tt
AreNames-free (n ∷ ns) h = (h.0.no_slash, AreNames-free ns h.1)

-- A path that goes from a directory down to a file by `depth` names.
pub record IsBelow (inbox path : FilePath) : Type 0 where
  pub names : List (List ℕ)
  pub same : path ≡ inbox ++ names
  pub each : All IsName names
  pub some_name : 1 ≤ length names
  pub few : length names ≤ 11

length-snoc : (names : List (List ℕ)) (n : List ℕ) → length (names ++ (n ∷ [])) ≡ suc (length names)
length-snoc [] n = refl
length-snoc (m ∷ ms) n = ap (λ k. suc k) (length-snoc ms n)

place_in_lem :
    (is_alphanumeric : ℕ → Bool) (random : ℕ → List ℕ) (inbox : FilePath) (dirs : List (List ℕ))
    (name : List ℕ)
    → All IsName dirs
    → place_in is_alphanumeric random inbox (dirs, name) ≡ inbox ++ (dirs ++ (name ∷ []))
place_in_lem is_alphanumeric random inbox [] name h = refl
place_in_lem is_alphanumeric random inbox (d ∷ dirs) name h =
    rw (split_on-join_with slash d dirs (AreNames-free (d ∷ dirs) h))
      (append_assoc inbox (d ∷ dirs) (name ∷ []))

length-dirs :
    (is_alphanumeric : ℕ → Bool) (random : ℕ → List ℕ) (i : ℕ) (c : List ℕ) (cs : List (List ℕ))
    → length (last_and_dirs is_alphanumeric random i c cs).0 ≡ length cs
length-dirs is_alphanumeric random i c [] = refl
length-dirs is_alphanumeric random i c (d ∷ ds) =
    ap (λ k. suc k) (length-dirs is_alphanumeric random (suc i) d ds)

module _ (is_alphanumeric : ℕ → Bool) (not_slash : is_alphanumeric slash ≡ false)
    (random : ℕ → List ℕ) (are_bytes : (i : ℕ) → All (λ b. b < 256) (random i)) where
  placed :
      (inbox : FilePath) (dirs : List (List ℕ)) (name : List ℕ)
      → All IsName dirs
      → IsName name
      → length dirs ≤ 10
      → IsBelow inbox (place_in is_alphanumeric random inbox (dirs, name))
  placed inbox dirs name h k few = record {
    names = dirs ++ (name ∷ []);
    same = place_in_lem is_alphanumeric random inbox dirs name h;
    each = All-append IsName dirs (name ∷ []) h (k, tt);
    some_name = omega (arith, length-snoc dirs name);
    few = omega (arith, length-snoc dirs name);
  }

  plain_name :
      (inbox : FilePath) (raw_name : List ℕ)
      → IsBelow inbox (inbox ++ (clean is_alphanumeric random 0 raw_name ∷ []))
  plain_name inbox raw_name = record {
    names = clean is_alphanumeric random 0 raw_name ∷ [];
    same = refl;
    each =
        (sanitize_filename-IsName is_alphanumeric not_slash (random 0) raw_name (are_bytes 0), tt);
    some_name = omega arith;
    few = omega arith;
  }

  target_IsBelow :
      (inbox : FilePath) (raw_name : List ℕ) (components : List (List ℕ)) (path : FilePath)
      → target_of is_alphanumeric random inbox raw_name components ≡ some path
      → IsBelow inbox path
  target_IsBelow inbox raw_name [] path h =
      let same : inbox ++ (clean is_alphanumeric random 0 raw_name ∷ []) ≡ path = cc h in
      rw (sym same) (plain_name inbox raw_name)
  target_IsBelow inbox raw_name (c ∷ cs) path h = elim (Bool-cases (ltb 11 (length (c ∷ cs)))) [
    | inl deep ↦ cc (rw deep at h)
    | inr shallow ↦
        let both = last_and_dirs is_alphanumeric random 0 c cs in
        let same : place_in is_alphanumeric random inbox both ≡ path = cc (rw shallow at h) in
        let v = cleaned-AreNames is_alphanumeric not_slash random are_bytes 0 c cs in
        rw (sym same) (
          placed inbox both.0 both.1 v.0 v.1
            (ground (arith, length-dirs is_alphanumeric random 0 c cs)))
  ]

  -- The path at which an upload is put, whatever name the request gives it, goes down from the inbox by one
  -- to eleven names, none of which is empty, `.` or `..` or has a slash in it. A slash is not alphanumeric,
  -- and what the random number generator gives are bytes.
  pub upload_stays_in_inbox :
      (inbox : FilePath) (raw_name : List ℕ) (path : FilePath)
      → upload_target is_alphanumeric random inbox raw_name ≡ some path
      → IsBelow inbox path
  unfolding upload_target
  upload_stays_in_inbox inbox raw_name path h = elim (Bool-cases (contains slash raw_name)) [
    | inl e ↦
        target_IsBelow inbox raw_name (components_of is_alphanumeric (split_on slash raw_name)) path
          (rw e at h)
    | inr e ↦
        let same : inbox ++ (clean is_alphanumeric random 0 raw_name ∷ []) ≡ path =
          cc (rw e at h) in
        rw (sym same) (plain_name inbox raw_name)
  ]
