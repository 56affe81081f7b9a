-- ===== src/Path/Confined.antt =====
-- What the path jail guarantees (crates/nxfr-core/src/path.rs), and what it does not look at.
use nxfr.Prelude.{
  ℕ, List, [], ◌∷◌, ◌++◌, ◌≡◌, ◌≢◌, refl, some, true, false, All, list_eq_refl, list_eq_ne, ok, err,
  codes, arith, >>=-eq-ok, Bool-cases, inl, inr, Option-cases, Result-cases,
}
use nxfr.Common.Errors.{parent_traversal}
use nxfr.Path.Sanitizer.{sanitize_path}
use nxfr.Path.Accepted.{parent, IsSafeComponent}
use nxfr.Path.Jail.{
  FilePath, FileSystem, join, starts_with, parent_of, file_name, display, check_path_of,
  resolve_safe_path,
}

-- The path exists and its real path lies below the root; or its directory exists and its name in the
-- directory's real path lies below the root; or neither exists.
pub data IsConfined (fs : FileSystem) (canon j : FilePath) : Type 0 where
  existing :
      (c : FilePath)
      → fs.exists j ≡ true
      → fs.canonicalize j ≡ ok c
      → starts_with c canon ≡ true
      → IsConfined fs canon j
  in_existing :
      (c : FilePath) (name : List ℕ)
      → fs.exists j ≡ false
      → fs.exists (parent_of j) ≡ true
      → fs.canonicalize (parent_of j) ≡ ok c
      → file_name j ≡ some name
      → starts_with (c ++ (name ∷ [])) canon ≡ true
      → IsConfined fs canon j
  in_missing : fs.exists j ≡ false → fs.exists (parent_of j) ≡ false → IsConfined fs canon j

module _ (fs : FileSystem) where
  module _ (canon j c : FilePath) (checked : check_path_of fs j ≡ ok c)
      (below : starts_with c canon ≡ true) where
    checked-IsConfined : IsConfined fs canon j
    unfolding check_path_of
    checked-IsConfined = elim (Bool-cases (fs.exists j)) [
      | inl e ↦ elim (Result-cases (fs.canonicalize j)) [
        | inl (c', k) ↦ existing c' e k (ground arith)
        | inr (x, k) ↦ absurd (ground arith)
      ]
      | inr e ↦ elim (Bool-cases (fs.exists (parent_of j))) [
        | inr missing ↦ in_missing e missing
        | inl found ↦ elim (Option-cases (file_name j)) [
          | inl n ↦ absurd (ground arith)
          | inr (name, n) ↦ elim (Result-cases (fs.canonicalize (parent_of j))) [
            | inl (c', k) ↦ in_existing c' name e found k n (ground arith)
            | inr (x, k) ↦ absurd (ground arith)
          ]
        ]
      ]
    ]

  -- A path that is handed out is the root's real path with the sanitized text below it. If that file
  -- exists, its real path lies below the root's; if it does not and its directory exists, its name in
  -- the directory's real path lies below the root's; otherwise neither exists.
  pub resolve-IsConfined :
      (root j : FilePath) (relative : List ℕ)
      → resolve_safe_path fs root relative ≡ ok j
      → (canon : FilePath) × (p : List ℕ) × (fs.canonicalize root ≡ ok canon)
        × (sanitize_path relative ≡ ok p)
        × (j ≡ join canon p)
        × IsConfined fs canon j
  unfolding resolve_safe_path
  resolve-IsConfined root j relative h =
      let (p, cleaned, h1) = >>=-eq-ok (sanitize_path relative) _ h in
      elim (Result-cases (fs.canonicalize root)) [
        | inr (x, k) ↦ absurd (cc (rw k at h1))
        | inl (canon, k) ↦
            let (c, checked, h2) = >>=-eq-ok (check_path_of fs (join canon p)) _ (rw k at h1) in
            let same : j ≡ join canon p = ground (arith, h2) in
            let below : starts_with c canon ≡ true = ground (arith, h2) in
            (
              canon,
              p,
              k,
              cleaned,
              same,
              rw same (checked-IsConfined canon (join canon p) c checked below),
            )
      ]

  -- A file that exists and whose real path is not below the root is refused.
  pub resolve_escape :
      (root canon c : FilePath) (relative p : List ℕ)
      → sanitize_path relative ≡ ok p
      → fs.canonicalize root ≡ ok canon
      → fs.exists (join canon p) ≡ true
      → fs.canonicalize (join canon p) ≡ ok c
      → starts_with c canon ≡ false
      → resolve_safe_path fs root relative
        ≡ err (parent_traversal (codes "path escapes download root: " ++ display c))
  unfolding resolve_safe_path check_path_of
  resolve_escape root canon c relative p s k e l outside = rw (s, k, e, l, outside) refl

starts_with-append : (root more : FilePath) → starts_with (root ++ more) root ≡ true
unfolding starts_with
starts_with-append [] more = refl
starts_with-append (r ∷ root) more = rw list_eq_refl (starts_with-append root more)

file_name-append :
    (root : FilePath) (c : List ℕ) (cs : List (List ℕ))
    → All IsSafeComponent (c ∷ cs)
    → (name : List ℕ) × (file_name (root ++ c ∷ cs) ≡ some name)
unfolding file_name
file_name-append [] c [] h = (c, rw (list_eq_ne c parent h.0.not_parent) refl)
file_name-append [] c (d ∷ cs) h = file_name-append [] d cs h.1
file_name-append (r ∷ []) c cs h = file_name-append [] c cs h
file_name-append (r ∷ r' ∷ root) c cs h = file_name-append (r' ∷ root) c cs h

join_named :
    (root : FilePath) (pieces : List (List ℕ))
    → pieces ≢ []
    → All IsSafeComponent pieces
    → (name : List ℕ) × (file_name (root ++ pieces) ≡ some name)
join_named root [] n h = absurd (n refl)
join_named root (c ∷ cs) n h = file_name-append root c cs h
