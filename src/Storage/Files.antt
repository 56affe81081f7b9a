-- ===== src/Storage/Files.antt =====
-- The files of the journal's directory as they are read (crates/nxfr-storage/src/resume.rs).
use nxfr.Prelude.{
  ℕ, codes, List, [], ◌∷◌, none, some, false, list_eq, list_eq_refl, list_eq_iff, list_eq_ne,
  if◌then◌else◌, ◌≡◌, ◌≢◌, refl, arith, ap, sym, ◌∙◌,
}
use mathlib.Core.List.{reverse, reverse-append, append_cancel_right}
use nxfr.Storage.Journal.{
  Directory, read_file, write_file, remove_file, rename, file_name, tmp_name,
}

-- `remove_file` and `write_file` as seen by `read_file`.
pub read_file-remove_file :
    (name : List ℕ) (d : Directory) (q : List ℕ)
    → read_file q (remove_file name d) ≡ (if list_eq name q then none else read_file q d)
unfolding read_file remove_file
read_file-remove_file name [] q = ground arith
read_file-remove_file name ((n, content) ∷ d) q =
    ground (
      arith,
      read_file-remove_file name d q,
      list_eq_iff n name,
      list_eq_iff n q,
      list_eq_iff name q,
    )

pub read_file-write_file :
    (name content : List ℕ) (d : Directory) (q : List ℕ)
    → read_file q (write_file name content d)
      ≡ (if list_eq name q then some content else read_file q d)
unfolding read_file write_file
read_file-write_file name content d q = ground (arith, read_file-remove_file name d q)

abbrev last_byte : List ℕ → ℕ
last_byte [] = 0
last_byte (x ∷ xs) = x

-- A temporary file is no journal.
tmp-ne-file : (id j : List ℕ) → tmp_name id ≢ file_name j
tmp-ne-file id j e =
    let r = ap (λ (xs : List ℕ). last_byte (reverse xs)) e in
    let l = ap last_byte (reverse-append id (codes ".json.tmp")) in
    let k = ap last_byte (reverse-append j (codes ".json")) in
    let t : ◌≡◌ {A = ℕ} 112 110 = sym l ∙ r ∙ k in absurd (omega arith)

pub file_name-eq : (id j : List ℕ) → list_eq (file_name id) (file_name j) ≡ list_eq id j
file_name-eq id j =
    let injective = append_cancel_right id j (codes ".json") in
    ground (arith, list_eq_iff (file_name id) (file_name j), list_eq_iff id j)

pub read_file_written :
    (name content : List ℕ) (d : Directory)
    → read_file name (write_file name content d) ≡ some content
read_file_written name content d = read_file-write_file name content d name ∙ rw list_eq_refl refl

module _ (id j : List ℕ) where
  tmp-apart : list_eq (tmp_name id) (file_name j) ≡ false
  tmp-apart = list_eq_ne (tmp_name id) (file_name j) (tmp-ne-file id j)

  pub read_file-write_tmp :
      (content : List ℕ) (d : Directory)
      → read_file (file_name j) (write_file (tmp_name id) content d) ≡ read_file (file_name j) d
  read_file-write_tmp content d = rw (read_file-write_file, tmp-apart) refl

  pub read_file-rename :
      (content : List ℕ) (d : Directory)
      → read_file (tmp_name id) d ≡ some content
      → read_file (file_name j) (rename (tmp_name id) (file_name id) d)
        ≡ (if list_eq id j then some content else read_file (file_name j) d)
  read_file-rename content d e =
      rw (e, read_file-write_file, file_name-eq, read_file-remove_file, tmp-apart) refl
