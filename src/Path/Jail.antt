-- ===== src/Path/Jail.antt =====
-- crates/nxfr-core/src/path.rs: `resolve_safe_path`. The file system answers `canonicalize` and
-- `exists`, and is a parameter; an absolute path is the list of its components, as `std::path` on a
-- Unix system compares and joins paths.
use nxfr.Prelude.{
  ℕ, List, [], ◌∷◌, ◌++◌, Option, none, some, Bool, true, false, not, ◌&&◌, list_eq, if◌then◌else◌,
  Result, ok, err, ◌>>=◌, ◌>>◌, reject_if, ok_or, codes, split_on, join_with,
}
use nxfr.Common.Errors.{PathError, empty_path, absolute_path, parent_traversal}
use nxfr.Path.Sanitizer.{slash, sanitize_path}
use nxfr.Path.Accepted.{parent}

abbrev pub FilePath : Type 0
FilePath = List (List ℕ)

-- `canonicalize` follows every symbolic link, or fails with a message.
pub record FileSystem : Type 0 where
  pub canonicalize : FilePath → Result (List ℕ) FilePath
  pub exists : FilePath → Bool

-- `Path::join` with a relative text.
abbrev pub join : FilePath → List ℕ → FilePath
join root relative = root ++ split_on slash relative

-- `Path::starts_with`, component by component.
unfoldable pub starts_with : FilePath → FilePath → Bool
starts_with path [] = true
starts_with [] (r ∷ root) = false
starts_with (c ∷ path) (r ∷ root) = list_eq c r && starts_with path root

-- `Path::parent`
unfoldable pub parent_of : FilePath → FilePath
parent_of [] = []
parent_of (c ∷ []) = []
parent_of (c ∷ d ∷ path) = c ∷ parent_of (d ∷ path)

-- `Path::file_name`: there is none at the root, and none after a final double dot.
unfoldable pub file_name : FilePath → Option (List ℕ)
file_name [] = none
file_name (c ∷ []) = if list_eq c parent then none else some c
file_name (c ∷ d ∷ path) = file_name (d ∷ path)

-- `Path::display`
abbrev pub display : FilePath → List ℕ
display path = slash ∷ join_with slash path

-- `map_err(|e| PathError::AbsolutePath(format!(...)))`
abbrev pub or_absolute : List ℕ → Result (List ℕ) FilePath → Result PathError FilePath
or_absolute note (ok path) = ok path
or_absolute note (err e) = err (absolute_path (note ++ e))

module _ (fs : FileSystem) where
  -- The path whose place is checked: the file, or its name in its parent, or the text itself.
  unfoldable pub check_path_of : FilePath → Result PathError FilePath
  check_path_of joined =
      if fs.exists joined
      then or_absolute (codes "cannot canonicalize dest: ") (fs.canonicalize joined)
      else do
        filename ← ok_or (file_name joined) empty_path
        if fs.exists (parent_of joined)
            then (do
              place ←
                  or_absolute (codes "cannot canonicalize parent: ")
                    (fs.canonicalize (parent_of joined))
              ok (place ++ (filename ∷ [])))
            else ok joined

  unfoldable pub resolve_safe_path : FilePath → List ℕ → Result PathError FilePath
  resolve_safe_path download_root relative = do
    sanitized ← sanitize_path relative
    canon_root ← or_absolute (codes "cannot canonicalize root: ") (fs.canonicalize download_root)
    let joined = join canon_root sanitized
    check_path ← check_path_of joined
    reject_if (not (starts_with check_path canon_root))
        (parent_traversal (codes "path escapes download root: " ++ display check_path))
    ok joined
