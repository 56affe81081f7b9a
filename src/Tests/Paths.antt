-- ===== src/Tests/Paths.antt =====
-- The path sanitizer and the path jail on fixed inputs.
use nxfr.Prelude.{
  ℕ, List, [], ◌∷◌, ◌++◌, ◌≡◌, refl, ok, err, arith, true, false, list_eq, codes, split_on,
  join_with, ◌↔◌, if◌then◌else◌,
}
use nxfr.Common.Errors.{absolute_path}
use nxfr.Path.Sanitizer.{
  sanitize_path, slash, check_input, has_drive_letter, normalize, check_component, is_skipped,
  is_reserved, assemble, to_upper,
}
use nxfr.Path.Accepted.{IsAcceptable, keep, sanitize_iff}
use nxfr.Path.Drive.{behind_dot, on_drive, drive_survives}
use nxfr.Path.Jail.{FilePath, FileSystem, join, resolve_safe_path, check_path_of, starts_with}
use nxfr.Path.Confined.{IsConfined, resolve-IsConfined}

abbrev raw : List ℕ
raw = codes "album//./photo.jpg"

abbrev clean : List ℕ
clean = codes "album/photo.jpg"

raw_accepted : sanitize_path raw ≡ ok clean
unfolding sanitize_path check_input has_drive_letter normalize check_component is_skipped
    is_reserved assemble to_upper split_on join_with list_eq
raw_accepted = refl

sanitize_iff_example :
    (sanitize_path raw ≡ ok clean)
    ↔ (IsAcceptable raw × (clean ≡ join_with slash (keep (split_on slash raw))))
sanitize_iff_example = sanitize_iff raw clean

clean_no_drive : has_drive_letter clean ≡ false
unfolding has_drive_letter
clean_no_drive = refl

drive_survives_example :
    (sanitize_path (behind_dot (on_drive b'C' raw)) ≡ ok (on_drive b'C' clean))
    × (sanitize_path (on_drive b'C' clean) ≡ err (absolute_path (on_drive b'C' clean)))
drive_survives_example = drive_survives b'C' raw clean refl raw_accepted (omega arith)

-- A disk whose download directory `/home/dl` has no links, and a link `album` in it to `/etc`.
abbrev downloads : FilePath
downloads = codes "home" ∷ codes "dl" ∷ []

abbrev in_album : FilePath
in_album = downloads ++ codes "album" ∷ codes "photo.jpg" ∷ []

abbrev outside : FilePath
outside = codes "etc" ∷ codes "photo.jpg" ∷ []

-- `album/photo.jpg` is a plain file.
abbrev plain : FileSystem
plain = record { canonicalize = λ p. ok p; exists = λ p. true }

-- `album` is a link to `/etc`, where there is a file of that name.
abbrev linked : FileSystem
linked = record {
  canonicalize =
      λ p. if list_eq (join_with slash p) (join_with slash in_album) then ok outside else ok p;
  exists = λ p. true;
}

-- Nothing of the path exists yet.
abbrev bare : FileSystem
bare = record { canonicalize = λ p. ok p; exists = λ p. false }

plain_resolves : resolve_safe_path plain downloads raw ≡ ok in_album
unfolding resolve_safe_path check_path_of starts_with sanitize_path check_input has_drive_letter
    normalize check_component is_skipped is_reserved assemble to_upper split_on join_with list_eq
plain_resolves = refl

resolve-IsConfined_example :
    (canon : FilePath) × (p : List ℕ) × (plain.canonicalize downloads ≡ ok canon)
    × (sanitize_path raw ≡ ok p)
    × (in_album ≡ join canon p)
    × IsConfined plain canon in_album
resolve-IsConfined_example = resolve-IsConfined plain downloads in_album raw plain_resolves

downloads_linked : linked.canonicalize downloads ≡ ok downloads
unfolding list_eq join_with
downloads_linked = refl

album_linked : linked.canonicalize (join downloads clean) ≡ ok outside
unfolding list_eq join_with split_on
album_linked = refl

etc_not_below : starts_with outside downloads ≡ false
unfolding starts_with list_eq
etc_not_below = refl
