-- ===== src/Storage/Resumed.antt =====
-- What the journal has for a transfer after a collection
-- (crates/nxfr-storage/src/resume.rs).
use nxfr.Prelude.{
  ℕ, suc, ◌-◌, ◌<◌, codes, List, [], ◌∷◌, Option, none, some, Bool, true, false, ◌&&◌, ◌||◌, ltb,
  list_eq, list_eq→eq, list_eq_refl, list_eq_iff, if◌then◌else◌, length, length-append,
  take-append_self, drop-append_self, ℤ, ok, ◌≡◌, refl, arith, ap, ◌∙◌, Bool-cases, inl, inr, any,
}
use nxfr.Storage.Journal.{
  ResumeState, Directory, read_file, file_name, delete, active_id, push_some, list_active,
  load_content, load, is_expired, gc_loop, gc_expired,
}
use nxfr.Storage.Files.{read_file-remove_file, file_name-eq}

module _ (from_str : List ℕ → Option ResumeState) (now : ℤ) where
  abbrev expired : List ℕ → Directory → Bool
  expired id d = is_expired from_str now (load from_str id d)

  abbrev sweep : List ℕ → Directory → Directory
  sweep id d = if expired id d then delete id d else d

  read_file-delete :
      (id j : List ℕ) (d : Directory)
      → read_file (file_name j) (delete id d)
        ≡ (if list_eq id j then none else read_file (file_name j) d)
  unfolding delete
  read_file-delete id j d = rw (read_file-remove_file, file_name-eq) refl

  -- What a collection leaves of a file: nothing, if it is among those looked at and expired.
  abbrev survivor : Bool → Option (List ℕ) → Option (List ℕ)
  survivor looked found =
      if looked && is_expired from_str now (load_content from_str found) then none else found

  sweep_read :
      (id j : List ℕ) (d : Directory)
      → read_file (file_name j) (sweep id d) ≡ survivor (list_eq id j) (read_file (file_name j) d)
  unfolding load
  sweep_read id j d = ground (arith, read_file-delete id j d, list_eq_iff id j)

  survivor_again :
      (p q : Bool) (found : Option (List ℕ))
      → survivor q (survivor p found) ≡ survivor (p || q) found
  survivor_again p q found = ground arith

  abbrev names : List (List ℕ) → List ℕ → Bool
  names ids j = any (λ id. list_eq id j) ids

  gc_loop_read :
      (ids : List (List ℕ)) (count : ℕ) (d : Directory) (j : List ℕ)
      → read_file (file_name j) (gc_loop from_str now ids count d).0
        ≡ survivor (names ids j) (read_file (file_name j) d)
  unfolding gc_loop
  gc_loop_read [] count d j = refl
  gc_loop_read (id ∷ ids) count d j =
      gc_loop_read ids (if expired id d then suc count else count) (sweep id d) j
      ∙ rw (sweep_read id j d)
          (survivor_again (list_eq id j) (names ids j) (read_file (file_name j) d))

  module _ (j : List ℕ) (some_byte : 0 < length j) where
    active_id-file_name : active_id (file_name j) ≡ some j
    unfolding active_id
    active_id-file_name =
        let len = length-append j (codes ".json") in
        let cut : length (file_name j) - 5 ≡ length j = omega arith in
        let long : ltb 5 (length (file_name j)) ≡ true = ground arith in
        rw
          (
            long,
            cut,
            drop-append_self j (codes ".json"),
            take-append_self j (codes ".json"),
            list_eq_refl,
          )
          refl

    names_pushed :
        (found : Option (List ℕ)) (ids : List (List ℕ))
        → names ids j ≡ true
        → names (push_some found ids) j ≡ true
    names_pushed none ids h = h
    names_pushed (some id) ids h = ground arith

    -- A journal that is there is listed.
    found_is_listed :
        (d : Directory) (content : List ℕ)
        → read_file (file_name j) d ≡ some content
        → names (list_active d) j ≡ true
    unfolding read_file list_active
    found_is_listed [] content h = cc
    found_is_listed ((n, c) ∷ d) content h = elim (Bool-cases (list_eq n (file_name j))) [
      | inl e ↦ rw (list_eq→eq n (file_name j) e, active_id-file_name, list_eq_refl) refl
      | inr e ↦ names_pushed (active_id n) (list_active d) (found_is_listed d content (rw e at h))
    ]

    survivor_loaded :
        (b : Bool) (found : Option (List ℕ))
        → ((content : List ℕ) → found ≡ some content → b ≡ true)
        → load_content from_str (survivor b found) ≡ (
            if is_expired from_str now (load_content from_str found)
            then ok none
            else load_content from_str found)
    survivor_loaded true none listed = refl
    survivor_loaded false none listed = refl
    survivor_loaded b (some content) listed = rw (listed content refl) (ground arith)

    -- A collection removes the journals that are expired and no other: after it, a transfer whose id is not
    -- the empty text has no state if it had one that expired before `now`, and else what it had, be that a
    -- state, none, or a file that cannot be read.
    pub gc_expired_exact :
        (d : Directory)
        → load from_str j (gc_expired from_str now d).0
          ≡ (if is_expired from_str now (load from_str j d) then ok none else load from_str j d)
    unfolding load gc_expired
    gc_expired_exact d =
        ap (load_content from_str) (gc_loop_read (list_active d) 0 d j)
        ∙ survivor_loaded (names (list_active d) j) (read_file (file_name j) d) (found_is_listed d)
