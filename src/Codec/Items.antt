-- ===== src/Codec/Items.antt =====
-- crates/nxfr-core/src/codec.rs: the entries of a manifest and the files of a resume status, written as
-- maps and read back.
use nxfr.Prelude.{
  ℕ, String, List, ◌≡◌, refl, ok, Option, none, some, IsU32, IsU64, Bool, true, false, All,
}
use nxfr.Codec.Value.{Value, check_nesting_depth, check_values, array_of, collect}
use nxfr.Codec.Map.{get, insert, map_to_value, collect_entries}
use nxfr.Codec.Messages.{ManifestEntry, ManifestEntryType, file, dir, ResumeFileStatus}
use nxfr.Codec.Encode.{manifest_entry_map, resume_file_map, range_value}
use nxfr.Codec.Decode.{decode_manifest_entry, decode_resume_file, range_item}
use nxfr.Codec.Getters.{
  get_required, get_uint, get_uint_opt, get_text, get_text_opt, get_bytes, get_bytes_opt,
}
use nxfr.Codec.Arrays.{u64_mod, u32_mod, check_values-array_of, collect-array_of, All-map}
use nxfr.Codec.WellFormed.{IsManifestEntry, IsResumeFile, IsSized, IsHash, IsRange, Optionally}

abbrev pub entry_of : ℕ → String → Option ℕ → Option (List ℕ) → ManifestEntryType → ManifestEntry
entry_of file_id path size hash entry_type = record {
  file_id = file_id;
  relative_path = path;
  size = size;
  sha256 = hash;
  entry_type = entry_type;
}

module _ (file_id : ℕ) (path : String) (fits : IsU32 file_id) where
  entry_reread :
      (mixed : Bool) (size : Option ℕ) (hash : Option (List ℕ)) (entry_type : ManifestEntryType)
      → IsSized entry_type size hash
      → decode_manifest_entry
          (map_to_value (manifest_entry_map mixed (entry_of file_id path size hash entry_type)))
        ≡ ok (entry_of file_id path size hash entry_type)
  unfolding decode_manifest_entry insert map_to_value collect_entries get get_required get_uint
      get_uint_opt get_text get_text_opt get_bytes get_bytes_opt
  entry_reread true (some n) (some hash) file (hn, hh) =
      rw (u32_mod file_id fits, u64_mod n hn, hh) refl
  entry_reread false (some n) (some hash) file (hn, hh) =
      rw (u32_mod file_id fits, u64_mod n hn, hh) refl
  entry_reread mixed (some n) none file h = absurd h
  entry_reread mixed none hash file h = absurd h
  entry_reread mixed none none dir h = rw (u32_mod file_id fits) refl
  entry_reread mixed (some n) none dir (hn, hh) = rw (u32_mod file_id fits, u64_mod n hn) refl
  entry_reread mixed none (some hash) dir (hn, hh) = rw (u32_mod file_id fits, hh) refl
  entry_reread mixed (some n) (some hash) dir (hn, hh) =
      rw (u32_mod file_id fits, u64_mod n hn, hh) refl

-- An entry is shallow whatever its fields are.
entry_shallow :
    (file_id : ℕ) (path : String) (mixed : Bool) (size : Option ℕ) (hash : Option (List ℕ))
    (entry_type : ManifestEntryType)
    → check_nesting_depth
        (map_to_value (manifest_entry_map mixed (entry_of file_id path size hash entry_type)))
        2
      ≡ ok tt
unfolding insert map_to_value check_nesting_depth
entry_shallow id path true none none file = refl
entry_shallow id path true none (some h) file = refl
entry_shallow id path true (some n) none file = refl
entry_shallow id path true (some n) (some h) file = refl
entry_shallow id path false none none file = refl
entry_shallow id path false none (some h) file = refl
entry_shallow id path false (some n) none file = refl
entry_shallow id path false (some n) (some h) file = refl
entry_shallow id path mixed none none dir = refl
entry_shallow id path mixed none (some h) dir = refl
entry_shallow id path mixed (some n) none dir = refl
entry_shallow id path mixed (some n) (some h) dir = refl

module _ (mixed : Bool) where
  abbrev pub entry_value : ManifestEntry → Value
  entry_value e = map_to_value (manifest_entry_map mixed e)

  pub entries_reread :
      (es : List ManifestEntry)
      → All IsManifestEntry es
      → collect decode_manifest_entry (array_of entry_value es) ≡ ok es
  entries_reread es h = collect-array_of entry_value decode_manifest_entry es (All-map back es h)
    where
      back : (e : ManifestEntry) → IsManifestEntry e → decode_manifest_entry (entry_value e) ≡ ok e
      back e v =
          entry_reread e.file_id e.relative_path v.file_id_fits mixed e.size e.sha256 e.entry_type
            v.sized

  pub entries_shallow : (es : List ManifestEntry) → check_values (array_of entry_value es) 2 ≡ ok tt
  entries_shallow =
      check_values-array_of entry_value 2
        λ e. entry_shallow e.file_id e.relative_path mixed e.size e.sha256 e.entry_type

ranges_reread :
    (rs : List (ℕ × ℕ)) → All IsRange rs → collect range_item (array_of range_value rs) ≡ ok rs
ranges_reread rs h = collect-array_of range_value range_item rs (All-map back rs h)
  where
    back : (r : ℕ × ℕ) → IsRange r → range_item (range_value r) ≡ ok r
    back (o, l) (ho, hl) = rw (u64_mod o ho, u64_mod l hl) refl

ranges_shallow : (rs : List (ℕ × ℕ)) → check_values (array_of range_value rs) 4 ≡ ok tt
unfolding check_nesting_depth
ranges_shallow = check_values-array_of range_value 4 pair_shallow
  where
    pair_shallow : (r : ℕ × ℕ) → check_nesting_depth (range_value r) 4 ≡ ok tt
    pair_shallow (o, l) = refl

abbrev file_of : ℕ → ℕ → List (ℕ × ℕ) → Option (List ℕ) → ResumeFileStatus
file_of file_id received ranges hash = record {
  file_id = file_id;
  received_bytes = received;
  received_ranges = ranges;
  partial_sha256 = hash;
}

module _ (file_id received : ℕ) (ranges : List (ℕ × ℕ)) where
  file_reread :
      (hash : Option (List ℕ))
      → IsU32 file_id
      → IsU64 received
      → All IsRange ranges
      → Optionally IsHash hash
      → decode_resume_file (map_to_value (resume_file_map (file_of file_id received ranges hash)))
        ≡ ok (file_of file_id received ranges hash)
  unfolding decode_resume_file insert map_to_value collect_entries get get_required get_uint
      get_bytes get_bytes_opt
  file_reread none hf hr fit h =
      rw (u32_mod file_id hf, u64_mod received hr, ranges_reread ranges fit) refl
  file_reread (some hash) hf hr fit h =
      rw (u32_mod file_id hf, u64_mod received hr, ranges_reread ranges fit, h) refl

  file_shallow :
      (hash : Option (List ℕ))
      → check_nesting_depth
          (map_to_value (resume_file_map (file_of file_id received ranges hash)))
          2
        ≡ ok tt
  unfolding insert map_to_value check_nesting_depth
  file_shallow none = rw (ranges_shallow ranges) refl
  file_shallow (some hash) = rw (ranges_shallow ranges) refl

abbrev pub file_value : ResumeFileStatus → Value
file_value f = map_to_value (resume_file_map f)

pub files_reread :
    (fs : List ResumeFileStatus)
    → All IsResumeFile fs
    → collect decode_resume_file (array_of file_value fs) ≡ ok fs
files_reread fs h = collect-array_of file_value decode_resume_file fs (All-map back fs h)
  where
    back : (f : ResumeFileStatus) → IsResumeFile f → decode_resume_file (file_value f) ≡ ok f
    back f v =
        file_reread f.file_id f.received_bytes f.received_ranges f.partial_sha256 v.file_id_fits
          v.received_fits v.ranges_fit v.hash_width

pub files_shallow : (fs : List ResumeFileStatus) → check_values (array_of file_value fs) 2 ≡ ok tt
files_shallow =
    check_values-array_of file_value 2
      λ f. file_shallow f.file_id f.received_bytes f.received_ranges f.partial_sha256
