-- ===== src/Codec/Decoded/Items.antt =====
-- crates/nxfr-core/src/codec.rs: what the decoder makes of a manifest and of the files of a resume status.
use nxfr.Prelude.{
  List, ◌≡◌, refl, Result, ◌>>◌, Option, none, some, IsU64, arith, Bool, length, ltb, ◌≤◌, All,
  true, false, Bool-cases, inl, inr, reject_if, if◌then◌else◌,
}
use nxfr.Common.Errors.{CodecError, manifest_too_large}
use nxfr.Common.Limits.{max_manifest_entries}
use nxfr.Codec.Value.{Value, Values, array, integer, nil, cons, collect, length_values, as_unsigned}
use nxfr.Codec.Map.{item_map, CborMap}
use nxfr.Codec.Messages.{ManifestEntryType, file, dir, ManifestEntry, ResumeFileStatus}
use nxfr.Codec.Getters.{get_required, get_text, get_text_opt}
use nxfr.Codec.Decode.{
  entry_type_of, decode_size_hash, decode_manifest, decode_manifest_entry, manifest_array,
  range_part, range_item, ranges_of, decode_resume_file, decode_resume_files,
}
use nxfr.Codec.Ensures.{
  Ensures, anything, returns, fails, ◌then◌, Ensures-collect, Ensures-collect-length, both,
  as_unsigned_fits_64, get_uint_fits, get_u32_fits, get_uint_opt_fits, get_bytes_width,
  get_bytes_opt_width,
}
use nxfr.Codec.WellFormed.{IsManifestEntry, IsResumeFile, IsRange, IsSized, Optionally}

size_hash_fits :
    (m : CborMap) (entry_type : ManifestEntryType)
    → Ensures (λ sh. IsSized entry_type (sh.0) (sh.1)) (decode_size_hash m entry_type)
size_hash_fits m file = get_uint_fits m "size" then λ n hn.
    get_bytes_width m "sha256" 32 then λ hash hh.
    returns (λ sh. IsSized file (sh.0) (sh.1)) (some n, some hash) (hn, hh)
size_hash_fits m dir = get_uint_opt_fits m "size" then λ n hn.
    get_bytes_opt_width m "sha256" 32 then λ hash hh.
    returns (λ sh. IsSized dir (sh.0) (sh.1)) (n, hash) (hn, hh)

decode_manifest_entry-IsManifestEntry :
    (v : Value) → Ensures IsManifestEntry (decode_manifest_entry v)
unfolding decode_manifest_entry
decode_manifest_entry-IsManifestEntry v = anything (item_map "manifest[]" v) then λ m _.
    get_u32_fits m "file_id" then λ id fits. anything (get_text m "relative_path") then λ path _.
    anything (get_text_opt m "type") then λ name _.
    anything (entry_type_of name) then λ entry_type _. size_hash_fits m entry_type then λ sh sized.
    returns IsManifestEntry _ (record { file_id_fits = fits; sized = sized })

abbrev pub IsManifest : List ManifestEntry → Type 0
IsManifest es = (length es ≤ max_manifest_entries) × All IsManifestEntry es

-- A result with a property is a result with a weaker one.
weaken :
    {P Q : List ManifestEntry → Type 0} {r : Result CodecError (List ManifestEntry)}
    → Ensures P r
    → ((a : List ManifestEntry) → P a → Q a)
    → Ensures Q r
weaken h k = record { holds = λ a e. k a (h.holds a e) }

collect-IsManifest :
    (vs : Values)
    → Ensures IsManifest (
        reject_if
          (ltb max_manifest_entries (length_values vs))
          (manifest_too_large (length_values vs))
        >> collect decode_manifest_entry vs)
collect-IsManifest vs = elim (Bool-cases (ltb max_manifest_entries (length_values vs))) [
  | inl long ↦ rw long (fails IsManifest _)
  | inr short ↦ rw short (
      weaken
        (both _ _ _ (Ensures-collect-length decode_manifest_entry vs)
          (Ensures-collect IsManifestEntry _ decode_manifest_entry-IsManifestEntry vs))
        λ es h. (ground (arith, h.0), h.1))
]

pub decode_manifest-IsManifest : (v : Value) → Ensures IsManifest (decode_manifest v)
unfolding decode_manifest
decode_manifest-IsManifest v = anything (manifest_array v) then λ vs _. collect-IsManifest vs

range_part_fits : (v : Value) → Ensures IsU64 (range_part v)
range_part_fits (integer i) = returns IsU64 (as_unsigned 64 i) (as_unsigned_fits_64 i)
range_part_fits _ = fails IsU64 _

range_item_fits : (v : Value) → Ensures IsRange (range_item v)
range_item_fits (array (cons a (cons b nil))) =
    range_part_fits a then λ o ho. range_part_fits b then λ l hl. returns IsRange (o, l) (ho, hl)
range_item_fits _ = fails IsRange _

ranges_fit : (v : Value) → Ensures (All IsRange) (ranges_of v)
ranges_fit (array vs) = Ensures-collect IsRange range_item range_item_fits vs
ranges_fit _ = fails (All IsRange) _

decode_resume_file-IsResumeFile : (v : Value) → Ensures IsResumeFile (decode_resume_file v)
unfolding decode_resume_file
decode_resume_file-IsResumeFile v = anything (item_map "files[]" v) then λ m _.
    get_u32_fits m "file_id" then λ id hid. get_uint_fits m "received_bytes" then λ n hn.
    anything (get_required m "received_ranges") then λ rv _. ranges_fit rv then λ rs hrs.
    get_bytes_opt_width m "partial_sha256" 32 then λ hash hh.
    returns IsResumeFile _
      (record { file_id_fits = hid; received_fits = hn; ranges_fit = hrs; hash_width = hh })

-- The files are those of a resumable transfer, or there are none.
abbrev pub IsFiles : Bool → Option (List ResumeFileStatus) → Type 0
IsFiles true fs = Optionally (All IsResumeFile) fs
IsFiles false fs = fs ≡ none

pub decode_resume_files-IsFiles :
    (resumable : Bool) (v : Option Value)
    → Ensures (IsFiles resumable) (decode_resume_files resumable v)
decode_resume_files-IsFiles true (some (array vs)) =
    Ensures-collect IsResumeFile decode_resume_file decode_resume_file-IsResumeFile vs then λ fs h.
    returns (IsFiles true) (some fs) h
decode_resume_files-IsFiles true _ = returns (IsFiles true) none tt
decode_resume_files-IsFiles false v = returns (IsFiles false) none refl
