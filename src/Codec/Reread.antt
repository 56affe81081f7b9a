-- ===== src/Codec/Reread.antt =====
-- crates/nxfr-core/src/codec.rs: an encoded message, decoded again: the messages with many fields.
use nxfr.Prelude.{
  ℕ, String, List, ◌≡◌, refl, ◌%◌, ◌^◌, Result, ok, ◌>>=◌, Option, none, some, IsU32, IsU64, arith,
  Bool, length, true, false, All, any, ltb,
}
use nxfr.Common.Errors.{CodecError}
use nxfr.Codec.Value.{check_nesting_depth, check_entries, check_values, text, array_of}
use nxfr.Codec.Map.{get, insert, map_to_value, collect_entries, to_cbor_map}
use nxfr.Codec.Messages.{
  Greeting, Offer, ControlMessage, hello, hello_ack, transfer_request, file_metadata, resume_status,
  TransferType, files, directory, ResumeFileStatus,
}
use nxfr.Codec.Encode.{encode_to_map, is_dir, transfer_type_name}
use nxfr.Codec.Decode.{
  decode_value, decode_map, decode_as, decode_greeting, decode_hello, decode_hello_ack,
  decode_transfer_request, decode_file_metadata, decode_resume_status, transfer_type_of,
  decode_manifest,
}
use nxfr.Codec.Getters.{
  uint_to_value, get_required, get_uint, get_uint_opt, get_text, get_text_opt, get_bool, get_bytes,
  get_str_array, parse_version_array,
}
use nxfr.Codec.Arrays.{
  u64_mod, u32_mod, check_values-array_of, length_values-array_of, collect-str_item,
}
use nxfr.Codec.Items.{entries_shallow, entries_reread, entry_value, files_shallow, files_reread}
use nxfr.Common.Limits.{max_manifest_entries}
use nxfr.Codec.WellFormed.{IsGreeting, IsOffer, IsResumeFile, Optionally, IsTransferId, IsHash}

-- The encoded message, decoded.
unfoldable pub reread : ControlMessage → Result CodecError ControlMessage
reread msg = do m ← encode_to_map msg; decode_value (map_to_value m)

u32_same : (n : ℕ) → IsU32 n → n % 2 ^ 32 ≡ n
u32_same n h = omega arith

texts_shallow : (ss : List String) → check_values (array_of text ss) 2 ≡ ok tt
unfolding check_nesting_depth
texts_shallow = check_values-array_of text 2 (λ s. refl)

pub ids_shallow : (ids : List ℕ) → check_values (array_of uint_to_value ids) 2 ≡ ok tt
unfolding check_nesting_depth
ids_shallow = check_values-array_of uint_to_value 2 (λ n. refl)

module _ (g : Greeting) (v : IsGreeting g) where
  pub hello_reread : reread (hello g) ≡ ok (hello g)
  unfolding reread encode_to_map decode_value decode_map decode_as map_to_value insert get get_uint
      get_required to_cbor_map collect_entries check_nesting_depth check_entries check_values
      get_bytes get_text get_bool get_str_array parse_version_array decode_greeting decode_hello
  hello_reread =
      rw
        (
          texts_shallow g.capabilities,
          collect-str_item "capabilities" g.capabilities,
          v.id_width,
          u32_same (g.protocol_version.major) v.major_fits,
          u32_same (g.protocol_version.minor) v.minor_fits,
          v.platform_known,
        )
        refl

  pub hello_ack_reread : (n : ℕ) → IsU32 n → reread (hello_ack g n) ≡ ok (hello_ack g n)
  unfolding reread encode_to_map decode_value decode_map decode_as map_to_value insert get get_uint
      get_required to_cbor_map collect_entries check_nesting_depth check_entries check_values
      get_bytes get_text get_bool get_str_array parse_version_array decode_greeting decode_hello_ack
  hello_ack_reread n fits =
      rw
        (
          texts_shallow g.capabilities,
          collect-str_item "capabilities" g.capabilities,
          v.id_width,
          u32_same (g.protocol_version.major) v.major_fits,
          u32_same (g.protocol_version.minor) v.minor_fits,
          v.platform_known,
          u32_mod n fits,
        )
        refl

module _ (id : List ℕ) (file_id stream_id : ℕ) (path : String) (size : ℕ) (hash : List ℕ)
    (id_width : IsTransferId id) (fits : IsU32 file_id) (stream_fits : IsU32 stream_id)
    (size_fits : IsU64 size) (hash_width : IsHash hash) where
  abbrev pub metadata : Option String → Option ℕ → ControlMessage
  metadata mime_type modified_time = file_metadata (record {
    transfer_id = id;
    file_id = file_id;
    stream_id = stream_id;
    relative_path = path;
    size = size;
    sha256 = hash;
    mime_type = mime_type;
    modified_time = modified_time;
  })

  pub reread-metadata :
      (mime_type : Option String) (modified_time : Option ℕ)
      → Optionally IsU64 modified_time
      → reread (metadata mime_type modified_time) ≡ ok (metadata mime_type modified_time)
  unfolding reread encode_to_map decode_value decode_map decode_as map_to_value insert get get_uint
      get_required to_cbor_map collect_entries check_nesting_depth check_entries check_values
      get_bytes get_text get_text_opt get_uint_opt decode_file_metadata
  reread-metadata none none h =
      rw
        (
          id_width,
          hash_width,
          u32_mod file_id fits,
          u32_mod stream_id stream_fits,
          u64_mod size size_fits,
        )
        refl
  reread-metadata (some m) none h =
      rw
        (
          id_width,
          hash_width,
          u32_mod file_id fits,
          u32_mod stream_id stream_fits,
          u64_mod size size_fits,
        )
        refl
  reread-metadata none (some t) h =
      rw
        (
          id_width,
          hash_width,
          u32_mod file_id fits,
          u32_mod stream_id stream_fits,
          u64_mod size size_fits,
          u64_mod t h,
        )
        refl
  reread-metadata (some m) (some t) h =
      rw
        (
          id_width,
          hash_width,
          u32_mod file_id fits,
          u32_mod stream_id stream_fits,
          u64_mod size size_fits,
          u64_mod t h,
        )
        refl

pub offer_reread : (o : Offer) → IsOffer o → reread (transfer_request o) ≡ ok (transfer_request o)
unfolding reread encode_to_map decode_value decode_map decode_as map_to_value insert get get_uint
    get_required to_cbor_map collect_entries check_nesting_depth check_entries check_values
    get_bytes get_text decode_manifest decode_transfer_request
offer_reread o v =
    rw
      (
        within,
        entries_shallow mixed o.manifest,
        v.id_width,
        type_back o.transfer_type,
        u32_mod o.total_files v.total_files_fits,
        u64_mod o.total_size v.total_size_fits,
        length_values-array_of (entry_value mixed) o.manifest,
        within,
        entries_reread mixed o.manifest v.manifest_entries,
      )
      refl
  where
    mixed : Bool
    mixed = any is_dir o.manifest

    within : ltb max_manifest_entries (length o.manifest) ≡ false
    within = ground (arith, v.manifest_fits)

    type_back : (t : TransferType) → transfer_type_of (transfer_type_name t) ≡ ok t
    type_back files = refl
    type_back directory = refl

module _ (id : List ℕ) (id_width : IsTransferId id) where
  pub resumable_reread :
      (fs : Option (List ResumeFileStatus)) (expiry : Option ℕ)
      → Optionally (All IsResumeFile) fs
      → Optionally IsU64 expiry
      → reread (resume_status id true fs expiry) ≡ ok (resume_status id true fs expiry)
  unfolding reread encode_to_map decode_value decode_map decode_as map_to_value insert get get_uint
      get_required to_cbor_map collect_entries check_nesting_depth check_entries check_values
      get_bytes get_bool get_uint_opt decode_resume_status
  resumable_reread none none hf he = rw id_width refl
  resumable_reread none (some t) hf he = rw (id_width, u64_mod t he) refl
  resumable_reread (some fs) none hf he = rw (id_width, files_shallow fs, files_reread fs hf) refl
  resumable_reread (some fs) (some t) hf he =
      rw (id_width, u64_mod t he, files_shallow fs, files_reread fs hf) refl

  pub unresumable_reread :
      (expiry : Option ℕ)
      → Optionally IsU64 expiry
      → reread (resume_status id false none expiry) ≡ ok (resume_status id false none expiry)
  unfolding reread encode_to_map decode_value decode_map decode_as map_to_value insert get get_uint
      get_required to_cbor_map collect_entries check_nesting_depth check_entries check_values
      get_bytes get_bool get_uint_opt decode_resume_status
  unresumable_reread none he = rw id_width refl
  unresumable_reread (some t) he = rw (id_width, u64_mod t he) refl
