-- ===== src/Codec/Decoded.antt =====
-- crates/nxfr-core/src/codec.rs: what every decoded message is like.
mod Items
mod Messages
use nxfr.Prelude.{
  ℕ, String, List, [], ◌∷◌, ◌≡◌, refl, Result, ok, err, ◌>>=◌, ◌>>◌, Option, none, some, IsU32,
  IsU64, arith, Bool, length, leb, ltb, ◌≤◌, All, true, false, str_eq, Bool-cases, inl, inr,
  reject_if, ◌==◌, if◌then◌else◌, Option-cases,
}
use nxfr.Common.Errors.{CodecError, manifest_too_large, unknown_message_type}
use nxfr.Common.Limits.{max_manifest_entries}
use nxfr.Common.Platform.{from_str_lossy-IsCanonical}
use nxfr.ErrorCode.{from_wire_str, from_wire_str-IsCanonical}
use nxfr.Codec.Value.{
  Value, Values, array, integer, bytes, float, text, bool, null, tag, map_value, nil, cons, collect,
  length_values, check_nesting_depth, as_unsigned,
}
use nxfr.Codec.Map.{item_map, CborMap, get, to_cbor_map}
use nxfr.Codec.Messages.{
  ManifestEntryType, file, dir, ManifestEntry, ResumeFileStatus, Greeting, Offer, Metadata,
  ControlMessage, hello, hello_ack, pair_request, pair_accept, pair_reject, session_close, error,
  transfer_request, transfer_accept, transfer_reject, file_metadata, file_metadata_ack, chunk_ack,
  transfer_pause, transfer_resume, transfer_cancel, transfer_complete, transfer_ack, resume_query,
  resume_status,
}
use nxfr.Codec.Getters.{
  get_required, get_uint, get_text, get_text_opt, get_bool, get_bytes, get_str_array,
  parse_version_array,
}
use nxfr.Codec.Decode.{
  decode_value, decode_map, decode_as, decode_greeting, decode_hello, decode_hello_ack,
  decode_pair_request, decode_error, decode_transfer_request, decode_file_metadata,
  decode_file_metadata_ack, decode_chunk_ack, decode_transfer_ack, decode_resume_query,
  decode_resume_status, transfer_type_of, entry_type_of, decode_size_hash, decode_manifest,
  decode_manifest_fields, decode_manifest_entry, manifest_array, ack_status_of, decode_reason,
  decode_transfer_id, decode_id_reason, range_part, range_item, ranges_of, decode_resume_fields,
  decode_resume_file, decode_resume_files,
}
use nxfr.Codec.Ensures.{
  Ensures, Anything, anything, returns, fails, ◌then◌, branches, as_unsigned_fits_64,
  parse_version_array_fits, get_uint_fits, get_u32_fits, get_uint_opt_fits, get_uint_array_opt_fits,
  get_bytes_width, get_bytes_opt_width, IsVersion,
}
use nxfr.Codec.WellFormed.{
  IsWellFormed, IsGreeting, IsOffer, IsMetadata, IsManifestEntry, IsResumeFile, IsRange, IsHash,
  IsSized, Optionally,
}
use nxfr.Codec.Decoded.Items.{decode_manifest-IsManifest, decode_resume_files-IsFiles, IsFiles}
use nxfr.Codec.Decoded.Messages.{
  hello_fits, hello_ack_fits, pair_request_fits, error_fits, metadata_fits, metadata_ack_fits,
  chunk_ack_fits, transfer_ack_fits, resume_query_fits,
}

transfer_request_fits : (m : CborMap) → Ensures IsWellFormed (decode_transfer_request m)
unfolding decode_transfer_request
transfer_request_fits m = get_bytes_width m "transfer_id" 16 then λ id w.
    anything (get_text m "transfer_type") then λ name _.
    anything (transfer_type_of name) then λ type _.
    anything (get_text m "display_name") then λ display _.
    get_u32_fits m "total_files" then λ files hf. get_uint_fits m "total_size" then λ size hs.
    anything (get_required m "manifest") then λ v _. decode_manifest-IsManifest v then λ es h.
    returns IsWellFormed (transfer_request _) (record {
      id_width = w;
      total_files_fits = hf;
      total_size_fits = hs;
      manifest_fits = h.0;
      manifest_entries = h.1;
    })

resume_status_is :
    (id : List ℕ) (resumable : Bool) (fs : Option (List ResumeFileStatus)) (expiry : Option ℕ)
    → length id ≡ 16
    → IsFiles resumable fs
    → Optionally IsU64 expiry
    → IsWellFormed (resume_status id resumable fs expiry)
resume_status_is id true fs expiry w h t = (w, (h, t))
resume_status_is id false fs expiry w h t = (w, (h, t))

resume_status_fits : (m : CborMap) → Ensures IsWellFormed (decode_resume_status m)
unfolding decode_resume_status
resume_status_fits m = get_bytes_width m "transfer_id" 16 then λ id w.
    anything (get_bool m "resumable") then λ resumable _. get_uint_opt_fits m "expiry" then λ t ht.
    decode_resume_files-IsFiles resumable (get m "files") then λ fs h.
    returns IsWellFormed (resume_status id resumable fs t)
      (resume_status_is id resumable fs t w h ht)

module _ (m : CborMap) where
  reason_fits :
      (make : Option String → ControlMessage)
      → ((r : Option String) → IsWellFormed (make r))
      → Ensures IsWellFormed (decode_reason make m)
  reason_fits make h =
      anything (get_text_opt m "reason") then λ r _. returns IsWellFormed (make r) (h r)

  id_fits :
      (make : List ℕ → ControlMessage)
      → ((id : List ℕ) → length id ≡ 16 → IsWellFormed (make id))
      → Ensures IsWellFormed (decode_transfer_id make m)
  id_fits make h =
      get_bytes_width m "transfer_id" 16 then λ id w. returns IsWellFormed (make id) (h id w)

  id_reason_fits :
      (make : List ℕ → Option String → ControlMessage)
      → ((id : List ℕ) (r : Option String) → length id ≡ 16 → IsWellFormed (make id r))
      → Ensures IsWellFormed (decode_id_reason make m)
  id_reason_fits make h = get_bytes_width m "transfer_id" 16 then λ id w.
      anything (get_text_opt m "reason") then λ r _. returns IsWellFormed (make id r) (h id r w)

  arm :
      (b : Bool) {x y : Result CodecError ControlMessage}
      → Ensures IsWellFormed x
      → Ensures IsWellFormed y
      → Ensures IsWellFormed (if b then x else y)
  arm b h k = branches IsWellFormed b h k

  decode_as_fits : (code : ℕ) → Ensures IsWellFormed (decode_as code m)
  unfolding decode_as
  decode_as_fits code = arm (code == 0x01) (hello_fits m) (
      arm (code == 0x02) (hello_ack_fits m) (
        arm (code == 0x03) (pair_request_fits m) (
          arm (code == 0x04) (returns IsWellFormed pair_accept tt) (
            arm (code == 0x05) (reason_fits pair_reject λ r. tt) (
              arm (code == 0x06) (reason_fits session_close λ r. tt) (
                arm (code == 0x09) (error_fits m) (
                  arm (code == 0x10) (transfer_request_fits m) (
                    arm (code == 0x11) (id_fits transfer_accept λ id w. w) (
                      arm (code == 0x12) (id_reason_fits transfer_reject λ id r w. w) (
                        arm (code == 0x13) (metadata_fits m) (
                          arm (code == 0x14) (metadata_ack_fits m) (
                            arm (code == 0x15) (chunk_ack_fits m) (
                              arm (code == 0x16) (id_fits transfer_pause λ id w. w) (
                                arm (code == 0x17) (id_fits transfer_resume λ id w. w) (
                                  arm (code == 0x18) (id_reason_fits transfer_cancel λ id r w. w) (
                                    arm (code == 0x19) (id_fits transfer_complete λ id w. w) (
                                      arm (code == 0x1a) (transfer_ack_fits m) (
                                        arm (code == 0x20) (resume_query_fits m) (
                                          arm (code == 0x21) (resume_status_fits m) (
                                            fails IsWellFormed
                                              (unknown_message_type code)))))))))))))))))))))

-- Whatever value the decoder is given, a message that it returns is well-formed.
pub decoded-IsWellFormed :
    (v : Value) (msg : ControlMessage) → decode_value v ≡ ok msg → IsWellFormed msg
unfolding decode_value decode_map
decoded-IsWellFormed v msg e = fits.holds msg e
  where
    fits : Ensures IsWellFormed (decode_value v)
    fits = anything (check_nesting_depth v 0) then λ _ _. anything (to_cbor_map v) then λ m _.
        anything (get_uint m "type") then λ code _. decode_as_fits m code
