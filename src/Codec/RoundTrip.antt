-- ===== src/Codec/RoundTrip.antt =====
-- crates/nxfr-core/src/codec.rs: what the decoder makes of an encoded message.
use nxfr.Prelude.{◌≡◌, refl, ok, none, some, true, false}
use nxfr.Codec.Value.{check_nesting_depth, check_entries, check_values}
use nxfr.Codec.Map.{get, insert, map_to_value, collect_entries, to_cbor_map}
use nxfr.Codec.Messages.{
  ControlMessage, hello, hello_ack, pair_request, pair_accept, pair_reject, session_close, error,
  transfer_request, transfer_accept, transfer_reject, file_metadata, file_metadata_ack, chunk_ack,
  transfer_pause, transfer_resume, transfer_cancel, transfer_complete, transfer_ack, resume_query,
  resume_status, success, partial_failure,
}
use nxfr.Codec.Encode.{encode_to_map}
use nxfr.Codec.Decode.{
  decode_value, decode_map, decode_as, decode_pair_request, decode_error, decode_file_metadata,
  decode_file_metadata_ack, decode_chunk_ack, decode_transfer_ack, decode_resume_query,
}
use nxfr.Codec.Getters.{
  get_required, get_uint, get_uint_opt, get_text, get_text_opt, get_bool, get_bytes, get_str_array,
  get_uint_array_opt,
}
use nxfr.Codec.Arrays.{u64_mod, u32_mod, collect-u32_item}
use nxfr.Codec.WellFormed.{IsWellFormed}
use nxfr.Codec.Reread.{
  reread, hello_reread, hello_ack_reread, reread-metadata, offer_reread, resumable_reread,
  unresumable_reread, ids_shallow,
}

-- Every well-formed control message is encoded to a map that the decoder accepts, the check of its
-- nesting included, and decodes to that same message.
pub encoded_reads_back : (msg : ControlMessage) → IsWellFormed msg → reread msg ≡ ok msg
unfolding reread encode_to_map decode_value decode_map decode_as map_to_value insert get get_uint
    get_required to_cbor_map collect_entries check_nesting_depth check_entries check_values
    get_bytes get_text get_text_opt get_bool get_str_array get_uint_opt get_uint_array_opt
    decode_pair_request decode_error decode_file_metadata decode_file_metadata_ack decode_chunk_ack
    decode_transfer_ack decode_resume_query
encoded_reads_back (pair_request m) h = refl
encoded_reads_back pair_accept h = refl
encoded_reads_back (pair_reject none) h = refl
encoded_reads_back (pair_reject (some r)) h = refl
encoded_reads_back (session_close none) h = refl
encoded_reads_back (session_close (some r)) h = refl
encoded_reads_back (error code none fatal details) (known, bare) = rw (known, bare) refl
encoded_reads_back (error code (some m) fatal details) (known, bare) = rw (known, bare) refl
encoded_reads_back (transfer_accept id) w = rw w refl
encoded_reads_back (transfer_reject id none) w = rw w refl
encoded_reads_back (transfer_reject id (some r)) w = rw w refl
encoded_reads_back (file_metadata_ack id f s a) (w, (hf, hs)) =
    rw (w, u32_mod f hf, u32_mod s hs) refl
encoded_reads_back (chunk_ack s m o l) (hs, (hm, (ho, hl))) =
    rw (u32_mod s hs, u64_mod m hm, u64_mod o ho, u64_mod l hl) refl
encoded_reads_back (transfer_pause id) w = rw w refl
encoded_reads_back (transfer_resume id) w = rw w refl
encoded_reads_back (transfer_cancel id none) w = rw w refl
encoded_reads_back (transfer_cancel id (some r)) w = rw w refl
encoded_reads_back (transfer_complete id) w = rw w refl
encoded_reads_back (transfer_ack id success none) (w, h) = rw w refl
encoded_reads_back (transfer_ack id partial_failure none) (w, h) = rw w refl
encoded_reads_back (transfer_ack id success (some ids)) (w, h) =
    rw (w, ids_shallow ids, collect-u32_item "failed_files" ids h) refl
encoded_reads_back (transfer_ack id partial_failure (some ids)) (w, h) =
    rw (w, ids_shallow ids, collect-u32_item "failed_files" ids h) refl
encoded_reads_back (resume_query id none) (w, h) = rw w refl
encoded_reads_back (resume_query id (some ids)) (w, h) =
    rw (w, ids_shallow ids, collect-u32_item "file_ids" ids h) refl
encoded_reads_back (file_metadata f) v =
    reread-metadata f.transfer_id f.file_id f.stream_id f.relative_path f.size f.sha256 v.id_width
      v.file_id_fits v.stream_id_fits v.size_fits v.hash_width f.mime_type f.modified_time
      v.modified_fits
encoded_reads_back (hello g) v = hello_reread g v
encoded_reads_back (hello_ack g n) (v, fits) = hello_ack_reread g v n fits
encoded_reads_back (transfer_request o) v = offer_reread o v
encoded_reads_back (resume_status id true fs expiry) (w, (hf, he)) =
    resumable_reread id w fs expiry hf he
encoded_reads_back (resume_status id false fs expiry) (w, (bare, he)) =
    rw bare (unresumable_reread id w expiry he)
