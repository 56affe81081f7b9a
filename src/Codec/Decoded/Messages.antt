-- ===== src/Codec/Decoded/Messages.antt =====
-- crates/nxfr-core/src/codec.rs: what the decoder makes of each kind of message.
use nxfr.Prelude.{refl, none, if◌then◌else◌}
use nxfr.Common.Platform.{from_str_lossy-IsCanonical}
use nxfr.ErrorCode.{from_wire_str, from_wire_str-IsCanonical}
use nxfr.Codec.Map.{CborMap}
use nxfr.Codec.Messages.{
  hello, hello_ack, pair_request, error, file_metadata, file_metadata_ack, chunk_ack, transfer_ack,
  resume_query,
}
use nxfr.Codec.Getters.{get_text, get_text_opt, get_bool, get_str_array}
use nxfr.Codec.Decode.{
  decode_greeting, decode_hello, decode_hello_ack, decode_pair_request, decode_error,
  decode_file_metadata, decode_file_metadata_ack, decode_chunk_ack, decode_transfer_ack,
  decode_resume_query, ack_status_of,
}
use nxfr.Codec.Ensures.{
  Ensures, anything, returns, ◌then◌, parse_version_array_fits, get_uint_fits, get_u32_fits,
  get_uint_opt_fits, get_uint_array_opt_fits, get_bytes_width,
}
use nxfr.Codec.WellFormed.{IsWellFormed, IsGreeting}

module _ (m : CborMap) where
  pub decode_greeting-IsGreeting : Ensures IsGreeting (decode_greeting m)
  unfolding decode_greeting
  decode_greeting-IsGreeting = parse_version_array_fits m then λ version fits.
      get_bytes_width m "device_id" 32 then λ id width.
      anything (get_text m "device_name") then λ name _.
      anything (get_text m "platform") then λ platform _.
      anything (get_str_array m "capabilities") then λ caps _.
      anything (get_bool m "is_paired") then λ paired _. returns IsGreeting _ (record {
        major_fits = fits.0;
        minor_fits = fits.1;
        id_width = width;
        platform_known = from_str_lossy-IsCanonical platform;
      })

  pub hello_fits : Ensures IsWellFormed (decode_hello m)
  unfolding decode_hello
  hello_fits = decode_greeting-IsGreeting then λ g v. returns IsWellFormed (hello g) v

  pub hello_ack_fits : Ensures IsWellFormed (decode_hello_ack m)
  unfolding decode_hello_ack
  hello_ack_fits = decode_greeting-IsGreeting then λ g v.
      get_u32_fits m "session_id" then λ n h. returns IsWellFormed (hello_ack g n) (v, h)

  pub pair_request_fits : Ensures IsWellFormed (decode_pair_request m)
  unfolding decode_pair_request
  pair_request_fits =
      anything (get_text m "sas_method") then λ s _. returns IsWellFormed (pair_request s) tt

  pub error_fits : Ensures IsWellFormed (decode_error m)
  unfolding decode_error
  error_fits = anything (get_text m "code") then λ code _.
      anything (get_text_opt m "message") then λ message _.
      anything (get_bool m "fatal") then λ fatal _.
      returns IsWellFormed (error (from_wire_str code) message fatal none)
        (from_wire_str-IsCanonical code, refl)

  pub metadata_fits : Ensures IsWellFormed (decode_file_metadata m)
  unfolding decode_file_metadata
  metadata_fits = get_bytes_width m "transfer_id" 16 then λ id w.
      get_u32_fits m "file_id" then λ f hf. get_u32_fits m "stream_id" then λ s hs.
      anything (get_text m "relative_path") then λ path _. get_uint_fits m "size" then λ size hsize.
      get_bytes_width m "sha256" 32 then λ hash hh.
      anything (get_text_opt m "mime_type") then λ mime _.
      get_uint_opt_fits m "modified_time" then λ t ht.
      returns IsWellFormed (file_metadata _) (record {
        id_width = w;
        file_id_fits = hf;
        stream_id_fits = hs;
        size_fits = hsize;
        hash_width = hh;
        modified_fits = ht;
      })

  pub metadata_ack_fits : Ensures IsWellFormed (decode_file_metadata_ack m)
  unfolding decode_file_metadata_ack
  metadata_ack_fits = get_bytes_width m "transfer_id" 16 then λ id w.
      get_u32_fits m "file_id" then λ f hf. get_u32_fits m "stream_id" then λ s hs.
      anything (get_bool m "accepted") then λ a _.
      returns IsWellFormed (file_metadata_ack id f s a) (w, (hf, hs))

  pub chunk_ack_fits : Ensures IsWellFormed (decode_chunk_ack m)
  unfolding decode_chunk_ack
  chunk_ack_fits = get_u32_fits m "stream_id" then λ s hs. get_uint_fits m "message_id" then λ i hi.
      get_uint_fits m "offset" then λ o ho. get_uint_fits m "length" then λ l hl.
      returns IsWellFormed (chunk_ack s i o l) (hs, (hi, (ho, hl)))

  pub transfer_ack_fits : Ensures IsWellFormed (decode_transfer_ack m)
  unfolding decode_transfer_ack
  transfer_ack_fits = get_bytes_width m "transfer_id" 16 then λ id w.
      anything (get_text m "status") then λ name _. anything (ack_status_of name) then λ status _.
      get_uint_array_opt_fits m "failed_files" then λ ids h.
      returns IsWellFormed (transfer_ack id status ids) (w, h)

  pub resume_query_fits : Ensures IsWellFormed (decode_resume_query m)
  unfolding decode_resume_query
  resume_query_fits = get_bytes_width m "transfer_id" 16 then λ id w.
      get_uint_array_opt_fits m "file_ids" then λ ids h.
      returns IsWellFormed (resume_query id ids) (w, h)
