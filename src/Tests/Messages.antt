-- ===== src/Tests/Messages.antt =====
-- The control messages on fixed inputs: a manifest with a directory, a resume status, an unknown key.
use nxfr.Prelude.{ℕ, List, [], ◌∷◌, ◌≡◌, refl, ok, none, some, arith, false, replicate}
use nxfr.Codec.Value.{
  Value, map_value, entry, end, text, integer, pos, check_nesting_depth, check_entries, array, nil,
  bytes, null, bool,
}
use nxfr.Codec.Map.{CborMap, insert, get, to_cbor_map, collect_entries, ◌▹◌}
use nxfr.Codec.Getters.{get_uint, get_required, uint_to_value, get_bytes, get_bool, get_uint_opt}
use nxfr.Codec.Messages.{
  ManifestEntry, file, dir, directory, Offer, ControlMessage, transfer_request, pair_reject,
  resume_status,
}
use nxfr.Codec.Encode.{encode_to_map}
use nxfr.Codec.Decode.{decode_value, decode_map, decode_as, decode_resume_status}
use nxfr.Codec.WellFormed.{IsOffer, IsWellFormed}
use nxfr.Codec.Reread.{reread}
use nxfr.Codec.RoundTrip.{encoded_reads_back}
use nxfr.Codec.Decoded.{decoded-IsWellFormed}

abbrev id_bytes : List ℕ
id_bytes = replicate 16 7

abbrev photo : ManifestEntry
photo = record {
  file_id = 1;
  relative_path = "album/photo.jpg";
  size = some 1024;
  sha256 = some (replicate 32 5);
  entry_type = file;
}

abbrev album : ManifestEntry
album = record {
  file_id = 0;
  relative_path = "album";
  size = none;
  sha256 = none;
  entry_type = dir;
}

abbrev offer : Offer
offer = record {
  transfer_id = id_bytes;
  transfer_type = directory;
  display_name = "album";
  total_files = 2;
  total_size = 1024;
  manifest = album ∷ photo ∷ [];
}

offer-IsOffer : IsOffer offer
offer-IsOffer = record {
  id_width = refl;
  total_files_fits = omega arith;
  total_size_fits = omega arith;
  manifest_fits = omega arith;
  manifest_entries = (
    record { file_id_fits = omega arith; sized = (tt, tt) },
    (record { file_id_fits = omega arith; sized = (omega arith, refl) }, tt),
  );
}

encoded_reads_back_example : reread (transfer_request offer) ≡ ok (transfer_request offer)
encoded_reads_back_example = encoded_reads_back (transfer_request offer) offer-IsOffer

-- A resume status as it comes off the wire, its files out of place and a key that is not known.
abbrev status_value : Value
status_value = map_value (
    entry (text "type") (integer (pos 0x21)) (
      entry (text "resumable") (bool false) (
        entry (text "transfer_id") (bytes id_bytes)
          (entry (text "colour") null (entry (text "files") (array nil) end)))))

abbrev status : ControlMessage
status = resume_status id_bytes false none none

status_decodes : decode_value status_value ≡ ok status
unfolding decode_value decode_map decode_as decode_resume_status to_cbor_map collect_entries
    check_nesting_depth check_entries insert get get_required get_uint get_bytes get_bool
    get_uint_opt
status_decodes = refl

decoded-IsWellFormed_example : IsWellFormed status
decoded-IsWellFormed_example = decoded-IsWellFormed status_value status status_decodes

abbrev overfull : ControlMessage
overfull = transfer_request (record offer { manifest = replicate 501 album })

abbrev reject_map : CborMap
reject_map = [] ▹ ("reason", text "no") ▹ ("type", uint_to_value 5)

reject_encodes : encode_to_map (pair_reject (some "no")) ≡ ok reject_map
unfolding encode_to_map
reject_encodes = refl
