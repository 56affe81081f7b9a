-- ===== src/Codec/Encode.antt =====
-- crates/nxfr-core/src/codec.rs: `encode_to_map` and `encode_control`. `ciborium::ser::into_writer`
-- is the argument `into_writer`.
use nxfr.Prelude.{
  ℕ, String, List, [], Bool, true, false, ltb, length, any, if◌then◌else◌, Result, ok, ◌>>=◌, ◌>>◌,
  reject_if,
}
use mathlib.Core.Option
use mathlib.Core.Option.{Option, none, some}
use nxfr.Common.Errors.{CodecError, manifest_too_large, encoded_too_large}
use nxfr.Common.Limits.{max_manifest_entries, control_payload_max}
use nxfr.Common.Platform.{as_str}
use nxfr.ErrorCode.{as_str as code_as_str, ErrorCode}
use nxfr.Codec.Value.{Value, array, bytes, text, bool, cons, nil, array_of}
use nxfr.Codec.Map.{CborMap, ◌▹◌, ◌▹?◌, map_to_value}
use nxfr.Codec.Getters.{uint_to_value, make_version_array}
use nxfr.Codec.Messages.{
  ManifestEntryType, file, dir, ManifestEntry, TransferType, files, directory, ResumeFileStatus,
  TransferAckStatus, success, partial_failure, Greeting, Offer, Metadata, ControlMessage, hello,
  hello_ack, pair_request, pair_accept, pair_reject, session_close, error, transfer_request,
  transfer_accept, transfer_reject, file_metadata, file_metadata_ack, chunk_ack, transfer_pause,
  transfer_resume, transfer_cancel, transfer_complete, transfer_ack, resume_query, resume_status,
}

-- The arms of HELLO and HELLO_ACK up to `type`.
abbrev pub greeting_map : Greeting → CborMap
greeting_map g =
    []
    ▹ ("capabilities", array (array_of text g.capabilities))
    ▹ ("device_id", bytes g.device_id)
    ▹ ("device_name", text g.device_name)
    ▹ ("is_paired", bool g.is_paired)
    ▹ ("platform", text (as_str g.platform))
    ▹ ("protocol_version", make_version_array g.protocol_version)

abbrev pub reason_map : Option String → CborMap
reason_map reason = [] ▹? ("reason", Option.map text reason)

abbrev pub error_map : ErrorCode → Option String → Bool → CborMap
error_map code message fatal =
    []
    ▹ ("code", text (code_as_str code))
    ▹ ("fatal", bool fatal)
    ▹? ("message", Option.map text message)
    ▹ ("type", uint_to_value 0x09)

abbrev pub is_dir : ManifestEntry → Bool
is_dir e = elim (e.entry_type) [ file ↦ false | dir ↦ true ]

-- A file names its type only in a manifest that has a directory.
abbrev pub entry_type_name : Bool → ManifestEntryType → Option Value
entry_type_name mixed file = if mixed then some (text "file") else none
entry_type_name mixed dir = some (text "dir")

abbrev pub manifest_entry_map : Bool → ManifestEntry → CborMap
manifest_entry_map mixed e =
    []
    ▹ ("file_id", uint_to_value e.file_id)
    ▹ ("relative_path", text e.relative_path)
    ▹? ("sha256", Option.map bytes e.sha256)
    ▹? ("size", Option.map uint_to_value e.size)
    ▹? ("type", entry_type_name mixed e.entry_type)

abbrev pub transfer_type_name : TransferType → String
transfer_type_name files = "files"
transfer_type_name directory = "directory"

abbrev pub offer_map : Offer → CborMap
offer_map o =
    []
    ▹ ("display_name", text o.display_name)
    ▹ (
      "manifest",
      array
          (array_of (λ e. map_to_value (manifest_entry_map (any is_dir o.manifest) e)) o.manifest),
    )
    ▹ ("total_files", uint_to_value o.total_files)
    ▹ ("total_size", uint_to_value o.total_size)
    ▹ ("transfer_id", bytes o.transfer_id)
    ▹ ("transfer_type", text (transfer_type_name o.transfer_type))
    ▹ ("type", uint_to_value 0x10)

abbrev pub metadata_map : Metadata → CborMap
metadata_map f =
    []
    ▹ ("file_id", uint_to_value f.file_id)
    ▹? ("mime_type", Option.map text f.mime_type)
    ▹? ("modified_time", Option.map uint_to_value f.modified_time)
    ▹ ("relative_path", text f.relative_path)
    ▹ ("sha256", bytes f.sha256)
    ▹ ("size", uint_to_value f.size)
    ▹ ("stream_id", uint_to_value f.stream_id)
    ▹ ("transfer_id", bytes f.transfer_id)
    ▹ ("type", uint_to_value 0x13)

-- `[u32]` as an array.
abbrev pub ids_value : List ℕ → Value
ids_value ids = array (array_of uint_to_value ids)

abbrev pub range_value : ℕ × ℕ → Value
range_value (o, l) = array (cons (uint_to_value o) (cons (uint_to_value l) nil))

abbrev pub resume_file_map : ResumeFileStatus → CborMap
resume_file_map f =
    []
    ▹ ("file_id", uint_to_value f.file_id)
    ▹? ("partial_sha256", Option.map bytes f.partial_sha256)
    ▹ ("received_bytes", uint_to_value f.received_bytes)
    ▹ ("received_ranges", array (array_of range_value f.received_ranges))

abbrev pub resume_files_value : List ResumeFileStatus → Value
resume_files_value fs = array (array_of (λ f. map_to_value (resume_file_map f)) fs)

abbrev pub ack_status_name : TransferAckStatus → String
ack_status_name success = "success"
ack_status_name partial_failure = "partial_failure"

unfoldable pub encode_to_map : ControlMessage → Result CodecError CborMap
encode_to_map (hello g) = ok (greeting_map g ▹ ("type", uint_to_value 0x01))
encode_to_map (hello_ack g session_id) =
    ok (greeting_map g ▹ ("session_id", uint_to_value session_id) ▹ ("type", uint_to_value 0x02))
encode_to_map (pair_request sas_method) =
    ok ([] ▹ ("sas_method", text sas_method) ▹ ("type", uint_to_value 0x03))
encode_to_map pair_accept = ok ([] ▹ ("type", uint_to_value 0x04))
encode_to_map (pair_reject reason) = ok (reason_map reason ▹ ("type", uint_to_value 0x05))
encode_to_map (session_close reason) = ok (reason_map reason ▹ ("type", uint_to_value 0x06))
encode_to_map (error code message fatal details) = ok (error_map code message fatal)
encode_to_map (transfer_request o) =
    reject_if (ltb max_manifest_entries (length o.manifest))
      (manifest_too_large (length o.manifest))
    >> ok (offer_map o)
encode_to_map (transfer_accept id) =
    ok ([] ▹ ("transfer_id", bytes id) ▹ ("type", uint_to_value 0x11))
encode_to_map (transfer_reject id reason) =
    ok (reason_map reason ▹ ("transfer_id", bytes id) ▹ ("type", uint_to_value 0x12))
encode_to_map (file_metadata f) = ok (metadata_map f)
encode_to_map (file_metadata_ack id file_id stream_id accepted) = ok (
    []
    ▹ ("accepted", bool accepted)
    ▹ ("file_id", uint_to_value file_id)
    ▹ ("stream_id", uint_to_value stream_id)
    ▹ ("transfer_id", bytes id)
    ▹ ("type", uint_to_value 0x14))
encode_to_map (chunk_ack stream_id message_id offset len) = ok (
    []
    ▹ ("length", uint_to_value len)
    ▹ ("message_id", uint_to_value message_id)
    ▹ ("offset", uint_to_value offset)
    ▹ ("stream_id", uint_to_value stream_id)
    ▹ ("type", uint_to_value 0x15))
encode_to_map (transfer_pause id) =
    ok ([] ▹ ("transfer_id", bytes id) ▹ ("type", uint_to_value 0x16))
encode_to_map (transfer_resume id) =
    ok ([] ▹ ("transfer_id", bytes id) ▹ ("type", uint_to_value 0x17))
encode_to_map (transfer_cancel id reason) =
    ok (reason_map reason ▹ ("transfer_id", bytes id) ▹ ("type", uint_to_value 0x18))
encode_to_map (transfer_complete id) =
    ok ([] ▹ ("transfer_id", bytes id) ▹ ("type", uint_to_value 0x19))
encode_to_map (transfer_ack id status failed_files) = ok (
    []
    ▹? ("failed_files", Option.map ids_value failed_files)
    ▹ ("status", text (ack_status_name status))
    ▹ ("transfer_id", bytes id)
    ▹ ("type", uint_to_value 0x1a))
encode_to_map (resume_query id file_ids) = ok (
    []
    ▹? ("file_ids", Option.map ids_value file_ids)
    ▹ ("transfer_id", bytes id)
    ▹ ("type", uint_to_value 0x20))
encode_to_map (resume_status id resumable fs expiry) = ok (
    []
    ▹? ("expiry", Option.map uint_to_value expiry)
    ▹? ("files", Option.map resume_files_value fs)
    ▹ ("resumable", bool resumable)
    ▹ ("transfer_id", bytes id)
    ▹ ("type", uint_to_value 0x21))

unfoldable pub encode_control :
    (into_writer : Value → Result CodecError (List ℕ)) → ControlMessage → Result CodecError (List ℕ)
encode_control into_writer msg = do
  m ← encode_to_map msg
  buf ← into_writer (map_to_value m)
  reject_if (ltb control_payload_max (length buf)) encoded_too_large
  ok buf
