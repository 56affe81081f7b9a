-- ===== src/Codec/Decode.antt =====
-- crates/nxfr-core/src/codec.rs: `decode_control` and the decoders of the messages.
-- `ciborium::de::from_reader` is the argument `from_reader`.
mod Manifest
mod Resume
unfoldable pub use Manifest.*
unfoldable pub use Resume.*
use nxfr.Prelude.{
  ℕ, String, List, [], Option, none, some, Bool, true, false, ltb, str_eq, ◌==◌, if◌then◌else◌,
  Result, ok, err, ◌>>=◌, ◌>>◌, reject_if,
}
use nxfr.Common.Errors.{CodecError, manifest_too_large, wrong_type, unknown_message_type}
use nxfr.Common.Limits.{max_manifest_entries}
use nxfr.Common.Platform.{from_str_lossy}
use nxfr.ErrorCode.{from_wire_str}
use nxfr.Codec.Value.{
  Value, Values, array, integer, map_value, cons, nil, collect, length_values, as_unsigned,
  check_nesting_depth,
}
use nxfr.Codec.Map.{CborMap, get, collect_entries, to_cbor_map}
use nxfr.Codec.Getters.{
  get_required, get_uint, get_uint_opt, get_text, get_text_opt, get_bool, get_bytes, get_bytes_opt,
  get_str_array, get_uint_array_opt, parse_version_array, get_u32,
}
use nxfr.Codec.Messages.{
  ManifestEntryType, file, dir, ManifestEntry, TransferType, files, directory, ResumeFileStatus,
  TransferAckStatus, success, partial_failure, Greeting, ControlMessage, hello, hello_ack,
  pair_request, pair_accept, pair_reject, session_close, error, transfer_request, transfer_accept,
  transfer_reject, file_metadata, file_metadata_ack, chunk_ack, transfer_pause, transfer_resume,
  transfer_cancel, transfer_complete, transfer_ack, resume_query, resume_status,
}

-- What `decode_hello` and `decode_hello_ack` read alike.
unfoldable pub decode_greeting : CborMap → Result CodecError Greeting
decode_greeting m = do
  protocol_version ← parse_version_array m
  device_id ← get_bytes m "device_id" 32
  device_name ← get_text m "device_name"
  platform ← get_text m "platform"
  capabilities ← get_str_array m "capabilities"
  is_paired ← get_bool m "is_paired"
  ok (record {
    protocol_version = protocol_version;
    device_id = device_id;
    device_name = device_name;
    platform = from_str_lossy platform;
    capabilities = capabilities;
    is_paired = is_paired;
  })

unfoldable pub decode_hello : CborMap → Result CodecError ControlMessage
decode_hello m = do g ← decode_greeting m; ok (hello g)

unfoldable pub decode_hello_ack : CborMap → Result CodecError ControlMessage
decode_hello_ack m = do
  g ← decode_greeting m
  session_id ← get_u32 m "session_id"
  ok (hello_ack g session_id)

unfoldable pub decode_pair_request : CborMap → Result CodecError ControlMessage
decode_pair_request m = do sas_method ← get_text m "sas_method"; ok (pair_request sas_method)

unfoldable pub decode_error : CborMap → Result CodecError ControlMessage
decode_error m = do
  code ← get_text m "code"
  message ← get_text_opt m "message"
  fatal ← get_bool m "fatal"
  ok (error (from_wire_str code) message fatal none)

abbrev pub transfer_type_of : String → Result CodecError TransferType
transfer_type_of s =
    if str_eq s "files"
    then ok files
    else if str_eq s "directory"
    then ok directory
    else err (wrong_type "transfer_type" "\"files\" or \"directory\"")

unfoldable pub decode_transfer_request : CborMap → Result CodecError ControlMessage
decode_transfer_request m = do
  transfer_id ← get_bytes m "transfer_id" 16
  type_name ← get_text m "transfer_type"
  transfer_type ← transfer_type_of type_name
  display_name ← get_text m "display_name"
  total_files ← get_u32 m "total_files"
  total_size ← get_uint m "total_size"
  manifest_val ← get_required m "manifest"
  manifest ← decode_manifest manifest_val
  ok (
      transfer_request (record {
        transfer_id = transfer_id;
        transfer_type = transfer_type;
        display_name = display_name;
        total_files = total_files;
        total_size = total_size;
        manifest = manifest;
      }))

unfoldable pub decode_file_metadata : CborMap → Result CodecError ControlMessage
decode_file_metadata m = do
  transfer_id ← get_bytes m "transfer_id" 16
  file_id ← get_u32 m "file_id"
  stream_id ← get_u32 m "stream_id"
  relative_path ← get_text m "relative_path"
  size ← get_uint m "size"
  sha256 ← get_bytes m "sha256" 32
  mime_type ← get_text_opt m "mime_type"
  modified_time ← get_uint_opt m "modified_time"
  ok (
      file_metadata (record {
        transfer_id = transfer_id;
        file_id = file_id;
        stream_id = stream_id;
        relative_path = relative_path;
        size = size;
        sha256 = sha256;
        mime_type = mime_type;
        modified_time = modified_time;
      }))

unfoldable pub decode_file_metadata_ack : CborMap → Result CodecError ControlMessage
decode_file_metadata_ack m = do
  transfer_id ← get_bytes m "transfer_id" 16
  file_id ← get_u32 m "file_id"
  stream_id ← get_u32 m "stream_id"
  accepted ← get_bool m "accepted"
  ok (file_metadata_ack transfer_id file_id stream_id accepted)

unfoldable pub decode_chunk_ack : CborMap → Result CodecError ControlMessage
decode_chunk_ack m = do
  stream_id ← get_u32 m "stream_id"
  message_id ← get_uint m "message_id"
  offset ← get_uint m "offset"
  len ← get_uint m "length"
  ok (chunk_ack stream_id message_id offset len)

abbrev pub ack_status_of : String → Result CodecError TransferAckStatus
ack_status_of s =
    if str_eq s "success"
    then ok success
    else if str_eq s "partial_failure"
    then ok partial_failure
    else err (wrong_type "status" "\"success\" or \"partial_failure\"")

unfoldable pub decode_transfer_ack : CborMap → Result CodecError ControlMessage
decode_transfer_ack m = do
  transfer_id ← get_bytes m "transfer_id" 16
  status_name ← get_text m "status"
  status ← ack_status_of status_name
  failed_files ← get_uint_array_opt m "failed_files"
  ok (transfer_ack transfer_id status failed_files)

unfoldable pub decode_resume_query : CborMap → Result CodecError ControlMessage
decode_resume_query m = do
  transfer_id ← get_bytes m "transfer_id" 16
  file_ids ← get_uint_array_opt m "file_ids"
  ok (resume_query transfer_id file_ids)

unfoldable pub decode_resume_status : CborMap → Result CodecError ControlMessage
decode_resume_status m = do
  transfer_id ← get_bytes m "transfer_id" 16
  resumable ← get_bool m "resumable"
  expiry ← get_uint_opt m "expiry"
  fs ← decode_resume_files resumable (get m "files")
  ok (resume_status transfer_id resumable fs expiry)

-- The arms that the source writes out in `decode_control`.
abbrev pub decode_reason :
    (Option String → ControlMessage) → CborMap → Result CodecError ControlMessage
decode_reason make m = do reason ← get_text_opt m "reason"; ok (make reason)

abbrev pub decode_transfer_id :
    (List ℕ → ControlMessage) → CborMap → Result CodecError ControlMessage
decode_transfer_id make m = do transfer_id ← get_bytes m "transfer_id" 16; ok (make transfer_id)

abbrev pub decode_id_reason :
    (List ℕ → Option String → ControlMessage) → CborMap → Result CodecError ControlMessage
decode_id_reason make m = do
  transfer_id ← get_bytes m "transfer_id" 16
  reason ← get_text_opt m "reason"
  ok (make transfer_id reason)

-- The `match` on `type`.
unfoldable pub decode_as : ℕ → CborMap → Result CodecError ControlMessage
decode_as code m =
    if code == 0x01
    then decode_hello m
    else if code == 0x02
    then decode_hello_ack m
    else if code == 0x03
    then decode_pair_request m
    else if code == 0x04
    then ok pair_accept
    else if code == 0x05
    then decode_reason pair_reject m
    else if code == 0x06
    then decode_reason session_close m
    else if code == 0x09
    then decode_error m
    else if code == 0x10
    then decode_transfer_request m
    else if code == 0x11
    then decode_transfer_id transfer_accept m
    else if code == 0x12
    then decode_id_reason transfer_reject m
    else if code == 0x13
    then decode_file_metadata m
    else if code == 0x14
    then decode_file_metadata_ack m
    else if code == 0x15
    then decode_chunk_ack m
    else if code == 0x16
    then decode_transfer_id transfer_pause m
    else if code == 0x17
    then decode_transfer_id transfer_resume m
    else if code == 0x18
    then decode_id_reason transfer_cancel m
    else if code == 0x19
    then decode_transfer_id transfer_complete m
    else if code == 0x1a
    then decode_transfer_ack m
    else if code == 0x20
    then decode_resume_query m
    else if code == 0x21
    then decode_resume_status m
    else err (unknown_message_type code)

unfoldable pub decode_map : CborMap → Result CodecError ControlMessage
decode_map m = do code ← get_uint m "type"; decode_as code m

-- `decode_control` from the value on.
unfoldable pub decode_value : Value → Result CodecError ControlMessage
decode_value v = check_nesting_depth v 0 >> (to_cbor_map v >>= decode_map)

unfoldable pub decode_control :
    (from_reader : List ℕ → Result CodecError Value) → List ℕ → Result CodecError ControlMessage
decode_control from_reader payload = from_reader payload >>= decode_value
