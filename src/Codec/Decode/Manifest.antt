-- ===== src/Codec/Decode/Manifest.antt =====
-- crates/nxfr-core/src/codec.rs: the manifest in `decode_transfer_request`.
use nxfr.Prelude.{
  ℕ, String, List, Option, none, some, ltb, str_eq, if◌then◌else◌, Result, ok, err, ◌>>=◌, ◌>>◌,
  reject_if,
}
use nxfr.Common.Errors.{CodecError, manifest_too_large, wrong_type}
use nxfr.Common.Limits.{max_manifest_entries}
use nxfr.Codec.Value.{Value, Values, array, collect, length_values}
use nxfr.Codec.Map.{CborMap, item_map}
use nxfr.Codec.Getters.{
  get_uint, get_uint_opt, get_text, get_text_opt, get_bytes, get_bytes_opt, get_u32,
}
use nxfr.Codec.Messages.{ManifestEntryType, file, dir, ManifestEntry}

abbrev pub entry_type_of : Option String → Result CodecError ManifestEntryType
entry_type_of none = ok file
entry_type_of (some s) =
    if str_eq s "dir"
    then ok dir
    else if str_eq s "file"
    then ok file
    else err (wrong_type "manifest[].type" "\"file\" or \"dir\"")

-- A file has a size and a hash; a directory may have them.
abbrev pub decode_size_hash :
    CborMap → ManifestEntryType → Result CodecError (Option ℕ × Option (List ℕ))
decode_size_hash m file = do
  size ← get_uint m "size"
  sha256 ← get_bytes m "sha256" 32
  ok (some size, some sha256)
decode_size_hash m dir = do
  size ← get_uint_opt m "size"
  sha256 ← get_bytes_opt m "sha256" 32
  ok (size, sha256)

abbrev pub decode_manifest_fields : CborMap → Result CodecError ManifestEntry
decode_manifest_fields m = do
  file_id ← get_u32 m "file_id"
  relative_path ← get_text m "relative_path"
  type_name ← get_text_opt m "type"
  entry_type ← entry_type_of type_name
  size_hash ← decode_size_hash m entry_type
  ok (record {
    file_id = file_id;
    relative_path = relative_path;
    size = size_hash.0;
    sha256 = size_hash.1;
    entry_type = entry_type;
  })

unfoldable pub decode_manifest_entry : Value → Result CodecError ManifestEntry
decode_manifest_entry v = item_map "manifest[]" v >>= decode_manifest_fields

abbrev pub manifest_array : Value → Result CodecError Values
manifest_array (array vs) = ok vs
manifest_array _ = err (wrong_type "manifest" "array")

unfoldable pub decode_manifest : Value → Result CodecError (List ManifestEntry)
decode_manifest v = do
  vs ← manifest_array v
  reject_if (ltb max_manifest_entries (length_values vs)) (manifest_too_large (length_values vs))
  collect decode_manifest_entry vs
