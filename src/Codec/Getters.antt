-- ===== src/Codec/Getters.antt =====
-- crates/nxfr-core/src/codec.rs: the typed reads of a field. A missing field and one of another type
-- are errors, which name the field.
use nxfr.Prelude.{
  ℕ, String, List, [], Option, none, some, Bool, ◌==◌, length, ◌%◌, ◌^◌, if◌then◌else◌, Result, ok,
  err, ◌>>=◌, ok_or,
}
use nxfr.Common.Errors.{CodecError, missing_field, wrong_type}
use nxfr.Common.Platform.{ProtocolVersion}
use nxfr.Codec.Value.{
  pos, negsuc, as_unsigned, Value, integer, bytes, text, bool, array, nil, cons, collect,
}
use nxfr.Codec.Map.{CborMap, get}

unfoldable pub get_required : CborMap → String → Result CodecError Value
get_required m key = ok_or (get m key) (missing_field key)

-- The arms of each `match` on a value that is there.
abbrev pub uint_of : String → Value → Result CodecError ℕ
uint_of key (integer (pos n)) = ok (as_unsigned 64 (pos n))
uint_of key (integer (negsuc n)) = err (wrong_type key "unsigned integer")
uint_of key _ = err (wrong_type key "unsigned integer")

abbrev pub text_of : String → Value → Result CodecError String
text_of key (text s) = ok s
text_of key _ = err (wrong_type key "text string")

abbrev pub bool_of : String → Value → Result CodecError Bool
bool_of key (bool b) = ok b
bool_of key _ = err (wrong_type key "boolean")

abbrev pub bytes_of : String → ℕ → Value → Result CodecError (List ℕ)
bytes_of key expected_len (bytes b) =
    if length b == expected_len then ok b else err (wrong_type key "bytes of correct length")
bytes_of key expected_len _ = err (wrong_type key "byte string")

-- An absent optional field is `None`; one of a wrong type is an error all the same.
abbrev pub optional {ℓ} :
    {A : Type ℓ} → (Value → Result CodecError A) → Option Value → Result CodecError (Option A)
optional f none = ok none
optional f (some v) = f v >>= λ a. ok (some a)

unfoldable pub get_uint : CborMap → String → Result CodecError ℕ
get_uint m key = get_required m key >>= uint_of key

unfoldable pub get_uint_opt : CborMap → String → Result CodecError (Option ℕ)
get_uint_opt m key = optional (uint_of key) (get m key)

unfoldable pub get_text : CborMap → String → Result CodecError String
get_text m key = get_required m key >>= text_of key

unfoldable pub get_text_opt : CborMap → String → Result CodecError (Option String)
get_text_opt m key = optional (text_of key) (get m key)

unfoldable pub get_bool : CborMap → String → Result CodecError Bool
get_bool m key = get_required m key >>= bool_of key

unfoldable pub get_bytes : CborMap → String → ℕ → Result CodecError (List ℕ)
get_bytes m key expected_len = get_required m key >>= bytes_of key expected_len

unfoldable pub get_bytes_opt : CborMap → String → ℕ → Result CodecError (Option (List ℕ))
get_bytes_opt m key expected_len = optional (bytes_of key expected_len) (get m key)

abbrev pub str_item : String → Value → Result CodecError String
str_item key (text s) = ok s
str_item key _ = err (wrong_type key "array of text strings")

-- An absent array of texts is empty.
abbrev pub str_array_of : String → Option Value → Result CodecError (List String)
str_array_of key none = ok []
str_array_of key (some (array vs)) = collect (str_item key) vs
str_array_of key (some _) = err (wrong_type key "array")

unfoldable pub get_str_array : CborMap → String → Result CodecError (List String)
get_str_array m key = str_array_of key (get m key)

-- `val as u32`: the sign is not looked at.
abbrev pub u32_item : String → Value → Result CodecError ℕ
u32_item key (integer i) = ok (as_unsigned 32 i)
u32_item key _ = err (wrong_type key "array of unsigned integers")

abbrev pub uint_array_of : String → Value → Result CodecError (List ℕ)
uint_array_of key (array vs) = collect (u32_item key) vs
uint_array_of key _ = err (wrong_type key "array")

unfoldable pub get_uint_array_opt : CborMap → String → Result CodecError (Option (List ℕ))
get_uint_array_opt m key = optional (uint_array_of key) (get m key)

abbrev pub version_part : Value → Result CodecError ℕ
version_part (integer i) = ok (as_unsigned 32 i)
version_part _ = err (wrong_type "protocol_version" "[uint, uint]")

-- An array of exactly two integers.
abbrev pub version_of : Value → Result CodecError ProtocolVersion
version_of (array (cons a (cons b nil))) = do
  major ← version_part a
  minor ← version_part b
  ok (record { major = major; minor = minor })
version_of _ = err (wrong_type "protocol_version" "[uint, uint]")

unfoldable pub parse_version_array : CborMap → Result CodecError ProtocolVersion
parse_version_array m = get_required m "protocol_version" >>= version_of

-- `get_uint(..)? as u32`
abbrev pub get_u32 : CborMap → String → Result CodecError ℕ
get_u32 m key = get_uint m key >>= λ n. ok (n % 2 ^ 32)

abbrev pub uint_to_value : ℕ → Value
uint_to_value n = integer (pos n)

abbrev pub make_version_array : ProtocolVersion → Value
make_version_array v = array (cons (uint_to_value v.major) (cons (uint_to_value v.minor) nil))
