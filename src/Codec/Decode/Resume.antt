-- ===== src/Codec/Decode/Resume.antt =====
-- crates/nxfr-core/src/codec.rs: the files in `decode_resume_status`.
use nxfr.Prelude.{ℕ, List, Option, none, some, Bool, true, false, Result, ok, err, ◌>>=◌}
use nxfr.Common.Errors.{CodecError, wrong_type}
use nxfr.Codec.Value.{Value, array, integer, cons, nil, collect, as_unsigned}
use nxfr.Codec.Map.{CborMap, item_map}
use nxfr.Codec.Getters.{get_required, get_uint, get_bytes_opt, get_u32}
use nxfr.Codec.Messages.{ResumeFileStatus}

abbrev pub range_part : Value → Result CodecError ℕ
range_part (integer i) = ok (as_unsigned 64 i)
range_part _ = err (wrong_type "received_ranges" "[uint, uint]")

-- An array of exactly two integers, the sign of which is not looked at.
abbrev pub range_item : Value → Result CodecError (ℕ × ℕ)
range_item (array (cons a (cons b nil))) = do
  offset ← range_part a
  len ← range_part b
  ok (offset, len)
range_item _ = err (wrong_type "received_ranges" "array of [uint, uint]")

abbrev pub ranges_of : Value → Result CodecError (List (ℕ × ℕ))
ranges_of (array vs) = collect range_item vs
ranges_of _ = err (wrong_type "received_ranges" "array")

abbrev pub decode_resume_fields : CborMap → Result CodecError ResumeFileStatus
decode_resume_fields m = do
  file_id ← get_u32 m "file_id"
  received_bytes ← get_uint m "received_bytes"
  ranges_val ← get_required m "received_ranges"
  ranges ← ranges_of ranges_val
  partial_sha256 ← get_bytes_opt m "partial_sha256" 32
  ok (record {
    file_id = file_id;
    received_bytes = received_bytes;
    received_ranges = ranges;
    partial_sha256 = partial_sha256;
  })

unfoldable pub decode_resume_file : Value → Result CodecError ResumeFileStatus
decode_resume_file v = item_map "files[]" v >>= decode_resume_fields

-- `files` counts only if the transfer can be resumed and it is an array; otherwise it is `None`.
abbrev pub decode_resume_files :
    Bool → Option Value → Result CodecError (Option (List ResumeFileStatus))
decode_resume_files true (some (array vs)) = do fs ← collect decode_resume_file vs; ok (some fs)
decode_resume_files true _ = ok none
decode_resume_files false v = ok none
