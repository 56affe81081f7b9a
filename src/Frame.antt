-- ===== src/Frame.antt =====
-- crates/nxfr-core/src/frame.rs: the 28-byte frame header. Its codec laws are in the children.
pub mod RoundTrip
use nxfr.Prelude.{
  ℕ, String, List, [], ◌∷◌, ◌++◌, Bool, not, length, drop, field_at, list_eq, ltb, ◌==◌, ◌%◌,
  if◌then◌else◌, Result, ok, err, ◌>>=◌, ◌>>◌, reject_if, to_be_bytes, from_be_bytes, ◌&&◌,
}
use nxfr.Common.Limits.{
  control_payload_max, chunk_payload_max, chunk_payload_min, keepalive_payload_max,
  frame_header_size, frame_magic, frame_version,
}
use nxfr.Common.Errors.{
  FrameError, invalid_magic, unsupported_version, unknown_kind, payload_too_large,
  incomplete_header, chunk_payload_too_small, keepalive_payload_invalid,
}

pub data FrameKind : Type 0 where
  control chunk keepalive : FrameKind

-- `kind as u8`
abbrev pub kind_code : FrameKind → ℕ
kind_code control = 0x01
kind_code chunk = 0x02
kind_code keepalive = 0x03

unfoldable pub from_u8 : ℕ → Result FrameError FrameKind
from_u8 v =
    if v == 0x01
    then ok control
    else if v == 0x02
    then ok chunk
    else if v == 0x03
    then ok keepalive
    else err (unknown_kind v)

abbrev pub kind_name : FrameKind → String
kind_name control = "CONTROL"
kind_name chunk = "CHUNK"
kind_name keepalive = "KEEPALIVE"

pub record FrameHeader : Type 0 where
  pub kind : FrameKind
  pub flags : ℕ
  pub session_id : ℕ
  pub stream_id : ℕ
  pub message_id : ℕ
  pub payload_len : ℕ

-- `(self.0 & 0x0001) != 0`: the lowest bit is the last-chunk flag of a chunk and the pong flag
-- of a keepalive.
unfoldable pub is_last_chunk : ℕ → Bool
is_last_chunk flags = flags % 2 == 1

unfoldable pub validate_kind_len : FrameKind → ℕ → Result FrameError (Unit {0})
validate_kind_len control n =
    reject_if (ltb control_payload_max n)
      (payload_too_large (kind_name control) n control_payload_max)
validate_kind_len chunk n = do
  reject_if (ltb n chunk_payload_min) (chunk_payload_too_small n)
  reject_if (ltb chunk_payload_max n) (payload_too_large (kind_name chunk) n chunk_payload_max)
validate_kind_len keepalive n =
    reject_if (not (n == 0) && not (n == keepalive_payload_max)) (keepalive_payload_invalid n)

unfoldable pub validate_payload_len : FrameHeader → Result FrameError (Unit {0})
unfolding validate_kind_len
validate_payload_len h = validate_kind_len h.kind h.payload_len

abbrev pub first_or_zero : List ℕ → ℕ
first_or_zero [] = 0
first_or_zero (b ∷ _) = b

-- `buf[at]`; the length was checked before.
abbrev pub byte_at : List ℕ → ℕ → ℕ
byte_at buf at = first_or_zero (drop at buf)

-- The header that the bytes spell, once its kind is known.
unfoldable pub header_of : FrameKind → List ℕ → FrameHeader
header_of k buf = record {
  kind = k;
  flags = from_be_bytes (field_at buf 6 2);
  session_id = from_be_bytes (field_at buf 8 4);
  stream_id = from_be_bytes (field_at buf 12 4);
  message_id = from_be_bytes (field_at buf 16 8);
  payload_len = from_be_bytes (field_at buf 24 4);
}

unfoldable pub parse : List ℕ → Result FrameError FrameHeader
parse buf = do
  reject_if (ltb (length buf) frame_header_size) (incomplete_header (length buf))
  reject_if (not (list_eq (field_at buf 0 4) frame_magic)) invalid_magic
  reject_if (not (byte_at buf 4 == frame_version)) (unsupported_version (byte_at buf 4))
  kind ← from_u8 (byte_at buf 5)
  let header = header_of kind buf
  validate_payload_len header
  ok header

unfoldable pub serialize : FrameHeader → List ℕ
serialize h =
    frame_magic
    ++ (frame_version ∷ kind_code h.kind ∷ [])
    ++ to_be_bytes 2 h.flags
    ++ to_be_bytes 4 h.session_id
    ++ to_be_bytes 4 h.stream_id
    ++ to_be_bytes 8 h.message_id
    ++ to_be_bytes 4 h.payload_len
