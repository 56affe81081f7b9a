-- ===== src/Frame/RoundTrip.antt =====
-- The frame header's bytes and its record determine one another.
use nxfr.Prelude.{
  ℕ, List, [], ◌∷◌, ◌++◌, ◌≡◌, refl, ok, length, take, drop, arith, IsByte, IsU16, IsU32, IsU64,
  All, to_be_bytes, from_be_bytes-to_be_bytes, ◌≤◌, ◌↔◌, list_eq, list_eq→eq, field_at,
  field_at-add, to_be_bytes-field_at, from_be_bytes-field_at_lt, take-append-drop, true,
}
use nxfr.Common.Limits.{frame_magic, frame_version}
use nxfr.Frame.{
  FrameHeader, FrameKind, control, chunk, keepalive, kind_code, from_u8, validate_payload_len,
  header_of, parse, serialize, byte_at,
}

-- Each field fits its machine word, and the payload length is one that the kind allows.
pub record IsValid (h : FrameHeader) : Type 0 where
  pub flags_fit : IsU16 h.flags
  pub session_fits : IsU32 h.session_id
  pub stream_fits : IsU32 h.stream_id
  pub message_fits : IsU64 h.message_id
  pub len_fits : IsU32 h.payload_len
  pub len_allowed : validate_payload_len h ≡ ok tt

from_u8-kind_code : (k : FrameKind) → from_u8 (kind_code k) ≡ ok k
unfolding from_u8
from_u8-kind_code control = refl
from_u8-kind_code chunk = refl
from_u8-kind_code keepalive = refl

kind_code-from_u8 : (v : ℕ) (k : FrameKind) → from_u8 v ≡ ok k → kind_code k ≡ v
unfolding from_u8
kind_code-from_u8 v k h = ground arith

module _ (h : FrameHeader) (rest : List ℕ) (v : IsValid h) where
  header_of-serialize : header_of h.kind (serialize h ++ rest) ≡ h
  unfolding header_of serialize to_be_bytes
  header_of-serialize = ground (
    arith,
    from_be_bytes-to_be_bytes 2 h.flags,
    from_be_bytes-to_be_bytes 4 h.session_id,
    from_be_bytes-to_be_bytes 4 h.stream_id,
    from_be_bytes-to_be_bytes 8 h.message_id,
    from_be_bytes-to_be_bytes 4 h.payload_len,
  )

  kind_read : from_u8 (byte_at (serialize h ++ rest) 5) ≡ ok h.kind
  unfolding serialize to_be_bytes
  kind_read = from_u8-kind_code h.kind

  -- A header that is written is read back, whatever bytes follow it.
  pub parse-serialize : parse (serialize h ++ rest) ≡ ok h
  unfolding parse serialize to_be_bytes list_eq
  parse-serialize =
      rw (from_u8-kind_code h.kind) (rw header_of-serialize (rw v.len_allowed (ground arith)))

-- What a successful read has checked.
record Accepts (buf : List ℕ) (h : FrameHeader) : Type 0 where
  long_enough : 28 ≤ length buf
  magic : list_eq (field_at buf 0 4) frame_magic ≡ true
  version : byte_at buf 4 ≡ frame_version
  kind_known : from_u8 (byte_at buf 5) ≡ ok h.kind
  read_off : h ≡ header_of h.kind buf
  allowed : validate_payload_len h ≡ ok tt

parse-Accepts : (buf : List ℕ) (h : FrameHeader) → parse buf ≡ ok h → Accepts buf h
unfolding parse header_of
parse-Accepts buf h e = ground arith

-- The six fields that follow the magic, side by side.
layout : List ℕ → List ℕ → List ℕ → List ℕ → List ℕ → List ℕ → List ℕ → List ℕ
layout magic kind flags session stream message len =
    magic ++ kind ++ flags ++ session ++ stream ++ message ++ len

layout_fields :
    (buf : List ℕ)
    → layout
        (field_at buf 0 4)
        (field_at buf 4 2)
        (field_at buf 6 2)
        (field_at buf 8 4)
        (field_at buf 12 4)
        (field_at buf 16 8)
        (field_at buf 24 4)
      ≡ take 28 buf
unfolding layout
layout_fields buf = rw (
  ← field_at-add buf 0 4 2,
  ← field_at-add buf 0 6 2,
  ← field_at-add buf 0 8 4,
  ← field_at-add buf 0 12 4,
  ← field_at-add buf 0 16 8,
  ← field_at-add buf 0 24 4,
)

serialize-layout :
    (h : FrameHeader)
    → serialize h
      ≡ layout frame_magic
          (frame_version ∷ kind_code h.kind ∷ [])
          (to_be_bytes 2 h.flags)
          (to_be_bytes 4 h.session_id)
          (to_be_bytes 4 h.stream_id)
          (to_be_bytes 8 h.message_id)
          (to_be_bytes 4 h.payload_len)
unfolding serialize layout
serialize-layout h = refl

two_bytes : (buf : List ℕ) → 28 ≤ length buf → byte_at buf 4 ∷ byte_at buf 5 ∷ [] ≡ field_at buf 4 2
two_bytes (a ∷ b ∷ c ∷ d ∷ e ∷ f ∷ rest) h = refl
two_bytes _ h = absurd (omega arith)

module _ (buf : List ℕ) (h : FrameHeader) (bytes : All IsByte buf) where
  -- The bytes of a header that is read are the bytes that it is written as.
  pub serialize-parse : parse buf ≡ ok h → serialize h ≡ take 28 buf
  unfolding header_of
  serialize-parse e =
      let a = parse-Accepts buf h e in
      let len = a.long_enough in
      cc (
        serialize-layout h,
        layout_fields buf,
        a.read_off,
        list_eq→eq _ _ a.magic,
        two_bytes buf a.long_enough,
        a.version,
        kind_code-from_u8 _ _ a.kind_known,
        to_be_bytes-field_at buf 6 2 bytes (omega arith),
        to_be_bytes-field_at buf 8 4 bytes (omega arith),
        to_be_bytes-field_at buf 12 4 bytes (omega arith),
        to_be_bytes-field_at buf 16 8 bytes (omega arith),
        to_be_bytes-field_at buf 24 4 bytes (omega arith),
      )

  pub parse-IsValid : parse buf ≡ ok h → IsValid h
  unfolding header_of
  parse-IsValid e =
      let a = parse-Accepts buf h e in
      let len = a.long_enough in
      ground (
        arith,
        a.read_off,
        a.allowed,
        from_be_bytes-field_at_lt buf 6 2 bytes,
        from_be_bytes-field_at_lt buf 8 4 bytes,
        from_be_bytes-field_at_lt buf 12 4 bytes,
        from_be_bytes-field_at_lt buf 16 8 bytes,
        from_be_bytes-field_at_lt buf 24 4 bytes,
      )

  -- The bytes read as `h` are exactly those that begin with the writing of a valid `h`.
  pub parse_iff : (parse buf ≡ ok h) ↔ (IsValid h × (serialize h ++ drop 28 buf ≡ buf))
  parse_iff = (
    λ e. (parse-IsValid e, rw (serialize-parse e) (take-append-drop 28 buf)),
    λ (v, e). rw e at (parse-serialize h (drop 28 buf) v),
  )
