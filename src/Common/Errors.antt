-- ===== src/Common/Errors.antt =====
-- crates/nxfr-common/src/error.rs. A Rust `String` that holds a wire path is a list of its UTF-8
-- bytes; every other text is a native `String`.
use nxfr.Prelude.{ℕ, String, List}

pub data FrameError : Type 0 where
  invalid_magic : FrameError
  unsupported_version : ℕ → FrameError
  unknown_kind : ℕ → FrameError
  payload_too_large : String → ℕ → ℕ → FrameError
  incomplete_header : ℕ → FrameError
  chunk_payload_too_small : ℕ → FrameError
  keepalive_payload_invalid : ℕ → FrameError

pub data CodecError : Type 0 where
  cbor_decode : String → CodecError
  not_a_map : CodecError
  non_string_key : CodecError
  missing_field : String → CodecError
  wrong_type : String → String → CodecError
  unknown_message_type : ℕ → CodecError
  nesting_too_deep : ℕ → CodecError
  tag_not_allowed : CodecError
  indefinite_length : CodecError
  cbor_encode : String → CodecError
  manifest_too_large : ℕ → CodecError
  encoded_too_large : CodecError

pub data PathError : Type 0 where
  empty_path : PathError
  absolute_path : List ℕ → PathError
  parent_traversal : List ℕ → PathError
  null_byte : PathError
  control_character : ℕ → PathError
  windows_reserved_name : List ℕ → PathError
  component_too_long : ℕ → PathError
  path_too_long : ℕ → PathError
  backslash : PathError

pub data StateError : Type 0 where
  invalid_transition : String → String → StateError
