-- ===== src/Common/Limits.antt =====
-- crates/nxfr-common/src/types.rs, module `limits`.
use nxfr.Prelude.{ℕ, List, [], ◌∷◌}

abbrev pub control_payload_max : ℕ
control_payload_max = 65536

abbrev pub chunk_payload_max : ℕ
chunk_payload_max = 4194304

abbrev pub chunk_payload_min : ℕ
chunk_payload_min = 41

abbrev pub keepalive_payload_max : ℕ
keepalive_payload_max = 8

abbrev pub max_manifest_entries : ℕ
max_manifest_entries = 500

abbrev pub max_path_component : ℕ
max_path_component = 255

abbrev pub max_relative_path : ℕ
max_relative_path = 4096

abbrev pub max_cbor_nesting : ℕ
max_cbor_nesting = 6

abbrev pub frame_header_size : ℕ
frame_header_size = 28

abbrev pub frame_magic : List ℕ
frame_magic = b'N' ∷ b'X' ∷ b'F' ∷ b'R' ∷ []

abbrev pub frame_version : ℕ
frame_version = 1
