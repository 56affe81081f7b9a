-- ===== src/Codec/Unknown.antt =====
-- crates/nxfr-core/src/codec.rs: a key that no message has.
use nxfr.Prelude.{String, List, [], ◌∷◌, ◌≡◌, refl, All, false, str_eq}
use nxfr.Codec.Value.{Value}
use nxfr.Codec.Map.{CborMap, get, insert, get-insert}
use nxfr.Codec.Getters.{
  get_required, get_uint, get_uint_opt, get_text, get_text_opt, get_bool, get_bytes, get_str_array,
  get_uint_array_opt, parse_version_array,
}
use nxfr.Codec.Decode.{
  decode_map, decode_as, decode_greeting, decode_hello, decode_hello_ack, decode_pair_request,
  decode_error, decode_transfer_request, decode_file_metadata, decode_file_metadata_ack,
  decode_chunk_ack, decode_transfer_ack, decode_resume_query, decode_resume_status,
}

-- The keys that a message's own map can have.
abbrev pub message_keys : List String
message_keys =
    "type" ∷ "protocol_version" ∷ "device_id" ∷ "device_name" ∷ "platform" ∷ "capabilities"
    ∷ "is_paired" ∷ "session_id" ∷ "sas_method" ∷ "reason" ∷ "code" ∷ "message" ∷ "fatal"
    ∷ "transfer_id" ∷ "transfer_type" ∷ "display_name" ∷ "total_files" ∷ "total_size" ∷ "manifest"
    ∷ "file_id" ∷ "stream_id" ∷ "relative_path" ∷ "size" ∷ "sha256" ∷ "mime_type" ∷ "modified_time"
    ∷ "accepted" ∷ "message_id" ∷ "offset" ∷ "length" ∷ "status" ∷ "failed_files" ∷ "file_ids"
    ∷ "resumable" ∷ "expiry" ∷ "files" ∷ []

-- The maps have the same values under the keys `ks`.
abbrev pub Agree : CborMap → CborMap → List String → Type 0
Agree m n ks = All (λ k. get m k ≡ get n k) ks

-- What is decoded depends on a message's own keys alone.
pub decode_map-Agree : (m n : CborMap) → Agree m n message_keys → decode_map m ≡ decode_map n
unfolding decode_map decode_as decode_greeting decode_hello decode_hello_ack decode_pair_request
    decode_error decode_transfer_request decode_file_metadata decode_file_metadata_ack
    decode_chunk_ack decode_transfer_ack decode_resume_query decode_resume_status get_required
    get_uint get_uint_opt get_text get_text_opt get_bool get_bytes get_str_array get_uint_array_opt
    parse_version_array
decode_map-Agree m n
      (
        e1,
        (
          e2,
          (
            e3,
            (
              e4,
              (
                e5,
                (
                  e6,
                  (
                    e7,
                    (
                      e8,
                      (
                        e9,
                        (
                          e10,
                          (
                            e11,
                            (
                              e12,
                              (
                                e13,
                                (
                                  e14,
                                  (
                                    e15,
                                    (
                                      e16,
                                      (
                                        e17,
                                        (
                                          e18,
                                          (
                                            e19,
                                            (
                                              e20,
                                              (
                                                e21,
                                                (
                                                  e22,
                                                  (
                                                    e23,
                                                    (
                                                      e24,
                                                      (
                                                        e25,
                                                        (
                                                          e26,
                                                          (
                                                            e27,
                                                            (
                                                            e28,
                                                            (
                                                            e29,
                                                            (
                                                            e30,
                                                            (
                                                            e31,
                                                            (e32, (e33, (e34, (e35, (e36, end))))),
                                                            ),
                                                            ),
                                                            ),
                                                            ),
                                                          ),
                                                        ),
                                                      ),
                                                    ),
                                                  ),
                                                ),
                                              ),
                                            ),
                                          ),
                                        ),
                                      ),
                                    ),
                                  ),
                                ),
                              ),
                            ),
                          ),
                        ),
                      ),
                    ),
                  ),
                ),
              ),
            ),
          ),
        ),
      ) =
    rw
      (
        e1, e2, e3, e4, e5, e6, e7, e8, e9, e10, e11, e12, e13, e14, e15, e16, e17, e18, e19, e20,
        e21, e22, e23, e24, e25, e26, e27, e28, e29, e30, e31, e32, e33, e34, e35, e36,
      )
      refl

inserted :
    (k : String) (v : Value) (m : CborMap) (ks : List String)
    → All (λ j. str_eq k j ≡ false) ks
    → Agree (insert k v m) m ks
inserted k v m [] h = tt
inserted k v m (j ∷ ks) (other, h) = (rw (get-insert k j v m, other) refl, inserted k v m ks h)

-- A key that belongs to no message is ignored, whatever its value is.
pub unknown_key_ignored :
    (k : String) (v : Value) (m : CborMap)
    → All (λ j. str_eq k j ≡ false) message_keys
    → decode_map (insert k v m) ≡ decode_map m
unknown_key_ignored k v m h = decode_map-Agree (insert k v m) m (inserted k v m message_keys h)
