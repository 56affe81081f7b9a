-- ===== src/Tests/Control.antt =====
-- A control message on the wire: PAIR_ACCEPT, with a reader and a writer for the smallest CBOR maps.
use nxfr.Prelude.{
  ℕ, List, [], ◌∷◌, ◌≡◌, refl, Result, ok, err, arith, ◌&&◌, if◌then◌else◌, str_eq, ltb, length,
  take, list_eq, ◌≤◌, drop, eq_iff,
}
use nxfr.Frame.{first_or_zero}
use nxfr.Common.Errors.{CodecError, cbor_encode, cbor_decode}
use nxfr.Common.Limits.{control_payload_max}
use nxfr.Codec.Value.{
  Value, map_value, entry, end, text, integer, pos, check_nesting_depth, check_entries,
}
use nxfr.Codec.Map.{map_to_value, insert, get, to_cbor_map, collect_entries}
use nxfr.Codec.Getters.{get_uint, get_required}
use nxfr.Codec.Messages.{pair_accept}
use nxfr.Codec.Encode.{encode_to_map, encode_control}
use nxfr.Codec.Decode.{decode_value, decode_map, decode_as, decode_control}
use nxfr.Codec.Control.{control_round_trip}

-- The CBOR of a map with the key `type` and a small number, and no other.
abbrev prefix : List ℕ
prefix = 0xa1 ∷ 0x64 ∷ b't' ∷ b'y' ∷ b'p' ∷ b'e' ∷ []

abbrev write_small : Value → Result CodecError (List ℕ)
write_small (map_value (entry (text s) (integer (pos n)) end)) =
    if str_eq s "type" && ltb n 24
    then ok (0xa1 ∷ 0x64 ∷ b't' ∷ b'y' ∷ b'p' ∷ b'e' ∷ n ∷ [])
    else err (cbor_encode "not supported")
write_small _ = err (cbor_encode "not supported")

abbrev read_small : List ℕ → Result CodecError Value
read_small buf =
    if list_eq (take 6 buf) prefix
    then ok (map_value (entry (text "type") (integer (pos (first_or_zero (drop 6 buf)))) end))
    else err (cbor_decode "not supported")

small_reads_written : (v : Value) (buf : List ℕ) → write_small v ≡ ok buf → read_small buf ≡ ok v
unfolding list_eq
small_reads_written (map_value (entry (text s) (integer (pos n)) end)) buf e =
    ground (arith, eq_iff s "type")
small_reads_written _ buf e = cc

abbrev accept_bytes : List ℕ
accept_bytes = 0xa1 ∷ 0x64 ∷ b't' ∷ b'y' ∷ b'p' ∷ b'e' ∷ 4 ∷ []

accept_encodes : encode_control write_small pair_accept ≡ ok accept_bytes
unfolding encode_control encode_to_map insert map_to_value
accept_encodes = refl

accept_decodes : decode_control read_small accept_bytes ≡ ok pair_accept
unfolding decode_control decode_value decode_map decode_as to_cbor_map collect_entries
    check_nesting_depth check_entries insert get get_required get_uint list_eq
accept_decodes = refl

control_round_trip_example :
    (length accept_bytes ≤ control_payload_max)
    × (decode_control read_small accept_bytes ≡ ok pair_accept)
control_round_trip_example =
    control_round_trip write_small read_small small_reads_written pair_accept accept_bytes tt
      accept_encodes
