-- ===== src/Codec/Control.antt =====
-- crates/nxfr-core/src/codec.rs: `encode_control` and `decode_control` together, on the bytes that the
-- crate `ciborium` writes and reads.
use nxfr.Prelude.{
  ℕ, List, ◌≡◌, Result, ok, ◌>>=◌, ◌>>◌, >>=-eq-ok, reject_if, arith, length, ltb, ◌≤◌,
}
use nxfr.Common.Errors.{CodecError, encoded_too_large}
use nxfr.Common.Limits.{control_payload_max}
use nxfr.Codec.Value.{Value}
use nxfr.Codec.Map.{CborMap, map_to_value}
use nxfr.Codec.Messages.{ControlMessage}
use nxfr.Codec.Encode.{encode_to_map, encode_control}
use nxfr.Codec.Decode.{decode_value, decode_control}
use nxfr.Codec.WellFormed.{IsWellFormed}
use nxfr.Codec.Reread.{reread}
use nxfr.Codec.RoundTrip.{encoded_reads_back}
use nxfr.Codec.Decoded.{decoded-IsWellFormed}

-- The last test of `encode_control`.
abbrev capped : List ℕ → Result CodecError (List ℕ)
capped buf = reject_if (ltb control_payload_max (length buf)) encoded_too_large >> ok buf

capped_lem :
    (b : List ℕ) {buf : List ℕ} → capped b ≡ ok buf → (b ≡ buf) × (length buf ≤ control_payload_max)
capped_lem b e = ground arith

-- A successful `encode_control` went through its steps, and its bytes are within the limit.
module _ (into_writer : Value → Result CodecError (List ℕ)) (msg : ControlMessage)
    (buf : List ℕ) where
  pub encode_control-steps :
      encode_control into_writer msg ≡ ok buf
      → (m : CborMap) × (encode_to_map msg ≡ ok m)
        × (into_writer (map_to_value m) ≡ ok buf)
        × (length buf ≤ control_payload_max)
  unfolding encode_control
  encode_control-steps e =
      let (m, em, rest) =
        >>=-eq-ok (encode_to_map msg) (λ m. into_writer (map_to_value m) >>= capped) e in
      let (b, written, last) = >>=-eq-ok (into_writer (map_to_value m)) capped rest in
      let (same, fits) = capped_lem b last in (m, em, rw same at written, fits)

module _ (into_writer : Value → Result CodecError (List ℕ))
    (from_reader : List ℕ → Result CodecError Value)
    (reads_written : (v : Value) (buf : List ℕ)
      → into_writer v ≡ ok buf
      → from_reader buf ≡ ok v) where
  -- Where the CBOR reader reads back what the CBOR writer wrote: the bytes that a well-formed message is
  -- encoded to are at most 65536 and decode to that message.
  pub control_round_trip :
      (msg : ControlMessage) (buf : List ℕ)
      → IsWellFormed msg
      → encode_control into_writer msg ≡ ok buf
      → (length buf ≤ control_payload_max) × (decode_control from_reader buf ≡ ok msg)
  unfolding decode_control reread
  control_round_trip msg buf wf e =
      let (m, em, written, fits) = encode_control-steps into_writer msg buf e in
      (fits, rw (reads_written (map_to_value m) buf written) (rw em at (encoded_reads_back msg wf)))

  -- Where the CBOR reader reads back what the CBOR writer wrote: a message that was decoded from any
  -- bytes, if it is encoded again, decodes again to itself.
  pub redecode_same :
      (payload buf : List ℕ) (msg : ControlMessage)
      → decode_control from_reader payload ≡ ok msg
      → encode_control into_writer msg ≡ ok buf
      → decode_control from_reader buf ≡ ok msg
  unfolding decode_control
  redecode_same payload buf msg d e =
      let (v, read, dv) = >>=-eq-ok (from_reader payload) decode_value d in
      (control_round_trip msg buf (decoded-IsWellFormed v msg dv) e).1
