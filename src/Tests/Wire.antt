-- ===== src/Tests/Wire.antt =====
-- Frames, payloads and the SAS on fixed inputs.
use nxfr.Prelude.{
  ℕ, List, [], ◌∷◌, ◌++◌, ◌≡◌, refl, ok, none, some, arith, All, IsByte, take, drop, replicate, ◌↔◌,
  from_be_bytes, to_be_bytes, list_eq,
}
use nxfr.Frame
use nxfr.Frame.{FrameHeader, chunk, header_of, validate_payload_len, validate_kind_len, from_u8}
use nxfr.Frame.RoundTrip.{IsValid, parse_iff}
use nxfr.Payload.Chunk
use nxfr.Payload.Chunk.{ChunkPayload}
use nxfr.Transport.Codec.{NxfrFrame, decode, encode}
use nxfr.Transport.Frames.{IsFrame}
use nxfr.Transport.Stream.{
  Connection, Op, arrive, poll, fresh, step, run, arrivals, wire, run_reassembles,
}
use nxfr.Sas.{derive_sas, bytes_lt}

abbrev header : FrameHeader
header = record {
  kind = chunk;
  flags = 1;
  session_id = 9;
  stream_id = 2;
  message_id = 300;
  payload_len = 41;
}

header-IsValid : IsValid header
unfolding validate_payload_len
header-IsValid = record {
  flags_fit = omega arith;
  session_fits = omega arith;
  stream_fits = omega arith;
  message_fits = omega arith;
  len_fits = omega arith;
  len_allowed = refl;
}

abbrev payload : List ℕ
payload = replicate 41 6

abbrev frame : NxfrFrame
frame = (header, payload)

frame-IsFrame : IsFrame frame
frame-IsFrame = record { header_valid = header-IsValid; announced = refl }

abbrev frame_bytes : List ℕ
frame_bytes =
    b'N' ∷ b'X' ∷ b'F' ∷ b'R' ∷ 1 ∷ 2 ∷ 0 ∷ 1 ∷ 0 ∷ 0 ∷ 0 ∷ 9 ∷ 0 ∷ 0 ∷ 0 ∷ 2 ∷ 0 ∷ 0 ∷ 0 ∷ 0 ∷ 0
    ∷ 0 ∷ 1 ∷ 44 ∷ 0 ∷ 0 ∷ 0 ∷ 41 ∷ payload

frame_encodes : encode frame [] ≡ frame_bytes
unfolding encode Frame.serialize to_be_bytes
frame_encodes = refl

frame_bytes-IsByte : All IsByte frame_bytes
frame_bytes-IsByte = omega arith

parse_iff_example :
    (Frame.parse frame_bytes ≡ ok header)
    ↔ (IsValid header × (Frame.serialize header ++ drop 28 frame_bytes ≡ frame_bytes))
parse_iff_example = parse_iff frame_bytes header frame_bytes-IsByte

frame_decodes : decode frame_bytes ≡ (ok (some frame), [])
unfolding decode encode Frame.parse Frame.header_of Frame.from_u8 validate_payload_len from_be_bytes
    list_eq
frame_decodes = refl

-- The frame comes in two pieces, with a call after each.
abbrev ops : List Op
ops = arrive (take 30 frame_bytes) ∷ poll ∷ arrive (drop 30 frame_bytes) ∷ poll ∷ []

wire_is_bytes : All IsByte (wire (frame ∷ []))
unfolding encode Frame.serialize to_be_bytes
wire_is_bytes = omega arith

arrivals_are_wire : arrivals ops ≡ wire (frame ∷ [])
unfolding encode Frame.serialize to_be_bytes
arrivals_are_wire = refl

idle_at_end : decode (run ops fresh).buffer ≡ (ok none, (run ops fresh).buffer)
unfolding run step decode Frame.parse Frame.header_of Frame.from_u8 validate_payload_len
    from_be_bytes list_eq
idle_at_end = refl

run_reassembles_example : ((run ops fresh).delivered ≡ frame ∷ []) × ((run ops fresh).buffer ≡ [])
run_reassembles_example =
    run_reassembles ops (frame ∷ []) (frame-IsFrame, tt) wire_is_bytes arrivals_are_wire idle_at_end

abbrev waiting : Connection
waiting = record fresh { buffer = wire (frame ∷ frame ∷ []) ++ (b'N' ∷ []) }

abbrev small_chunk : ChunkPayload
small_chunk = record { offset = 4096; chunk_hash = replicate 32 3; content = 1 ∷ 2 ∷ [] }

small_chunk-IsValid : Chunk.IsValid small_chunk
small_chunk-IsValid = record {
  offset_fits = omega arith;
  hash_width = refl;
  some_content = omega arith;
}

abbrev alice : List ℕ
alice = replicate 32 1

abbrev bob : List ℕ
bob = replicate 32 2

abbrev exported : List ℕ
exported = 0 ∷ 0 ∷ 4 ∷ 210 ∷ []

same_context : (derive_sas bob alice exported).1 ≡ (derive_sas alice bob exported).1
unfolding derive_sas bytes_lt
same_context = refl
