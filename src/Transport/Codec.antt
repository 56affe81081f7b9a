-- ===== src/Transport/Codec.antt =====
-- crates/nxfr-transport/src/framing.rs: `NxfrCodec`, one call of `decode` and of `encode`.
use nxfr.Prelude.{
  ℕ, List, ◌++◌, Option, none, some, Result, ok, err, length, take, drop, ltb, if◌then◌else◌, ◌+◌,
}
use nxfr.Common.Errors.{FrameError}
use nxfr.Frame
use nxfr.Frame.{FrameHeader}

abbrev pub NxfrFrame : Type 0
NxfrFrame = FrameHeader × List ℕ

-- The result of a call, and the buffer that it leaves.
abbrev pub Decoded : Type 0
Decoded = Result FrameError (Option NxfrFrame) × List ℕ

-- The tail of `decode`, once the header is known.
unfoldable pub decode_body : FrameHeader → List ℕ → Decoded
decode_body header src = if ltb (length src) (28 + header.payload_len) then (ok none, src) else (
  ok (some (header, take header.payload_len (drop 28 src))),
  drop header.payload_len (drop 28 src),
)

unfoldable pub decode : List ℕ → Decoded
unfolding decode_body
decode src = if ltb (length src) 28 then (ok none, src) else elim (Frame.parse (take 28 src)) [
  | ok header ↦ decode_body header src
  | err e ↦ (err e, src)
]

unfoldable pub encode : NxfrFrame → List ℕ → List ℕ
encode (header, payload) dst = dst ++ (Frame.serialize header ++ payload)
