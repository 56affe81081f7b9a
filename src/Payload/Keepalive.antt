-- ===== src/Payload/Keepalive.antt =====
-- crates/nxfr-core/src/keepalive.rs: a liveness check, or a timestamp for round-trip times.
use nxfr.Prelude.{
  ℕ, List, [], ◌≡◌, refl, length, ◌==◌, if◌then◌else◌, Result, ok, err, to_be_bytes, from_be_bytes,
  from_be_bytes-to_be_bytes, to_be_bytes-from_be_bytes, length-to_be_bytes, IsU64, IsByte, All,
  arith, ◌%◌, ◌^◌, ◌∷◌,
}
use nxfr.Common.Errors.{FrameError, keepalive_payload_invalid}

pub data KeepalivePayload : Type 0 where
  empty : KeepalivePayload
  timestamp : ℕ → KeepalivePayload

unfoldable pub parse : List ℕ → Result FrameError KeepalivePayload
parse payload =
    if length payload == 0
    then ok empty
    else if length payload == 8
    then ok (timestamp (from_be_bytes payload))
    else err (keepalive_payload_invalid (length payload % 2 ^ 32))

unfoldable pub serialize : KeepalivePayload → List ℕ
serialize empty = []
serialize (timestamp ts) = to_be_bytes 8 ts

abbrev pub IsValid : KeepalivePayload → Type 0
IsValid empty = Unit {0}
IsValid (timestamp ts) = IsU64 ts

-- A keepalive whose timestamp fits 64 bits is read back as it was written.
pub parse-serialize : (k : KeepalivePayload) → IsValid k → parse (serialize k) ≡ ok k
unfolding parse serialize
parse-serialize empty v = refl
parse-serialize (timestamp ts) v =
    ground (arith, length-to_be_bytes 8 ts, from_be_bytes-to_be_bytes 8 ts)

no_bytes : (bs : List ℕ) → length bs ≡ 0 → bs ≡ []
no_bytes [] e = refl
no_bytes (b ∷ bs) e = absurd (omega arith)

-- The bytes that are read as a keepalive are the bytes that it is written as.
pub serialize-parse :
    (payload : List ℕ) (k : KeepalivePayload)
    → All IsByte payload
    → parse payload ≡ ok k
    → serialize k ≡ payload
unfolding parse
serialize-parse payload empty bytes e = unfold serialize in (ground (arith, no_bytes payload))
serialize-parse payload (timestamp ts) bytes e =
    unfold serialize in
    (let len : length payload ≡ 8 = ground arith in
      let t : ts ≡ from_be_bytes payload = ground arith in
      rw t (rw len at (to_be_bytes-from_be_bytes payload bytes)))
