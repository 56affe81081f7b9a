-- ===== src/Transport/Frames.antt =====
-- One call of the decoder against one written frame.
use nxfr.Prelude.{
  ℕ, zero, suc, List, [], ◌∷◌, ◌++◌, ◌≡◌, refl, none, some, ok, err, length, take, drop, ◌+◌, arith,
  length-append, length-take, length-drop, All, IsByte, ap, ◌∙◌, append_assoc, append-nil,
  take-append_self, drop-append_self, take-append-drop, ◌≤◌, ◌<◌, All-take, to_be_bytes, take_all,
}
use native.Mathlib.Decide.{dec_lt}
use nxfr.Common.Errors.{FrameError}
use nxfr.Frame
use nxfr.Frame.{FrameHeader}
use nxfr.Frame.RoundTrip.{IsValid, parse-serialize, parse-IsValid, serialize-parse}
use nxfr.Transport.Codec.{NxfrFrame, decode, encode}

-- A frame whose header is valid and announces the payload that it carries.
pub record IsFrame (f : NxfrFrame) : Type 0 where
  pub header_valid : IsValid f.0
  pub announced : length f.1 ≡ f.0.payload_len

abbrev pub bytes_of : NxfrFrame → List ℕ
bytes_of f = Frame.serialize f.0 ++ f.1

pub length-serialize : (h : FrameHeader) → length (Frame.serialize h) ≡ 28
unfolding Frame.serialize to_be_bytes
length-serialize h = refl

module _ (f : NxfrFrame) (v : IsFrame f) (rest : List ℕ) where
  header_bytes : take 28 (bytes_of f ++ rest) ≡ Frame.serialize f.0
  header_bytes =
      rw (append_assoc (Frame.serialize f.0) f.1 rest)
        (rw (length-serialize f.0) at (take-append_self (Frame.serialize f.0) (f.1 ++ rest)))

  body_bytes : drop 28 (bytes_of f ++ rest) ≡ f.1 ++ rest
  body_bytes =
      rw (append_assoc (Frame.serialize f.0) f.1 rest)
        (rw (length-serialize f.0) at (drop-append_self (Frame.serialize f.0) (f.1 ++ rest)))

  header_read : Frame.parse (take 28 (bytes_of f ++ rest)) ≡ ok f.0
  header_read = rw header_bytes (rw append-nil at (parse-serialize f.0 [] v.header_valid))

  enough : length (bytes_of f ++ rest) ≡ 28 + f.0.payload_len + length rest
  enough = omega (
    arith,
    length-append (bytes_of f) rest,
    length-append (Frame.serialize f.0) f.1,
    length-serialize f.0,
    v.announced,
  )

  payload_off : take f.0.payload_len (f.1 ++ rest) ≡ f.1
  payload_off = rw v.announced at (take-append_self f.1 rest)

  rest_left : drop f.0.payload_len (f.1 ++ rest) ≡ rest
  rest_left = rw v.announced at (drop-append_self f.1 rest)

  -- A whole frame at the front of the buffer is taken off it, and what follows stays.
  pub decode-encode : decode (encode f [] ++ rest) ≡ (ok (some f), rest)
  unfolding decode encode
  decode-encode = ground (arith, header_read, enough, body_bytes, payload_off, rest_left)

length_bytes : (f : NxfrFrame) → IsFrame f → length (encode f []) ≡ 28 + f.0.payload_len
unfolding encode
length_bytes f v =
    omega (arith, length-append (Frame.serialize f.0) f.1, length-serialize f.0, v.announced)

decode_short : (front : List ℕ) → length front < 28 → decode front ≡ (ok none, front)
unfolding decode
decode_short front h = ground arith

decode_body_short :
    (f : NxfrFrame) (front : List ℕ)
    → Frame.parse (take 28 front) ≡ ok f.0
    → length front < 28 + f.0.payload_len
    → decode front ≡ (ok none, front)
unfolding decode
decode_body_short f front read h = ground (arith, read)

take_front : {A : Type 0} (n : ℕ) (xs ys : List A) → n ≤ length xs → take n (xs ++ ys) ≡ take n xs
take_front zero xs ys h = refl
take_front (suc n) [] ys h = absurd (omega arith)
take_front (suc n) (x ∷ xs) ys h = ap (λ zs. x ∷ zs) (take_front n xs ys (omega arith))

header_of_front :
    (f : NxfrFrame) (front back : List ℕ)
    → IsFrame f
    → encode f [] ≡ front ++ back
    → 28 ≤ length front
    → Frame.parse (take 28 front) ≡ ok f.0
unfolding encode
header_of_front f front back v e h =
    let read : Frame.parse (take 28 (bytes_of f ++ [])) ≡ ok f.0 = header_read f v [] in
    rw (append-nil, e, take_front 28 front back h) at read

-- A frame that is not whole yet is waited for, and the buffer is kept.
pub decode_waits :
    (f : NxfrFrame) (front back : List ℕ)
    → IsFrame f
    → 0 < length back
    → encode f [] ≡ front ++ back
    → decode front ≡ (ok none, front)
decode_waits f front back v more e = elim (dec_lt (length front) 28) [
  | yes short ↦ decode_short front short
  | no long ↦
      decode_body_short f front (header_of_front f front back v e (omega arith))
        (omega (arith, ap length e, length-append front back, length_bytes f v))
]

-- What a call that takes a frame has found in the buffer.
record Taken (src rest : List ℕ) (f : NxfrFrame) : Type 0 where
  read : Frame.parse (take 28 src) ≡ ok f.0
  whole : 28 + f.0.payload_len ≤ length src
  payload : f.1 ≡ take f.0.payload_len (drop 28 src)
  left : rest ≡ drop f.0.payload_len (drop 28 src)

decode-Taken :
    (src rest : List ℕ) (f : NxfrFrame) → decode src ≡ (ok (some f), rest) → Taken src rest f
unfolding decode
decode-Taken src rest f e = ground arith

take_idem : (src : List ℕ) → 28 ≤ length src → take 28 (take 28 src) ≡ take 28 src
take_idem src h =
    let len : length (take 28 src) ≡ 28 = omega (arith, length-take 28 src) in
    rw len at (take_all (take 28 src))

-- A frame that is taken off a buffer of bytes is valid, and was written there.
pub decode_sound :
    (src rest : List ℕ) (f : NxfrFrame)
    → All IsByte src
    → decode src ≡ (ok (some f), rest)
    → IsFrame f × (encode f [] ++ rest ≡ src)
unfolding encode
decode_sound src rest f bytes e =
    let t = decode-Taken src rest f e in
    let front = All-take IsByte 28 src bytes in
    let header : Frame.serialize f.0 ≡ take 28 src =
      serialize-parse (take 28 src) f.0 front t.read ∙ take_idem src (omega (arith, t.whole)) in
    (
      record {
        header_valid = parse-IsValid (take 28 src) f.0 front t.read;
        announced = omega (
          arith,
          ap length t.payload,
          t.whole,
          length-take f.0.payload_len (drop 28 src),
          length-drop 28 src,
        );
      },
      rw (header, t.payload, t.left, append_assoc, take-append-drop, take-append-drop) refl,
    )

-- A call that waits, or that fails, leaves the buffer as it was.
pub decode_waits_keeps : (src rest : List ℕ) → decode src ≡ (ok none, rest) → rest ≡ src
unfolding decode
decode_waits_keeps src rest e = ground arith

pub decode_fails_keeps :
    (src rest : List ℕ) (x : FrameError) → decode src ≡ (err x, rest) → rest ≡ src
unfolding decode
decode_fails_keeps src rest x e = ground arith

pub decode-nil : decode [] ≡ (ok none, [])
unfolding decode
decode-nil = refl
