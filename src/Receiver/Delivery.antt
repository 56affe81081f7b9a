-- ===== src/Receiver/Delivery.antt =====
-- A file that is sent in pieces, and what the receiver makes of its frames
-- (crates/nxfr-daemon/src/receiver.rs).
use nxfr.Prelude.{
  append_assoc, append-nil, list_eq_refl, ==_refl, IsU64, ◌%◌, ◌^◌, ◌∙◌, ap, ◌≡◌, refl, arith, ◌≤◌,
  ◌<◌, All, length-append, ℕ, List, [], ◌∷◌, ◌++◌, Option, none, some, false, ltb, ◌==◌, ◌+◌,
  length, Result,
}
use nxfr.Common.Errors.{CodecError}
use nxfr.Frame.{FrameHeader, chunk, is_last_chunk}
use nxfr.Transport.Codec.{NxfrFrame}
use nxfr.Codec.Value.{Value}
use nxfr.Codec.Messages.{chunk_ack}
use nxfr.Receiver.{
  Job, Receiving, Turn, again, finished, send, append_data, acknowledge, place_chunk, receive_chunk,
  receive_frame, receive_loop, Ending, written, conclude, start_fresh, receive_file, begin_file,
}
use nxfr.Payload.Chunk
use nxfr.Payload.Chunk.{ChunkPayload}

abbrev pub concat : List (List ℕ) → List ℕ
concat [] = []
concat (p ∷ ps) = p ++ concat ps

-- The LAST_CHUNK flag is on the last piece.
abbrev pub last_flag : List (List ℕ) → ℕ
last_flag [] = 1
last_flag (p ∷ ps) = 0

-- `next_message_id += 1`
abbrev pub next_message : ℕ → ℕ
next_message message = (message + 1) % 2 ^ 64

abbrev pub HasContent : List ℕ → Type 0
HasContent p = 0 < length p

module _ (sha256 : List ℕ → List ℕ) (job : Job) (session : ℕ) where
  abbrev pub piece_payload : ℕ → List ℕ → List ℕ
  piece_payload offset p =
      Chunk.serialize (record { offset = offset; chunk_hash = sha256 p; content = p })

  abbrev pub piece_header : ℕ → ℕ → List ℕ → List (List ℕ) → FrameHeader
  piece_header message offset p more = record {
    kind = chunk;
    flags = last_flag more;
    session_id = session;
    stream_id = job.stream_id;
    message_id = message;
    payload_len = length (piece_payload offset p) % 2 ^ 32;
  }

  -- The frames of a file's pieces, from a message and an offset on.
  unfoldable pub frames_of : ℕ → ℕ → List (List ℕ) → List NxfrFrame
  frames_of message offset [] = []
  frames_of message offset (p ∷ ps) =
      (piece_header message offset p ps, piece_payload offset p)
      ∷ frames_of (next_message message) (offset + length p) ps

  module _ (from_reader : List ℕ → Result CodecError Value)
      (width : (p : List ℕ) → length (sha256 p) ≡ 32) where
    piece-IsValid :
        (offset : ℕ) (p : List ℕ)
        → IsU64 offset
        → HasContent p
        → Chunk.IsValid (record { offset = offset; chunk_hash = sha256 p; content = p })
    piece-IsValid offset p fits some_byte = record {
      offset_fits = fits;
      hash_width = width p;
      some_content = some_byte;
    }

    -- A piece at the offset that is next is appended and acknowledged.
    piece_taken :
        (header : FrameHeader) (p : List ℕ) (s : Receiving)
        → header.stream_id ≡ job.stream_id
        → HasContent p
        → IsU64 s.received_bytes
        → s.received_bytes + length p ≤ job.expected_size
        → receive_chunk job sha256 header (piece_payload s.received_bytes p) s
          ≡ acknowledge job header s.received_bytes (length p) (append_data s p)
    unfolding receive_chunk place_chunk
    piece_taken header p s stream some_byte fits room =
        let v = piece-IsValid s.received_bytes p fits some_byte in
        let long : ltb (length (piece_payload s.received_bytes p)) 41 ≡ false =
          ground (arith, Chunk.length-serialize _ v) in
        let roomy : ltb job.expected_size (s.received_bytes + length p) ≡ false = ground arith in
        rw
          (
            stream,
            ==_refl,
            long,
            Chunk.hash_bytes _ v,
            Chunk.content_bytes _ v,
            list_eq_refl,
            Chunk.offset_read _ v,
            ==_refl,
            roomy,
          )
          refl

    loop_finishes :
        (f : NxfrFrame) (fs : List NxfrFrame) (s t : Receiving)
        → receive_frame job sha256 from_reader f s ≡ finished t
        → receive_loop job sha256 from_reader (f ∷ fs) s ≡ finished t
    unfolding receive_loop
    loop_finishes f fs s t e = rw (receive_loop, e) refl

    loop_goes_on :
        (f : NxfrFrame) (fs : List NxfrFrame) (s t : Receiving)
        → receive_frame job sha256 from_reader f s ≡ again t
        → receive_loop job sha256 from_reader (f ∷ fs) s ≡ receive_loop job sha256 from_reader fs t
    unfolding receive_loop
    loop_goes_on f fs s t e = rw (receive_loop, e) refl

    module _ (p : List ℕ) (message : ℕ) (s : Receiving) (some_byte : HasContent p)
        (fits : IsU64 job.expected_size)
        (room : s.received_bytes + length p ≤ job.expected_size) where
      abbrev after_piece : Receiving
      after_piece =
          send (chunk_ack job.stream_id message s.received_bytes (length p)) (append_data s p)

      last_piece :
          s.received_bytes + length p ≡ job.expected_size
          → receive_frame job sha256 from_reader
              (piece_header message s.received_bytes p [], piece_payload s.received_bytes p)
              s
            ≡ finished after_piece
      unfolding receive_frame acknowledge is_last_chunk
      last_piece whole =
          piece_taken (piece_header message s.received_bytes p []) p s refl some_byte (omega arith)
            room

      inner_piece :
          (q : List ℕ) (ps : List (List ℕ))
          → s.received_bytes + length p < job.expected_size
          → receive_frame job sha256 from_reader
              (piece_header message s.received_bytes p (q ∷ ps), piece_payload s.received_bytes p)
              s
            ≡ again after_piece
      unfolding receive_frame acknowledge is_last_chunk
      inner_piece q ps less =
          let unfinished : (s.received_bytes + length p == job.expected_size) ≡ false =
            ground arith in
          piece_taken (piece_header message s.received_bytes p (q ∷ ps)) p s refl some_byte
            (omega arith) room
          ∙ rw unfinished refl

    pieces_collected :
        (ps : List (List ℕ)) (p : List ℕ) (message : ℕ) (s : Receiving)
        → HasContent p
        → All HasContent ps
        → IsU64 job.expected_size
        → s.received_bytes + length (concat (p ∷ ps)) ≡ job.expected_size
        → s.part ≡ s.hashed
        → (t : Receiving) × (receive_loop job sha256 from_reader
              (frames_of message s.received_bytes (p ∷ ps))
              s
            ≡ finished t)
          × (t.part ≡ s.part ++ concat (p ∷ ps))
          × (t.hashed ≡ t.part)
          × (t.received_bytes ≡ job.expected_size)
    unfolding frames_of
    pieces_collected [] p message s some_byte more fits total same =
        let len = length-append p [] in
        (
          send (chunk_ack job.stream_id message s.received_bytes (length p)) (append_data s p),
          loop_finishes _ [] s _
              (last_piece p message s some_byte fits (omega arith) (omega arith)),
          rw append-nil refl,
          rw same refl,
          omega arith,
        )
    pieces_collected (q ∷ ps) p message s some_byte more fits total same =
        let u =
          send (chunk_ack job.stream_id message s.received_bytes (length p)) (append_data s p) in
        let len = length-append p (concat (q ∷ ps)) in
        let rest = length-append q (concat ps) in
        let some_more = more.0 in
        let (t, loops, part, hash, size) =
          pieces_collected ps q (next_message message) u more.0 more.1 fits (omega arith)
            (rw same refl) in
        (
          t,
          loop_goes_on _ _ s _
                (inner_piece p message s some_byte fits (omega arith) q ps (omega arith))
              ∙ loops,
          part ∙ append_assoc s.part p (concat (q ∷ ps)),
          hash,
          size,
        )

    finished_written :
        (turn : Turn) (t : Receiving)
        → turn ≡ finished t
        → t.hashed ≡ t.part
        → t.received_bytes ≡ job.expected_size
        → sha256 t.part ≡ job.expected_hash
        → conclude sha256 job turn ≡ written t.part
    unfolding conclude
    finished_written turn t ends same size hash =
        rw (ends, same, hash, size, list_eq_refl, ==_refl) refl

    -- Without a note in the journal the `.part` file is begun anew.
    fresh_start :
        (found : Option (List ℕ)) (frames : List NxfrFrame) (ending : Ending)
        → conclude sha256 job (receive_loop job sha256 from_reader frames (start_fresh none))
          ≡ ending
        → begin_file sha256 from_reader job none found frames false ≡ ending
    fresh_start none frames ending e = e
    fresh_start (some part) frames ending e = e

    -- A file that is sent in any non-empty pieces, in order and each in a CHUNK frame with its offset and
    -- its 32-byte hash, to a receiver whose journal does not know it, is put in its place as it was, if
    -- its size, below 2^64, and its hash are the announced ones.
    pub file_delivered :
        (p : List ℕ) (ps : List (List ℕ)) (message : ℕ) (found : Option (List ℕ))
        → All HasContent (p ∷ ps)
        → IsU64 job.expected_size
        → length (concat (p ∷ ps)) ≡ job.expected_size
        → sha256 (concat (p ∷ ps)) ≡ job.expected_hash
        → receive_file sha256 from_reader job none found (frames_of message 0 (p ∷ ps))
          ≡ written (concat (p ∷ ps))
    unfolding receive_file
    file_delivered p ps message found more fits total hash =
        let (t, loops, part, same, size) =
          pieces_collected ps p message (start_fresh none) more.0 more.1 fits (omega arith) refl in
        fresh_start found (frames_of message 0 (p ∷ ps)) (written (concat (p ∷ ps)))
          (finished_written _ t loops same size (rw part hash) ∙ ap written part)
