-- ===== src/Transport/Payloads.antt =====
-- What the frame decoder has checked is what the payload readers need.
use nxfr.Prelude.{
  ℕ, List, ◌≡◌, some, ok, length, arith, All, IsByte, ◌⊎◌, inl, inr, from_be_bytes, take, drop,
  length-drop, ◌≤◌,
}
use nxfr.Common.Limits.{chunk_payload_max}
use nxfr.Frame.{FrameHeader, chunk, keepalive, validate_payload_len}
use nxfr.Payload.Chunk
use nxfr.Payload.Keepalive
use nxfr.Transport.Codec.{NxfrFrame, decode}
use nxfr.Transport.Frames.{decode_sound}

chunk_len :
    (h : FrameHeader)
    → h.kind ≡ chunk
    → validate_payload_len h ≡ ok tt
    → (41 ≤ h.payload_len) × (h.payload_len ≤ chunk_payload_max)
unfolding validate_payload_len
chunk_len h k e = ground arith

keepalive_len :
    (h : FrameHeader)
    → h.kind ≡ keepalive
    → validate_payload_len h ≡ ok tt
    → (h.payload_len ≡ 0) ⊎ (h.payload_len ≡ 8)
unfolding validate_payload_len
keepalive_len h k e = ground arith

abbrev pub chunk_of : List ℕ → Chunk.ChunkPayload
chunk_of payload = record {
  offset = from_be_bytes (take 8 payload);
  chunk_hash = take 32 (drop 8 payload);
  content = drop 40 payload;
}

module _ (src rest : List ℕ) (f : NxfrFrame) (bytes : All IsByte src)
    (taken : decode src ≡ (ok (some f), rest)) where
  -- The payload of every CHUNK frame that the decoder delivers is read as a chunk, with 1 to
  -- 4194264 bytes of data.
  pub chunk_frame_parses :
      f.0.kind ≡ chunk
      → (c : Chunk.ChunkPayload) × (Chunk.parse f.1 ≡ ok c)
        × (1 ≤ length c.content)
        × (length c.content ≤ 4194264)
  unfolding Chunk.parse
  chunk_frame_parses k =
      let v = (decode_sound src rest f bytes taken).0 in
      let (lo, hi) = chunk_len f.0 k v.header_valid.len_allowed in
      let len = v.announced in
      (
        chunk_of f.1,
        ground arith,
        omega (arith, length-drop 40 f.1),
        omega (arith, length-drop 40 f.1),
      )

  -- The payload of every KEEPALIVE frame that the decoder delivers is read as a keepalive.
  pub keepalive_frame_parses :
      f.0.kind ≡ keepalive → (k : Keepalive.KeepalivePayload) × (Keepalive.parse f.1 ≡ ok k)
  unfolding Keepalive.parse
  keepalive_frame_parses k =
      let v = (decode_sound src rest f bytes taken).0 in
      let len = v.announced in
      elim (keepalive_len f.0 k v.header_valid.len_allowed) [
        | inl none_sent ↦ (Keepalive.empty, ground arith)
        | inr eight ↦ (Keepalive.timestamp (from_be_bytes f.1), ground arith)
      ]
