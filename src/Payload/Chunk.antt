-- ===== src/Payload/Chunk.antt =====
-- crates/nxfr-core/src/chunk.rs: offset, hash and data of a chunk. SHA-256 is the crate `sha2`'s,
-- and stands as the argument `sha256`.
use nxfr.Prelude.{
  to_be_bytes-field_at, from_be_bytes-field_at_lt, ℕ, List, ◌++◌, Bool, true, ◌≡◌, length, take,
  drop, ltb, list_eq, list_eq→eq, list_eq_refl, Result, ok, ◌>>◌, reject_if, to_be_bytes,
  from_be_bytes, from_be_bytes-to_be_bytes, IsU64, IsByte, All, arith, ◌≤◌, ◌<◌, ◌%◌, ◌^◌,
  length-append, length-take, length-drop, length-to_be_bytes, take-append_self, drop-append_self,
  ◌∙◌, ◌+◌, drop-add, take-append-drop, ◌↔◌,
}
use nxfr.Common.Errors.{FrameError, chunk_payload_too_small}

pub record ChunkPayload : Type 0 where
  pub offset : ℕ
  pub chunk_hash : List ℕ
  pub content : List ℕ

unfoldable pub parse : List ℕ → Result FrameError ChunkPayload
parse payload = do
  reject_if (ltb (length payload) 41) (chunk_payload_too_small (length payload % 2 ^ 32))
  ok (record {
    offset = from_be_bytes (take 8 payload);
    chunk_hash = take 32 (drop 8 payload);
    content = drop 40 payload;
  })

unfoldable pub serialize : ChunkPayload → List ℕ
serialize c = to_be_bytes 8 c.offset ++ (c.chunk_hash ++ c.content)

unfoldable pub verify_hash : (List ℕ → List ℕ) → ChunkPayload → Bool
verify_hash sha256 c = list_eq c.chunk_hash (sha256 c.content)

-- What the Rust types promise of a chunk, and at least one byte of data.
pub record IsValid (c : ChunkPayload) : Type 0 where
  pub offset_fits : IsU64 c.offset
  pub hash_width : length c.chunk_hash ≡ 32
  pub some_content : 0 < length c.content

module _ (c : ChunkPayload) (v : IsValid c) where
  pub length-serialize : length (serialize c) ≡ 40 + length c.content
  unfolding serialize
  length-serialize = omega (
    arith,
    length-append (to_be_bytes 8 c.offset) (c.chunk_hash ++ c.content),
    length-append c.chunk_hash c.content,
    length-to_be_bytes 8 c.offset,
    v.hash_width,
  )

  pub offset_bytes : take 8 (serialize c) ≡ to_be_bytes 8 c.offset
  unfolding serialize
  offset_bytes =
      rw (length-to_be_bytes 8 c.offset) at
        (take-append_self (to_be_bytes 8 c.offset) (c.chunk_hash ++ c.content))

  after_offset : drop 8 (serialize c) ≡ c.chunk_hash ++ c.content
  unfolding serialize
  after_offset =
      rw (length-to_be_bytes 8 c.offset) at
        (drop-append_self (to_be_bytes 8 c.offset) (c.chunk_hash ++ c.content))

  pub hash_bytes : take 32 (drop 8 (serialize c)) ≡ c.chunk_hash
  hash_bytes = rw after_offset (rw v.hash_width at (take-append_self c.chunk_hash c.content))

  pub content_bytes : drop 40 (serialize c) ≡ c.content
  content_bytes =
      drop-add 8 32 (serialize c)
      ∙ rw after_offset (rw v.hash_width at (drop-append_self c.chunk_hash c.content))

  pub offset_read : from_be_bytes (take 8 (serialize c)) ≡ c.offset
  offset_read = rw offset_bytes (from_be_bytes-to_be_bytes 8 c.offset v.offset_fits)

  -- A chunk with data, a 64-bit offset and a 32-byte hash is read back as it was written.
  pub chunk_reads_back : parse (serialize c) ≡ ok c
  unfolding parse
  chunk_reads_back = ground (
    arith,
    length-serialize,
    offset_bytes,
    hash_bytes,
    content_bytes,
    from_be_bytes-to_be_bytes 8 c.offset,
    v.offset_fits,
    v.some_content,
  )

module _ (payload : List ℕ) (c : ChunkPayload) (bytes : All IsByte payload) where
  -- The bytes that are read as a chunk are the bytes that it is written as.
  pub serialize-parse : parse payload ≡ ok c → serialize c ≡ payload
  unfolding parse serialize
  serialize-parse e =
      let long : 41 ≤ length payload = ground arith in
      ground (
        arith,
        to_be_bytes-field_at payload 0 8 bytes,
        drop-add 8 32 payload,
        take-append-drop 32 (drop 8 payload),
        take-append-drop 8 payload,
      )

  pub parse-IsValid : parse payload ≡ ok c → IsValid c
  unfolding parse
  parse-IsValid e =
      let long : 41 ≤ length payload = ground arith in
      ground (
        arith,
        from_be_bytes-field_at_lt payload 0 8 bytes,
        length-take 32 (drop 8 payload),
        length-drop 8 payload,
        length-drop 40 payload,
      )

-- A chunk read off the wire verifies exactly if its 32 hash bytes are the hash of its data bytes.
pub verify_hash-parse :
    (sha256 : List ℕ → List ℕ) (payload : List ℕ) (c : ChunkPayload)
    → parse payload ≡ ok c
    → (verify_hash sha256 c ≡ true) ↔ (take 32 (drop 8 payload) ≡ sha256 (drop 40 payload))
unfolding parse verify_hash
verify_hash-parse sha256 payload c e =
    let (hash, content) = fields in
    rw (hash, content) (list_eq→eq _ _, λ same. rw same (list_eq_refl _))
  where
    fields : (c.chunk_hash ≡ take 32 (drop 8 payload)) × (c.content ≡ drop 40 payload)
    fields = ground arith
