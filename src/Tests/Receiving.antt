-- ===== src/Tests/Receiving.antt =====
-- A file of three bytes that is received in two pieces, with a stand-in for the hash.
use nxfr.Prelude.{
  ℕ, All, List, [], ◌∷◌, ◌≡◌, refl, none, arith, length, replicate, length-replicate, Result, err,
}
use nxfr.Common.Errors.{CodecError, cbor_decode}
use nxfr.Codec.Value.{Value}
use nxfr.Transport.Codec.{NxfrFrame}
use nxfr.Receiver.{Job, conclude, receive_file, receive_loop, written, start_from}
use nxfr.Receiver.Integrity.{
  IsWithin, Leaves, in_place, state_of, acks_are_stored, receive_file_verified,
}
use nxfr.Receiver.Delivery.{frames_of, file_delivered}

abbrev digest : List ℕ → List ℕ
digest bytes = replicate 32 (length bytes)

abbrev no_message : List ℕ → Result CodecError Value
no_message bytes = err (cbor_decode "not supported")

abbrev content : List ℕ
content = 10 ∷ 20 ∷ 30 ∷ []

abbrev job : Job
job = record { stream_id = 2; expected_size = 3; expected_hash = digest content }

abbrev frames : List NxfrFrame
frames = frames_of digest job 1 5 0 ((10 ∷ 20 ∷ []) ∷ (30 ∷ []) ∷ [])

digest_width : (bytes : List ℕ) → length (digest bytes) ≡ 32
digest_width bytes = length-replicate 32 (length bytes)

file_delivered_example : receive_file digest no_message job none none frames ≡ written content
file_delivered_example =
    file_delivered digest job 1 no_message digest_width (10 ∷ 20 ∷ []) ((30 ∷ []) ∷ []) 5 none
      (omega arith, (omega arith, tt)) (omega arith) refl refl

content_comes : receive_file digest no_message job none none frames ≡ written content
content_comes =
    file_delivered digest job 1 no_message digest_width (10 ∷ 20 ∷ []) ((30 ∷ []) ∷ []) 5 none
      (omega arith, (omega arith, tt)) (omega arith) refl refl

receive_file_verified_example :
    (digest content ≡ job.expected_hash) × (length content ≡ job.expected_size)
receive_file_verified_example =
    receive_file_verified job digest no_message none none frames content content_comes

left_content :
    Leaves
      (conclude digest job (receive_loop job digest no_message frames (start_from none [])))
      content
unfolding receive_file
left_content = rw content_comes (in_place content)

acks_are_stored_example :
    All
      (IsWithin (length content))
      (state_of (receive_loop job digest no_message frames (start_from none []))).sent
    × (content ≡ (state_of (receive_loop job digest no_message frames (start_from none []))).hashed)
acks_are_stored_example = acks_are_stored job digest no_message none [] frames content left_content
