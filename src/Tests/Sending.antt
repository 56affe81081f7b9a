-- ===== src/Tests/Sending.antt =====
-- A file of three bytes that is sent and received, with a stand-in for the hash, and one with no bytes.
use nxfr.Prelude.{
  ℕ, List, [], ◌∷◌, ◌≡◌, ◌≢◌, ◌⊎◌, ◌≤◌, refl, none, arith, length, replicate, length-replicate,
  codes, Result, ok, err, Bool, true, false, list_eq, ◌||◌,
}
use nxfr.Common.Errors.{CodecError, cbor_decode}
use nxfr.Frame.{FrameHeader, control}
use nxfr.Codec.Value.{
  Value, map_value, entry, end, text, integer, pos, check_nesting_depth, check_entries,
}
use nxfr.Codec.Map.{insert, get, to_cbor_map, collect_entries}
use nxfr.Codec.Getters.{get_uint, get_required}
use nxfr.Codec.Decode.{decode_value, decode_map, decode_as, decode_control, decode_chunk_ack}
use nxfr.Transport.Codec.{NxfrFrame}
use nxfr.Path.Jail.{FilePath, parent_of, file_name}
use nxfr.Receiver.{Job, receive_file, written}
use nxfr.Receiver.Empty.{empty_file_stuck}
use nxfr.Receiver.Collision.{
  resolve_collision, first_free, candidate, rsplit_dot, decimal, fallback, collision_free, AllTaken,
}
use nxfr.Sender.{Sending, ready, exhausted, send_file, send_file_resume}
use nxfr.Sender.Rounds.{Ends, Logged, frames_sent}
use nxfr.Sender.Window.{Settled, sending_terminates, window_kept}
use nxfr.Sender.Pieces.{cut}
use nxfr.Sender.Arrival.{AllAcks, chunks_left, sent_file_arrives}

abbrev digest : List ℕ → List ℕ
digest bytes = replicate 32 (length bytes)

digest_width : (bytes : List ℕ) → length (digest bytes) ≡ 32
digest_width bytes = length-replicate 32 (length bytes)

-- Every message is a CHUNK_ACK.
abbrev ack_reader : List ℕ → Result CodecError Value
ack_reader bytes = ok (
    map_value (
      entry (text "type") (integer (pos 0x15)) (
        entry (text "stream_id") (integer (pos 2)) (
          entry (text "message_id") (integer (pos 1)) (
            entry (text "offset") (integer (pos 0))
              (entry (text "length") (integer (pos 3)) end))))))

abbrev no_message : List ℕ → Result CodecError Value
no_message bytes = err (cbor_decode "not supported")

abbrev content : List ℕ
content = 10 ∷ 20 ∷ 30 ∷ []

abbrev job : Job
job = record { stream_id = 2; expected_size = 3; expected_hash = digest content }

abbrev ack_header : FrameHeader
ack_header = record {
  kind = control;
  flags = 0;
  session_id = 1;
  stream_id = 0;
  message_id = 1;
  payload_len = 1;
}

abbrev frames : List NxfrFrame
frames = (ack_header, 0 ∷ []) ∷ []

sending_terminates_example :
    (send_file ack_reader digest 1 2 content 5 frames ≢ exhausted)
    × (send_file_resume ack_reader digest 1 2 content ((1, 1) ∷ []) 5 frames ≢ exhausted)
sending_terminates_example = sending_terminates ack_reader digest 1 2 content ((1, 1) ∷ []) 5 frames

window_kept_example :
    Ends (Settled ack_reader) (Logged ack_reader) (send_file ack_reader digest 1 2 content 5 frames)
    × Ends
        (Settled ack_reader)
        (Logged ack_reader)
        (send_file_resume ack_reader digest 1 2 content ((1, 1) ∷ []) 5 frames)
window_kept_example = window_kept ack_reader digest 1 2 content ((1, 1) ∷ []) 5 frames

one_ack : AllAcks ack_reader frames
unfolding decode_control decode_value decode_map decode_as decode_chunk_ack to_cbor_map
    collect_entries check_nesting_depth check_entries insert get get_required get_uint list_eq
one_ack = (refl, tt)

one_chunk : chunks_left ack_reader digest 1 job content 4 0 ≤ 1
unfolding cut
one_chunk = omega arith

sent_file_arrives_example :
    (t : Sending) × (send_file ack_reader digest 1 2 content 5 frames ≡ ready t)
    × (receive_file digest no_message job none none (frames_sent t.wire) ≡ written content)
sent_file_arrives_example =
    sent_file_arrives ack_reader digest 1 job content no_message digest_width 5 frames none
      (omega arith) refl (omega arith) refl one_ack one_chunk

abbrev empty_job : Job
empty_job = record { stream_id = 2; expected_size = 0; expected_hash = digest [] }

empty_file_stuck_example : receive_file digest no_message empty_job none none frames ≢ written []
empty_file_stuck_example = empty_file_stuck digest no_message empty_job refl none frames []

-- The wanted name is taken, and so is the first one beside it.
abbrev target : FilePath
target = codes "in" ∷ codes "a.txt" ∷ []

abbrev taken : FilePath → Bool
taken (dir ∷ name ∷ []) = list_eq name (codes "a.txt") || list_eq name (codes "a (1).txt")
taken path = false

collision_free_example :
    (taken (resolve_collision taken target 7) ≡ false)
    ⊎ ((resolve_collision taken target 7 ≡ fallback taken target 7)
        × (taken target ≡ true)
        × AllTaken taken target 999 1)
collision_free_example = collision_free taken target 7

second_name : resolve_collision taken target 7 ≡ codes "in" ∷ codes "a (2).txt" ∷ []
unfolding resolve_collision list_eq first_free candidate parent_of file_name rsplit_dot decimal
second_name = refl
