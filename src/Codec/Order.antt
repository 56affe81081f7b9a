-- ===== src/Codec/Order.antt =====
-- crates/nxfr-core/src/codec.rs: the order of an encoded message's keys.
use Prim.Native.Nat.{Ordering}
use Prim.Native.String.{compare}
use nxfr.Prelude.{
  ℕ, String, [], ◌∷◌, ◌≡◌, refl, ok, Option, none, some, Bool, true, false, ◌&&◌, ltb, Bool-cases,
  inl, inr, length,
}
use nxfr.Common.Limits.{max_manifest_entries}
use nxfr.Codec.Map.{CborMap, insert}
use nxfr.Codec.Messages.{
  ControlMessage, hello, hello_ack, pair_request, pair_accept, pair_reject, session_close, error,
  transfer_request, transfer_accept, transfer_reject, file_metadata, file_metadata_ack, chunk_ack,
  transfer_pause, transfer_resume, transfer_cancel, transfer_complete, transfer_ack, resume_query,
  resume_status,
}
use nxfr.Codec.Encode.{encode_to_map, metadata_map}
use nxfr.Codec.Ensures.{Ensures, returns, fails}

abbrev pub precedes : String → CborMap → Bool
precedes k [] = true
precedes k ((j, v) ∷ m) = elim (compare k j) [ Ordering.lt ↦ true | _ ↦ false ]

-- Each key is before the next one, so none occurs twice.
unfoldable pub ascends : CborMap → Bool
ascends [] = true
ascends ((k, v) ∷ m) = precedes k m && ascends m

abbrev Ascends : CborMap → Type 0
Ascends m = ascends m ≡ true

ascending : (msg : ControlMessage) → Ensures Ascends (encode_to_map msg)
unfolding encode_to_map insert ascends
ascending (hello g) = returns Ascends _ refl
ascending (hello_ack g n) = returns Ascends _ refl
ascending (pair_request s) = returns Ascends _ refl
ascending pair_accept = returns Ascends _ refl
ascending (pair_reject none) = returns Ascends _ refl
ascending (pair_reject (some r)) = returns Ascends _ refl
ascending (session_close none) = returns Ascends _ refl
ascending (session_close (some r)) = returns Ascends _ refl
ascending (error c none f d) = returns Ascends _ refl
ascending (error c (some m) f d) = returns Ascends _ refl
ascending (transfer_request o) = elim (Bool-cases (ltb max_manifest_entries (length o.manifest))) [
  | inl long ↦ rw long (fails Ascends _)
  | inr short ↦ rw short (returns Ascends _ refl)
]
ascending (transfer_accept id) = returns Ascends _ refl
ascending (transfer_reject id none) = returns Ascends _ refl
ascending (transfer_reject id (some r)) = returns Ascends _ refl
ascending (file_metadata f) =
    returns Ascends (metadata_map f) (optional f.mime_type f.modified_time)
  where
    optional :
        (mime : Option String) (t : Option ℕ)
        → Ascends (
            metadata_map (record {
              transfer_id = f.transfer_id;
              file_id = f.file_id;
              stream_id = f.stream_id;
              relative_path = f.relative_path;
              size = f.size;
              sha256 = f.sha256;
              mime_type = mime;
              modified_time = t;
            }))
    optional none none = refl
    optional none (some t) = refl
    optional (some m) none = refl
    optional (some m) (some t) = refl
ascending (file_metadata_ack id f s a) = returns Ascends _ refl
ascending (chunk_ack s m o l) = returns Ascends _ refl
ascending (transfer_pause id) = returns Ascends _ refl
ascending (transfer_resume id) = returns Ascends _ refl
ascending (transfer_cancel id none) = returns Ascends _ refl
ascending (transfer_cancel id (some r)) = returns Ascends _ refl
ascending (transfer_complete id) = returns Ascends _ refl
ascending (transfer_ack id s none) = returns Ascends _ refl
ascending (transfer_ack id s (some ids)) = returns Ascends _ refl
ascending (resume_query id none) = returns Ascends _ refl
ascending (resume_query id (some ids)) = returns Ascends _ refl
ascending (resume_status id b none none) = returns Ascends _ refl
ascending (resume_status id b none (some t)) = returns Ascends _ refl
ascending (resume_status id b (some fs) none) = returns Ascends _ refl
ascending (resume_status id b (some fs) (some t)) = returns Ascends _ refl

-- The keys of an encoded message are in strictly ascending order.
pub encoded_keys_ascend :
    (msg : ControlMessage) (m : CborMap) → encode_to_map msg ≡ ok m → ascends m ≡ true
encoded_keys_ascend msg m e = (ascending msg).holds m e
