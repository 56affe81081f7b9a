-- ===== src/Codec/Refusals.antt =====
-- crates/nxfr-core/src/codec.rs: when `encode_to_map` and `encode_control` refuse a message.
use nxfr.Prelude.{ℕ, ◌≡◌, refl, err, arith, length, ◌<◌, ◌↔◌}
use nxfr.Common.Errors.{CodecError, manifest_too_large}
use nxfr.Common.Limits.{max_manifest_entries}
use nxfr.Codec.Messages.{Offer, ControlMessage, hello, transfer_request}
use nxfr.Codec.Encode.{encode_to_map}

-- The offer of a message whose manifest is over the limit.
abbrev pub IsOverfull : ControlMessage → ℕ → Type 0
IsOverfull msg n =
    (o : Offer) × (msg ≡ transfer_request o) × (length o.manifest ≡ n) × (max_manifest_entries < n)

-- The map of a message is refused exactly if it is a transfer request with more than 500 entries, and
-- the error gives their number.
pub encode_refusal :
    (msg : ControlMessage) (e : CodecError)
    → (encode_to_map msg ≡ err e) ↔ ((n : ℕ) × (e ≡ manifest_too_large n) × IsOverfull msg n)
unfolding encode_to_map
encode_refusal msg e = (only msg, there msg)
  where
    only :
        (msg : ControlMessage)
        → encode_to_map msg ≡ err e
        → (n : ℕ) × (e ≡ manifest_too_large n) × IsOverfull msg n
    only (transfer_request o) h = (length o.manifest, ground arith, (o, refl, refl, ground arith))
    only (hello g) h = cc
    only _ h = cc

    there :
        (msg : ControlMessage)
        → ((n : ℕ) × (e ≡ manifest_too_large n) × IsOverfull msg n)
        → encode_to_map msg ≡ err e
    there msg (n, same, (o, is, count, over)) = rw is (ground arith)
