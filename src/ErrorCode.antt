-- ===== src/ErrorCode.antt =====
-- crates/nxfr-core/src/error_code.rs: the protocol's error codes and their wire names.
use nxfr.Prelude.{
  str_eq, eq_iff, String, List, [], ◌∷◌, ◌≡◌, refl, Bool, true, false, arith, if◌then◌else◌,
}

pub data ErrorCode : Type 0 where
  unsupported_version invalid_frame payload_too_large invalid_cbor unknown_message_type : ErrorCode
  session_timeout checksum_mismatch disk_full storage_error path_rejected : ErrorCode
  transfer_not_found stream_not_found identity_changed pair_required rate_limited : ErrorCode
  internal_error manifest_too_large : ErrorCode
  unknown : String → ErrorCode

unfoldable pub is_fatal : ErrorCode → Bool
is_fatal unsupported_version = true
is_fatal invalid_frame = true
is_fatal payload_too_large = true
is_fatal invalid_cbor = true
is_fatal session_timeout = true
is_fatal identity_changed = true
is_fatal internal_error = true
is_fatal _ = false

unfoldable pub is_retryable : ErrorCode → Bool
is_retryable checksum_mismatch = true
is_retryable rate_limited = true
is_retryable _ = false

unfoldable pub as_str : ErrorCode → String
as_str unsupported_version = "unsupported_version"
as_str invalid_frame = "invalid_frame"
as_str payload_too_large = "payload_too_large"
as_str invalid_cbor = "invalid_cbor"
as_str unknown_message_type = "unknown_message_type"
as_str session_timeout = "session_timeout"
as_str checksum_mismatch = "checksum_mismatch"
as_str disk_full = "disk_full"
as_str storage_error = "storage_error"
as_str path_rejected = "path_rejected"
as_str transfer_not_found = "transfer_not_found"
as_str stream_not_found = "stream_not_found"
as_str identity_changed = "identity_changed"
as_str pair_required = "pair_required"
as_str rate_limited = "rate_limited"
as_str internal_error = "internal_error"
as_str manifest_too_large = "manifest_too_large"
as_str (unknown s) = s

-- The arms of the `match` on the text, in order; the first that fits is taken.
abbrev pub first_match : String → List (String × ErrorCode) → ErrorCode
first_match s [] = unknown s
first_match s ((name, code) ∷ arms) = if str_eq s name then code else first_match s arms

abbrev pub arms : List (String × ErrorCode)
arms =
    ("unsupported_version", unsupported_version)
    ∷ ("invalid_frame", invalid_frame)
    ∷ ("payload_too_large", payload_too_large)
    ∷ ("invalid_cbor", invalid_cbor)
    ∷ ("unknown_message_type", unknown_message_type)
    ∷ ("session_timeout", session_timeout)
    ∷ ("checksum_mismatch", checksum_mismatch)
    ∷ ("disk_full", disk_full)
    ∷ ("storage_error", storage_error)
    ∷ ("path_rejected", path_rejected)
    ∷ ("transfer_not_found", transfer_not_found)
    ∷ ("stream_not_found", stream_not_found)
    ∷ ("identity_changed", identity_changed)
    ∷ ("pair_required", pair_required)
    ∷ ("rate_limited", rate_limited)
    ∷ ("internal_error", internal_error)
    ∷ ("manifest_too_large", manifest_too_large)
    ∷ []

unfoldable pub from_wire_str : String → ErrorCode
from_wire_str s = first_match s arms

-- A code that the wire can carry: its name is read back as itself.
abbrev pub IsCanonical : ErrorCode → Type 0
IsCanonical c = from_wire_str (as_str c) ≡ c

abbrev AreNamed : List (String × ErrorCode) → Type 0
AreNamed [] = Unit {0}
AreNamed ((name, code) ∷ more) = (as_str code ≡ name) × AreNamed more

as_str-first_match :
    (s : String) (more : List (String × ErrorCode))
    → AreNamed more
    → as_str (first_match s more) ≡ s
unfolding as_str
as_str-first_match s [] h = refl
as_str-first_match s ((name, code) ∷ more) h =
    ground (arith, eq_iff s name, as_str-first_match s more h.1, h.0)

-- Every text is read as a code whose name is that text.
pub as_str-from_wire_str : (s : String) → as_str (from_wire_str s) ≡ s
unfolding from_wire_str as_str
as_str-from_wire_str s = as_str-first_match s arms names
  where
    names : AreNamed arms
    names = (
      refl,
      (
        refl,
        (
          refl,
          (
            refl,
            (
              refl,
              (
                refl,
                (
                  refl,
                  (
                    refl,
                    (refl, (refl, (refl, (refl, (refl, (refl, (refl, (refl, (refl, tt))))))))),
                  ),
                ),
              ),
            ),
          ),
        ),
      ),
    )

pub from_wire_str-IsCanonical : (s : String) → IsCanonical (from_wire_str s)
from_wire_str-IsCanonical s = rw as_str-from_wire_str refl

abbrev is_unknown : ErrorCode → Bool
is_unknown (unknown s) = true
is_unknown _ = false

-- Every known code is read back from its name, and every text, read as a code, is that code's name.
pub wire_names :
    (c : ErrorCode) (s : String)
    → is_unknown c ≡ false
    → (from_wire_str (as_str c) ≡ c) × (as_str (from_wire_str s) ≡ s)
wire_names c s h = (known c h, as_str-from_wire_str s)
  where
    known : (c : ErrorCode) → is_unknown c ≡ false → from_wire_str (as_str c) ≡ c
    known (unknown s) h = cc
    known _ h = unfold from_wire_str as_str in refl

-- An error that may be retried never closes the session.
pub fatal-not-retryable : (c : ErrorCode) → is_fatal c ≡ true → is_retryable c ≡ false
unfolding is_fatal is_retryable
fatal-not-retryable c h = ground arith
