-- ===== src/Daemon/Offers.antt =====
-- crates/nxfr-daemon/src/handler.rs: how `handle_incoming` answers an offer of files and a question for
-- what can be resumed. The events for the watchers and the table of pending offers, which holds an offer
-- only while it waits for its answer, are left out.
use nxfr.Prelude.{
  ℕ, suc, ◌+◌, ◌-◌, ◌*◌, ◌%◌, ◌^◌, String, List, [], ◌∷◌, Option, none, some, Bool, true, false,
  not, ◌&&◌, ltb, ◌==◌, list_eq, length, if◌then◌else◌, any, ℤ, pos, negsuc, ltb_ℤ, Result, ok,
}
use nxfr.Codec.Messages.{
  ControlMessage, ResumeFileStatus, ManifestEntry, file, Offer, resume_status,
}
use nxfr.Storage.Devices.{Table, should_auto_accept}
use nxfr.Storage.Journal.{ResumeManifestEntry, ResumeFileState, ResumeState, ResumeError}

-- What comes of asking the user: an answer, a channel that is dropped, or 120 seconds without one.
pub data Consent : Type 0 where
  answered : Bool → Consent
  sender_dropped : Consent
  timed_out : Consent

pub data Decision : Type 0 where
  accept : Decision
  reject : (reason : String) → Decision

abbrev pub by_consent : Consent → Decision
by_consent (answered true) = accept
by_consent (answered false) = reject "user_declined"
by_consent sender_dropped = reject "connection_lost"
by_consent timed_out = reject "consent_timeout"

-- `is_paired`, and the policy of the device is "always".
abbrev pub auto_accept : Bool → List ℕ → Table → Bool
auto_accept is_paired peer_id devices = is_paired && should_auto_accept peer_id devices

unfoldable pub decide_offer : Bool → ℕ → Offer → Bool → Consent → Decision
decide_offer auto free_space offer has_watchers consent =
    if auto
    then accept
    else if ltb free_space offer.total_size
    then reject "disk_full"
    else if not has_watchers
    then reject "consent_required"
    else by_consent consent

-- `as u64`
abbrev pub as_u64 : ℤ → ℕ
as_u64 (pos n) = n % 2 ^ 64
as_u64 (negsuc n) = (2 ^ 64 - suc n % 2 ^ 64) % 2 ^ 64

-- `file_ids.as_ref().map_or(true, |ids| ids.contains(fid))`
abbrev pub is_asked : Option (List ℕ) → ℕ → Bool
is_asked none id = true
is_asked (some ids) id = any (λ i. i == id) ids

unfoldable pub statuses : Option (List ℕ) → List (ℕ × ResumeFileState) → List ResumeFileStatus
statuses file_ids [] = []
statuses file_ids ((id, fs) ∷ files) =
    let rest = statuses file_ids files in
    if is_asked file_ids id
    then record {
      file_id = id;
      received_bytes = fs.received_bytes;
      received_ranges = fs.received_ranges;
      partial_sha256 = none;
    }
      ∷ rest
    else rest

abbrev pub no_status : List ℕ → ControlMessage
no_status transfer_id = resume_status transfer_id false none none

-- The answer to a RESUME_QUERY, from what the journal has for the transfer.
unfoldable pub answer_query :
    List ℕ → Option (List ℕ) → List ℕ → ℤ → Result ResumeError (Option ResumeState) → ControlMessage
unfolding statuses
answer_query transfer_id file_ids peer_id now (ok (some rs)) =
    if not (list_eq rs.peer_device_id peer_id)
    then no_status transfer_id
    else if ltb_ℤ rs.expires_at now
    then no_status transfer_id
    else resume_status transfer_id true (some (statuses file_ids rs.files))
        (some (as_u64 rs.expires_at))
answer_query transfer_id file_ids peer_id now _ = no_status transfer_id

-- `matches!(&resume_status, ControlMessage::ResumeStatus { resumable: true, .. })`
abbrev pub is_resumable : ControlMessage → Bool
is_resumable (resume_status id resumable files expiry) = resumable
is_resumable _ = false

-- The value of a digit, in either case.
abbrev pub digit_value : ℕ → Option ℕ
digit_value c =
    if ltb c b'0'
    then none
    else if ltb c 58
    then some (c - b'0')
    else if ltb c b'A'
    then none
    else if ltb c 71
    then some (c - b'A' + 10)
    else if ltb c b'a'
    then none
    else if ltb c 103
    then some (c - b'a' + 10)
    else none

abbrev pub byte_of : Option ℕ → Option ℕ → Option (List ℕ) → Option (List ℕ)
byte_of (some h) (some l) (some bs) = some ((16 * h + l) ∷ bs)
byte_of _ _ _ = none

-- `hex::decode`
unfoldable pub hex_decode : List ℕ → Option (List ℕ)
hex_decode [] = some []
hex_decode (c ∷ []) = none
hex_decode (c ∷ d ∷ cs) = byte_of (digit_value c) (digit_value d) (hex_decode cs)

abbrev pub if_32_bytes : Option (List ℕ) → Option (List ℕ)
if_32_bytes none = none
if_32_bytes (some bs) = if length bs == 32 then some bs else none

-- The manifest that a resumed transfer goes by.
unfoldable pub manifest_of : List ResumeManifestEntry → List ManifestEntry
unfolding hex_decode
manifest_of [] = []
manifest_of (m ∷ ms) =
    record {
      file_id = m.file_id;
      relative_path = m.relative_path;
      size = some m.size;
      sha256 = if_32_bytes (hex_decode m.sha256);
      entry_type = file;
    }
    ∷ manifest_of ms
