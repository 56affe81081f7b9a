-- ===== src/Codec/WellFormed.antt =====
-- The control messages that the types of crates/nxfr-core/src/messages.rs allow and that the wire can
-- carry: words and byte arrays have their widths, a platform and an error code are what their names
-- read as, an error has no details, a manifest is within the limit and each of its files has a size
-- and a hash, and the files of a resume status are there only if it says that it can be resumed.
use nxfr.Prelude.{ℕ, List, ◌≡◌, ◌≤◌, length, All, IsU32, IsU64, Option, none, some, true, false}
use nxfr.Common.Limits.{max_manifest_entries}
use nxfr.Common.Platform.{IsCanonical}
use nxfr.ErrorCode.{IsCanonical as IsCanonicalCode}
use nxfr.Codec.Messages.{
  file, dir, ManifestEntry, ResumeFileStatus, Greeting, Offer, Metadata, ControlMessage, hello,
  hello_ack, pair_request, pair_accept, pair_reject, session_close, error, transfer_request,
  transfer_accept, transfer_reject, file_metadata, file_metadata_ack, chunk_ack, transfer_pause,
  transfer_resume, transfer_cancel, transfer_complete, transfer_ack, resume_query, resume_status,
  ManifestEntryType,
}

abbrev pub IsTransferId : List ℕ → Type 0
IsTransferId id = length id ≡ 16

abbrev pub IsHash : List ℕ → Type 0
IsHash hash = length hash ≡ 32

abbrev pub Optionally {ℓ} : {A : Type ℓ} → (A → Type 0) → Option A → Type 0
Optionally P none = Unit {0}
Optionally P (some a) = P a

-- A file's size and hash, of a directory only those that are there.
abbrev pub IsSized : ManifestEntryType → Option ℕ → Option (List ℕ) → Type 0
IsSized file (some n) (some hash) = IsU64 n × IsHash hash
IsSized file _ _ = ⊥
IsSized dir size hash = Optionally IsU64 size × Optionally IsHash hash

pub record IsManifestEntry (e : ManifestEntry) : Type 0 where
  pub file_id_fits : IsU32 e.file_id
  pub sized : IsSized e.entry_type e.size e.sha256

abbrev pub IsRange : ℕ × ℕ → Type 0
IsRange (offset, len) = IsU64 offset × IsU64 len

pub record IsResumeFile (f : ResumeFileStatus) : Type 0 where
  pub file_id_fits : IsU32 f.file_id
  pub received_fits : IsU64 f.received_bytes
  pub ranges_fit : All IsRange f.received_ranges
  pub hash_width : Optionally IsHash f.partial_sha256

pub record IsGreeting (g : Greeting) : Type 0 where
  pub major_fits : IsU32 (g.protocol_version.major)
  pub minor_fits : IsU32 (g.protocol_version.minor)
  pub id_width : length g.device_id ≡ 32
  pub platform_known : IsCanonical g.platform

pub record IsOffer (o : Offer) : Type 0 where
  pub id_width : IsTransferId o.transfer_id
  pub total_files_fits : IsU32 o.total_files
  pub total_size_fits : IsU64 o.total_size
  pub manifest_fits : length o.manifest ≤ max_manifest_entries
  pub manifest_entries : All IsManifestEntry o.manifest

pub record IsMetadata (f : Metadata) : Type 0 where
  pub id_width : IsTransferId f.transfer_id
  pub file_id_fits : IsU32 f.file_id
  pub stream_id_fits : IsU32 f.stream_id
  pub size_fits : IsU64 f.size
  pub hash_width : IsHash f.sha256
  pub modified_fits : Optionally IsU64 f.modified_time

abbrev pub IsWellFormed : ControlMessage → Type 0
IsWellFormed (hello g) = IsGreeting g
IsWellFormed (hello_ack g session_id) = IsGreeting g × IsU32 session_id
IsWellFormed (pair_request m) = Unit {0}
IsWellFormed pair_accept = Unit {0}
IsWellFormed (pair_reject r) = Unit {0}
IsWellFormed (session_close r) = Unit {0}
IsWellFormed (error code message fatal details) = IsCanonicalCode code × (details ≡ none)
IsWellFormed (transfer_request o) = IsOffer o
IsWellFormed (transfer_accept id) = IsTransferId id
IsWellFormed (transfer_reject id r) = IsTransferId id
IsWellFormed (file_metadata f) = IsMetadata f
IsWellFormed (file_metadata_ack id file_id stream_id a) =
    IsTransferId id × (IsU32 file_id × IsU32 stream_id)
IsWellFormed (chunk_ack s m o l) = IsU32 s × (IsU64 m × (IsU64 o × IsU64 l))
IsWellFormed (transfer_pause id) = IsTransferId id
IsWellFormed (transfer_resume id) = IsTransferId id
IsWellFormed (transfer_cancel id r) = IsTransferId id
IsWellFormed (transfer_complete id) = IsTransferId id
IsWellFormed (transfer_ack id s failed) = IsTransferId id × Optionally (All IsU32) failed
IsWellFormed (resume_query id ids) = IsTransferId id × Optionally (All IsU32) ids
IsWellFormed (resume_status id true fs expiry) =
    IsTransferId id × (Optionally (All IsResumeFile) fs × Optionally IsU64 expiry)
IsWellFormed (resume_status id false fs expiry) =
    IsTransferId id × ((fs ≡ none) × Optionally IsU64 expiry)
