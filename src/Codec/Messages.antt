-- ===== src/Codec/Messages.antt =====
-- crates/nxfr-core/src/messages.rs: the control messages. A device id, a transfer id and a hash are
-- their lists of bytes; machine words are numbers.
use nxfr.Prelude.{ℕ, String, List, Option, Bool}
use nxfr.Common.Platform.{Platform, ProtocolVersion}
use nxfr.ErrorCode.{ErrorCode}

pub data ManifestEntryType : Type 0 where
  file dir : ManifestEntryType

pub record ManifestEntry : Type 0 where
  pub file_id : ℕ
  pub relative_path : String
  pub size : Option ℕ
  pub sha256 : Option (List ℕ)
  pub entry_type : ManifestEntryType

pub data TransferType : Type 0 where
  files directory : TransferType

pub record ResumeFileStatus : Type 0 where
  pub file_id : ℕ
  pub received_bytes : ℕ
  pub received_ranges : List (ℕ × ℕ)
  pub partial_sha256 : Option (List ℕ)

pub data TransferAckStatus : Type 0 where
  success partial_failure : TransferAckStatus

-- What HELLO and HELLO_ACK share.
pub record Greeting : Type 0 where
  pub protocol_version : ProtocolVersion
  pub device_id : List ℕ
  pub device_name : String
  pub platform : Platform
  pub capabilities : List String
  pub is_paired : Bool

pub record Offer : Type 0 where
  pub transfer_id : List ℕ
  pub transfer_type : TransferType
  pub display_name : String
  pub total_files : ℕ
  pub total_size : ℕ
  pub manifest : List ManifestEntry

pub record Metadata : Type 0 where
  pub transfer_id : List ℕ
  pub file_id : ℕ
  pub stream_id : ℕ
  pub relative_path : String
  pub size : ℕ
  pub sha256 : List ℕ
  pub mime_type : Option String
  pub modified_time : Option ℕ

-- A message with five or more fields holds them in a record; the others, in the source's order.
pub data ControlMessage : Type 0 where
  hello : Greeting → ControlMessage
  hello_ack : Greeting → (session_id : ℕ) → ControlMessage
  pair_request : (sas_method : String) → ControlMessage
  pair_accept : ControlMessage
  pair_reject : (reason : Option String) → ControlMessage
  session_close : (reason : Option String) → ControlMessage
  error :
      (code : ErrorCode) (message : Option String) (fatal : Bool)
      (details : Option (List (String × String)))
      → ControlMessage
  transfer_request : Offer → ControlMessage
  transfer_accept : (transfer_id : List ℕ) → ControlMessage
  transfer_reject : (transfer_id : List ℕ) (reason : Option String) → ControlMessage
  file_metadata : Metadata → ControlMessage
  file_metadata_ack :
      (transfer_id : List ℕ) (file_id stream_id : ℕ) (accepted : Bool) → ControlMessage
  chunk_ack : (stream_id message_id offset length : ℕ) → ControlMessage
  transfer_pause : (transfer_id : List ℕ) → ControlMessage
  transfer_resume : (transfer_id : List ℕ) → ControlMessage
  transfer_cancel : (transfer_id : List ℕ) (reason : Option String) → ControlMessage
  transfer_complete : (transfer_id : List ℕ) → ControlMessage
  transfer_ack :
      (transfer_id : List ℕ) (status : TransferAckStatus) (failed_files : Option (List ℕ))
      → ControlMessage
  resume_query : (transfer_id : List ℕ) (file_ids : Option (List ℕ)) → ControlMessage
  resume_status :
      (transfer_id : List ℕ) (resumable : Bool) (files : Option (List ResumeFileStatus))
      (expiry : Option ℕ)
      → ControlMessage

-- `type_code`
unfoldable pub type_code : ControlMessage → ℕ
type_code (hello g) = 0x01
type_code (hello_ack g n) = 0x02
type_code (pair_request m) = 0x03
type_code pair_accept = 0x04
type_code (pair_reject r) = 0x05
type_code (session_close r) = 0x06
type_code (error c m f d) = 0x09
type_code (transfer_request o) = 0x10
type_code (transfer_accept t) = 0x11
type_code (transfer_reject t r) = 0x12
type_code (file_metadata f) = 0x13
type_code (file_metadata_ack t f s a) = 0x14
type_code (chunk_ack s m o l) = 0x15
type_code (transfer_pause t) = 0x16
type_code (transfer_resume t) = 0x17
type_code (transfer_cancel t r) = 0x18
type_code (transfer_complete t) = 0x19
type_code (transfer_ack t s f) = 0x1a
type_code (resume_query t f) = 0x20
type_code (resume_status t r f e) = 0x21
