-- ===== src/Daemon/World.antt =====
-- crates/nxfr-daemon/src/handler.rs: what a session has to do with: the world, the daemon, and the peer.
use nxfr.Prelude.{
  ℕ, ◌+◌, ◌-◌, String, List, [], ◌∷◌, ◌++◌, Option, Bool, ltb, if◌then◌else◌, ℤ, pos, negsuc,
  Result,
}
use nxfr.Common.Errors.{CodecError}
use nxfr.Transport.Codec.{NxfrFrame}
use nxfr.Codec.Value.{Value}
use nxfr.Codec.Messages.{ControlMessage}
use nxfr.Path.Jail.{FilePath, FileSystem}
use nxfr.Identity.{IdentityError}
use nxfr.Storage.Devices.{Table}
use nxfr.Storage.Journal.{ResumeState, Directory}
use nxfr.Daemon.Offers.{Consent}

-- The world of the daemon and its configuration. `peer_cert` is the first certificate of the peer, if
-- there is one; `check_fails` and `exporter_fails` say that the database and the TLS exporter report an
-- error; `session_id` is the random one.
pub record World : Type 0 where
  pub sha256 : List ℕ → List ℕ
  pub from_reader : List ℕ → Result CodecError Value
  pub to_vec : ResumeState → List ℕ
  pub from_str : List ℕ → Option ResumeState
  pub from_der : List ℕ → Result IdentityError (List ℕ)
  pub fs : ℕ → FileSystem
  pub part_at : ℕ → FilePath → Option (List ℕ)
  pub seconds : ℕ → ℕ
  pub now : ℕ → ℤ
  pub free_space : ℕ → ℕ
  pub has_watchers : ℕ → Bool
  pub consent : ℕ → Consent
  pub receive_dir : FilePath
  pub device_id : List ℕ
  pub device_name : String
  pub receiving_enabled : Bool
  pub peer_cert : Option (List ℕ)
  pub check_fails : Bool
  pub exporter_fails : Bool
  pub session_id : ℕ

-- What the daemon keeps, what it has put on the disk, and what it sent: control messages, and the
-- payloads of the keepalives that it answered.
pub record Daemon : Type 0 where
  pub devices : Table
  pub store : Directory
  pub made : List FilePath
  pub landed : List (FilePath × List ℕ)
  pub removed : List FilePath
  pub sent : List ControlMessage
  pub pongs : List (List ℕ)

abbrev pub tell : ControlMessage → Daemon → Daemon
tell msg s = record s { sent = s.sent ++ (msg ∷ []) }

-- How a turn of the session's loop ends.
pub data Talk : Type 0 where
  next : List NxfrFrame → Daemon → Talk
  closed : Daemon → Talk
  failed : (why : String) → Daemon → Talk
  spent : Talk

-- `timestamp() + seconds`
abbrev pub add_seconds : ℤ → ℕ → ℤ
add_seconds (pos n) k = pos (n + k)
add_seconds (negsuc n) k = if ltb n k then pos (k - n - 1) else negsuc (n - k)

-- The peer of the session: its certificate, its id in hexadecimal, what the check of its key said, and
-- its name.
pub record Peer : Type 0 where
  pub cert : List ℕ
  pub id : List ℕ
  pub is_paired : Bool
  pub name : String
