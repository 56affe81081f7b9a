-- ===== src/Daemon/Progress.antt =====
-- crates/nxfr-daemon/src/handler.rs: the state of a transfer that comes in, and what its journal has of each file.
use nxfr.Prelude.{
  ℕ, String, codes, List, [], ◌∷◌, ◌++◌, Option, none, some, Bool, false, ltb, ◌==◌, if◌then◌else◌,
  Result,
}
use nxfr.Common.Errors.{CodecError}
use nxfr.Transport.Codec.{NxfrFrame}
use nxfr.Codec.Value.{Value}
use nxfr.Codec.Messages.{ControlMessage}
use nxfr.Path.Jail.{FilePath, FileSystem}
use nxfr.Receiver.{Receiving, Turn, again, finished, failed}
use nxfr.Storage.Journal.{ResumeManifestEntry, ResumeFileState, ResumeState, Directory}

abbrev pub FileStates : Type 0
FileStates = List (ℕ × ResumeFileState)

-- `files.get(&file_id)`
unfoldable pub get_state : ℕ → FileStates → Option ResumeFileState
get_state id [] = none
get_state id ((i, fs) ∷ files) = if i == id then some fs else get_state id files

-- `files.remove(&file_id)`
unfoldable pub remove_state : ℕ → FileStates → FileStates
remove_state id [] = []
remove_state id ((i, fs) ∷ files) =
    let rest = remove_state id files in if i == id then rest else (i, fs) ∷ rest

-- `files.insert(file_id, …)`
abbrev pub insert_state : ℕ → ResumeFileState → FileStates → FileStates
insert_state id fs files = (id, fs) ∷ remove_state id files

-- The variables of the call, and what it has done: the journal's directory, the directories and files
-- that it made, each with its content, the `.part` files that it removed, and the messages it sent.
pub record Incoming : Type 0 where
  pub resume_state : ResumeState
  pub received_files : ℕ
  pub store : Directory
  pub made : List FilePath
  pub landed : List (FilePath × List ℕ)
  pub removed : List FilePath
  pub sent : List ControlMessage

abbrev pub send : ControlMessage → Incoming → Incoming
send msg s = record s { sent = s.sent ++ (msg ∷ []) }

-- How a turn of the loop ends: with the frames that are left, with the return of the call, or with an
-- error of the call.
pub data Turned : Type 0 where
  more : List NxfrFrame → Incoming → Turned
  returned : List NxfrFrame → Incoming → Turned
  broken : (why : String) → Incoming → Turned
  exhausted : Turned

-- `dest.with_extension(…)`: the name of the file with `.part` behind it.
abbrev pub part_path : FilePath → FilePath
part_path [] = []
part_path (c ∷ []) = (c ++ codes ".part") ∷ []
part_path (c ∷ d ∷ path) = c ∷ part_path (d ∷ path)

-- `find(|m| m.file_id == file_id).map(|m| m.sha256.clone()).unwrap_or_default()`
abbrev pub manifest_sha : ℕ → List ResumeManifestEntry → List ℕ
manifest_sha id [] = []
manifest_sha id (m ∷ ms) = if m.file_id == id then m.sha256 else manifest_sha id ms

-- `is_some_and(|fs| fs.received_bytes > 0)`
abbrev pub has_progress : Option ResumeFileState → Bool
has_progress none = false
has_progress (some fs) = ltb 0 fs.received_bytes

abbrev pub progress_of : Option ResumeFileState → Option ℕ
progress_of none = none
progress_of (some fs) = some fs.received_bytes

abbrev pub fresh_state : List ℕ → ResumeFileState
fresh_state dest_path = record {
  received_bytes = 0;
  received_ranges = [];
  partial_sha256 = none;
  dest_path = dest_path;
}

-- What `receive_file` leaves in the entry: the count, and one range from the start of the file, if it
-- took a new chunk.
abbrev pub noted : ℕ → Option ℕ → Option ResumeFileState → FileStates → FileStates
noted id (some n) (some fs) files =
    if n == fs.received_bytes
    then files
    else insert_state id (record fs { received_bytes = n; received_ranges = (0, n) ∷ [] }) files
noted id _ _ files = files

abbrev pub receiving_of : Turn → Receiving
receiving_of (again s) = s
receiving_of (finished s) = s
receiving_of (failed why removed s) = s

-- What the call is given and what is asked of the world: the hash, the readers and the writer of CBOR and
-- JSON, the file system, the `.part` files and the time in seconds when a number of frames is still to
-- come, the download directory and the transfer.
pub record Setting : Type 0 where
  pub sha256 : List ℕ → List ℕ
  pub from_reader : List ℕ → Result CodecError Value
  pub to_vec : ResumeState → List ℕ
  pub fs : ℕ → FileSystem
  pub part_at : ℕ → FilePath → Option (List ℕ)
  pub seconds : ℕ → ℕ
  pub receive_dir : FilePath
  pub transfer_id : List ℕ
