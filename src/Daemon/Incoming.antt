-- ===== src/Daemon/Incoming.antt =====
-- crates/nxfr-daemon/src/handler.rs: `handle_incoming_transfer`, which receives the files of an accepted
-- transfer. The frames come as a list; the file system and the `.part` files are asked as they are when a
-- number of frames is still to come; what the call writes is noted in its state. A send, a write and a
-- directory are taken to succeed. The texts of errors within messages and of log lines are left out.
use nxfr.Prelude.{
  ℕ, zero, suc, ◌+◌, ◌%◌, ◌^◌, String, as_bytes, hex_encode, List, [], ◌∷◌, ◌++◌, Option, none,
  some, Bool, true, false, not, ◌&&◌, ltb, ◌==◌, list_eq, if◌then◌else◌, length, ℤ, Result, ok, err,
}
use nxfr.Common.Errors.{CodecError, PathError}
use nxfr.ErrorCode.{path_rejected}
use nxfr.Frame.{FrameKind, control, chunk, keepalive}
use nxfr.Transport.Codec.{NxfrFrame}
use nxfr.Codec.Messages.{
  ControlMessage, ManifestEntry, file, dir, Metadata, success, error, file_metadata,
  file_metadata_ack, transfer_complete, transfer_ack, transfer_cancel, session_close,
}
use nxfr.Codec.Decode.{decode_control}
use nxfr.Path.Sanitizer.{sanitize_path}
use nxfr.Path.Jail.{FilePath, parent_of, join, display, resolve_safe_path}
use nxfr.Receiver.{
  Job, Receiving, again, finished, failed, Ending, written, gave_up, has_partial, receive_frame,
  receive_loop, start_fresh, start_from, receive_file,
}
use nxfr.Receiver.Collision.{resolve_collision}
use nxfr.Storage.Journal
use nxfr.Storage.Journal.{ResumeManifestEntry, ResumeFileState, ResumeState, Directory}
use nxfr.Daemon.Progress.{
  FileStates, Incoming, Setting, Turned, broken, exhausted, fresh_state, get_state, has_progress,
  insert_state, manifest_sha, more, noted, part_path, progress_of, receiving_of, remove_state,
  returned, send,
}

module _ (env : Setting) where
  abbrev pub save : Incoming → Incoming
  save s = record s { store = Journal.save env.to_vec s.resume_state s.store }

  abbrev pub with_files : FileStates → Incoming → Incoming
  with_files files s = record s { resume_state = record s.resume_state { files = files } }

  -- The frames that the loop of `receive_file` has not taken.
  unfoldable pub unread_loop : Job → List NxfrFrame → Receiving → List NxfrFrame
  unread_loop job [] s = []
  unread_loop job (f ∷ rest) s = elim (receive_frame job env.sha256 env.from_reader f s) [
    | again t ↦ unread_loop job rest t
    | finished t ↦ rest
    | failed why removed t ↦ rest
  ]

  -- Where the loop starts: behind the bytes of a `.part` file that is resumed.
  abbrev pub start_of : Option ℕ → Option (List ℕ) → Bool → Receiving
  start_of journal (some part) true = start_from journal part
  start_of journal _ _ = start_fresh journal

  -- The file is whole already, and no frame is read.
  abbrev pub is_whole : Job → Option (List ℕ) → Bool → Bool
  is_whole job (some part) true =
      length part == job.expected_size && list_eq (env.sha256 part) job.expected_hash
  is_whole job _ _ = false

  abbrev pub unread : Job → Option ℕ → Option (List ℕ) → List NxfrFrame → List NxfrFrame
  unread job journal found frames =
      if is_whole job found (has_partial journal)
      then frames
      else unread_loop job frames (start_of journal found (has_partial journal))

  abbrev pub journal_after : Job → Option ℕ → Option (List ℕ) → List NxfrFrame → Option ℕ
  journal_after job journal found frames =
      if is_whole job found (has_partial journal)
      then journal
      else (receiving_of (
          receive_loop job env.sha256 env.from_reader frames
            (start_of journal found (has_partial journal)))).journal

  -- The `.part` file is renamed to a name that is free; where the call gave up, it is kept, or was removed.
  abbrev pub land : FilePath → Ending → List NxfrFrame → Incoming → Turned
  land dest (written content) rest s =
      let final =
        resolve_collision (env.fs (length rest)).exists dest (env.seconds (length rest)) in
      more rest (record s {
        received_files = (s.received_files + 1) % 2 ^ 32;
        landed = (final, content) ∷ s.landed;
      })
  land dest (gave_up why (some part)) rest s = broken why s
  land dest (gave_up why none) rest s =
      broken why (record s { removed = part_path dest ∷ s.removed })

  abbrev pub job_of : Metadata → Job
  job_of m = record { stream_id = m.stream_id; expected_size = m.size; expected_hash = m.sha256 }

  -- The call of `receive_file`, with the entry of the file in the journal.
  unfoldable pub receive_into : Metadata → FilePath → List NxfrFrame → Incoming → Turned
  receive_into m dest rest s =
      let entry = get_state m.file_id s.resume_state.files in
      let found = env.part_at (length rest) (part_path dest) in
      let files =
        noted m.file_id (journal_after (job_of m) (progress_of entry) found rest) entry
          s.resume_state.files in
      land dest (receive_file env.sha256 env.from_reader (job_of m) (progress_of entry) found rest)
        (unread (job_of m) (progress_of entry) found rest) (save (with_files files s))

  -- The file is begun: its directory is made, and its entry, if there is no progress, and saved.
  unfoldable pub begin_file : Metadata → FilePath → List NxfrFrame → Incoming → Turned
  unfolding receive_into
  begin_file m dest rest s =
      let files =
        if has_progress (get_state m.file_id s.resume_state.files)
        then s.resume_state.files
        else insert_state m.file_id (fresh_state (display (part_path dest))) s.resume_state.files in
      receive_into m dest rest
        (save (with_files files (record s { made = s.made ++ (parent_of dest ∷ []) })))

  abbrev pub jail_error : ControlMessage
  jail_error = error path_rejected (some "PathTraversalAttempt") false none

  abbrev pub ack_file : Metadata → Bool → ControlMessage
  ack_file m accepted = file_metadata_ack env.transfer_id m.file_id m.stream_id accepted

  abbrev pub enter_jail : Metadata → Result PathError FilePath → List NxfrFrame → Incoming → Turned
  enter_jail m (err e) rest s = more rest (send jail_error s)
  enter_jail m (ok dest) rest s = begin_file m dest rest s

  -- The file was modified since its first bytes were received.
  abbrev pub is_modified : Metadata → Incoming → Bool
  is_modified m s =
      let known = manifest_sha m.file_id s.resume_state.manifest in
      has_progress (get_state m.file_id s.resume_state.files)
      && (ltb 0 (length known) && not (list_eq known (hex_encode m.sha256)))

  abbrev pub take_metadata :
      Metadata → Result PathError (List ℕ) → List NxfrFrame → Incoming → Turned
  take_metadata m (err e) rest s =
      more rest
        (send (ack_file m false) (send (error path_rejected (some "path rejected") false none) s))
  take_metadata m (ok sanitized) rest s =
      if is_modified m s
      then more rest (
          send (ack_file m false) (
            save (
              with_files (remove_state m.file_id s.resume_state.files)
                (record s { removed = part_path (join env.receive_dir sanitized) ∷ s.removed }))))
      else enter_jail m (resolve_safe_path (env.fs (length rest)) env.receive_dir sanitized) rest
          (send (ack_file m true) s)

  unfoldable pub take_message : ControlMessage → List NxfrFrame → Incoming → Turned
  take_message (file_metadata m) rest s =
      take_metadata m (sanitize_path (as_bytes m.relative_path)) rest s
  take_message (transfer_complete id) rest s =
      let t = send (transfer_ack env.transfer_id success none) s in
      returned rest (record t { store = Journal.delete (hex_encode env.transfer_id) t.store })
  take_message (transfer_cancel id reason) rest s = returned rest s
  take_message (session_close reason) rest s =
      returned rest (send (session_close (some "normal")) s)
  take_message other rest s = more rest s

  abbrev pub take_decoded : Result CodecError ControlMessage → List NxfrFrame → Incoming → Turned
  take_decoded (err e) rest s = broken "codec error" s
  take_decoded (ok msg) rest s = take_message msg rest s

  abbrev pub take_kind : FrameKind → List ℕ → List NxfrFrame → Incoming → Turned
  take_kind control payload rest s = take_decoded (decode_control env.from_reader payload) rest s
  take_kind chunk payload rest s = more rest s
  take_kind keepalive payload rest s = more rest s

  -- One turn of the loop.
  unfoldable pub take_turn : List NxfrFrame → Incoming → Turned
  take_turn [] s = broken "connection closed" s
  take_turn ((header, payload) ∷ rest) s = take_kind header.kind payload rest s

  unfoldable pub transfer_loop : ℕ → List NxfrFrame → Incoming → Turned
  transfer_loop zero frames s = exhausted
  transfer_loop (suc fuel) frames s = elim (take_turn frames s) [
    | more rest t ↦ transfer_loop fuel rest t
    | returned rest t ↦ returned rest t
    | broken why t ↦ broken why t
    | exhausted ↦ exhausted
  ]

  -- The directories of the manifest, made before the first file.
  unfoldable pub make_dirs : List ManifestEntry → List FilePath
  make_dirs [] = []
  make_dirs (e ∷ manifest) = elim e.entry_type [
    | file ↦ make_dirs manifest
    | dir ↦ elim (sanitize_path (as_bytes e.relative_path)) [
      | err why ↦ make_dirs manifest
      | ok sanitized ↦ join env.receive_dir sanitized ∷ make_dirs manifest
    ]
  ]

  abbrev pub or_zero : Option ℕ → ℕ
  or_zero none = 0
  or_zero (some n) = n

  abbrev pub hex_or_empty : Option (List ℕ) → List ℕ
  hex_or_empty none = []
  hex_or_empty (some hash) = hex_encode hash

  abbrev pub resume_entries : List ManifestEntry → List ResumeManifestEntry
  resume_entries [] = []
  resume_entries (e ∷ manifest) =
      record {
        file_id = e.file_id;
        relative_path = e.relative_path;
        size = or_zero e.size;
        sha256 = hex_or_empty e.sha256;
      }
      ∷ resume_entries manifest

  module _ (from_str : List ℕ → Option ResumeState) (now : ℤ) (day_later : ℤ) where
    abbrev pub new_state : List ℕ → String → List ManifestEntry → ResumeState
    new_state peer_id display_name manifest = record {
      transfer_id = hex_encode env.transfer_id;
      peer_device_id = peer_id;
      display_name = display_name;
      manifest = resume_entries manifest;
      files = [];
      created_at = now;
      expires_at = day_later;
      version = 1;
    }

    -- The state that is known, if it has files, or a new one.
    abbrev pub known_or_new :
        Result Journal.ResumeError (Option ResumeState) → ResumeState → ResumeState
    known_or_new (ok (some existing)) new = elim existing.files [ [] ↦ new | _ ∷ _ ↦ existing ]
    known_or_new _ new = new

    unfoldable pub handle_incoming_transfer :
        List ℕ → String → List ManifestEntry → Directory → List NxfrFrame → Turned
    unfolding transfer_loop make_dirs
    handle_incoming_transfer peer_id display_name manifest store frames =
        transfer_loop (suc (length frames)) frames (record {
          resume_state =
              known_or_new (Journal.load from_str (hex_encode env.transfer_id) store)
                (new_state peer_id display_name manifest);
          received_files = 0;
          store = store;
          made = make_dirs manifest;
          landed = [];
          removed = [];
          sent = [];
        })
