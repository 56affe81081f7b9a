-- ===== src/Daemon/Landed.antt =====
-- What becomes of the frames of a transfer that comes in (crates/nxfr-daemon/src/handler.rs).
use nxfr.Prelude.{
  ℕ, zero, suc, ◌<◌, ◌≤◌, ◌≡◌, refl, arith, String, List, [], ◌∷◌, ◌++◌, append_assoc,
  length-append, ◌⊎◌, true, false, All, Option, none, some, length, as_bytes, ℤ, Result, ok, err,
  Bool-cases, inl, inr,
}
use nxfr.Common.Errors.{CodecError, PathError}
use nxfr.Frame.{FrameHeader, FrameKind, control, chunk, keepalive}
use nxfr.Transport.Codec.{NxfrFrame}
use nxfr.Codec.Messages.{
  ControlMessage, ManifestEntry, Metadata, file_metadata, transfer_complete, transfer_cancel,
  session_close,
}
use nxfr.Codec.Decode.{decode_control}
use nxfr.Path.Sanitizer.{sanitize_path}
use nxfr.Path.Jail.{FilePath, resolve_safe_path}
use nxfr.Path.Confined.{IsConfined, resolve-IsConfined}
use nxfr.Receiver.{
  Job, Receiving, again, finished, failed, Ending, written, gave_up, has_partial, receive_frame,
}
use nxfr.Receiver.Integrity.{receive_file_verified}
use nxfr.Receiver.Collision.{resolve_collision, fallback, AllTaken, collision_free}
use nxfr.Storage.Journal.{ResumeState, Directory}
use nxfr.Daemon.Progress.{
  Setting, Incoming, Turned, more, returned, broken, exhausted, get_state, progress_of, part_path,
}
use nxfr.Daemon.Incoming.{
  unread_loop, unread, land, job_of, receive_into, begin_file, enter_jail, is_modified,
  take_metadata, take_message, take_decoded, take_kind, take_turn, transfer_loop,
  handle_incoming_transfer, is_whole, start_of,
}

-- The frames that are left of `frames` when the first ones were taken.
pub record LeftOf (frames rest : List NxfrFrame) : Type 0 where
  pub taken : List NxfrFrame
  pub split : frames ≡ taken ++ rest

LeftOf-trans : (a b c : List NxfrFrame) → LeftOf a b → LeftOf b c → LeftOf a c
LeftOf-trans a b c h k = record {
  taken = h.taken ++ k.taken;
  split = cc (h.split, k.split, append_assoc h.taken k.taken c);
}

length-LeftOf : (a b : List NxfrFrame) → LeftOf a b → length b ≤ length a
length-LeftOf a b h = rw h.split (omega (arith, length-append h.taken b))

behind_head : (f : NxfrFrame) (rest : List NxfrFrame) → LeftOf (f ∷ rest) rest
behind_head f rest = record { taken = f ∷ []; split = refl }

module _ (env : Setting) (came : List NxfrFrame) where
  -- A message that a CONTROL frame brought, in front of the frames that are left.
  pub record IsTold (msg : ControlMessage) (rest : List NxfrFrame) : Type 0 where
    pub header : FrameHeader
    pub payload : List ℕ
    pub at_head : LeftOf came ((header, payload) ∷ rest)
    pub is_control : header.kind ≡ control
    pub decoded : decode_control env.from_reader payload ≡ ok msg

  -- A path that the jail has let through for a file that a FILE_METADATA has announced, when that message
  -- was read, and the root's real path.
  pub record IsJailed (m : Metadata) (dest : FilePath) : Type 0 where
    pub frames_left : List NxfrFrame
    pub announced_by : IsTold (file_metadata m) frames_left
    pub sanitized : List ℕ
    pub canon : FilePath
    pub is_clean : sanitize_path (as_bytes m.relative_path) ≡ ok sanitized
    pub let_through :
        resolve_safe_path (env.fs (length frames_left)) env.receive_dir sanitized ≡ ok dest
    pub root_is : (env.fs (length frames_left)).canonicalize env.receive_dir ≡ ok canon
    pub confined : IsConfined (env.fs (length frames_left)) canon dest

  -- A file that was announced, whose content has the announced hash and size, and whose name is free: it is
  -- the one that the jail has let through, or one beside it if that is taken. It may be taken where the name
  -- has the time in it, and all others are taken.
  pub record IsDelivered (entry : FilePath × List ℕ) : Type 0 where
    pub announced : Metadata
    pub dest : FilePath
    pub jailed : IsJailed announced dest
    pub right_hash : env.sha256 entry.1 ≡ announced.sha256
    pub right_size : length entry.1 ≡ announced.size
    pub frames_then : List NxfrFrame
    pub then_left : LeftOf jailed.frames_left frames_then
    pub name_is :
        entry.0
        ≡ resolve_collision
            (env.fs (length frames_then)).exists
            dest
            (env.seconds (length frames_then))
    pub is_free :
        ((env.fs (length frames_then)).exists entry.0 ≡ false)
        ⊎ ((entry.0
              ≡ fallback
                  (env.fs (length frames_then)).exists
                  dest
                  (env.seconds (length frames_then)))
            × ((env.fs (length frames_then)).exists dest ≡ true)
            × AllTaken (env.fs (length frames_then)).exists dest 999 1)

  abbrev pub AllDelivered : Incoming → Type 0
  AllDelivered s = All IsDelivered s.landed

  -- The frames that are left are frames that came, and fewer than `n`.
  abbrev Later : ℕ → List NxfrFrame → Type 0
  Later n rest = (length rest < n) × LeftOf came rest

  -- How a turn ends that began with fewer than `n` frames to come.
  data Lands (n : ℕ) : Turned → Type 0 where
    goes_on :
        (rest : List NxfrFrame) (s : Incoming)
        → Later n rest
        → AllDelivered s
        → Lands n (more rest s)
    is_over : (rest : List NxfrFrame) (s : Incoming) → AllDelivered s → Lands n (returned rest s)
    is_broken : (why : String) (s : Incoming) → AllDelivered s → Lands n (broken why s)

  LeftOf-unread_loop :
      (job : Job) (frames : List NxfrFrame) (s : Receiving)
      → LeftOf frames (unread_loop env job frames s)
  unfolding unread_loop
  LeftOf-unread_loop job [] s = record { taken = []; split = refl }
  LeftOf-unread_loop job (f ∷ rest) s =
      elim (receive_frame job env.sha256 env.from_reader f s)
        as (λ turn. LeftOf (f ∷ rest) (elim turn [
          | again t ↦ unread_loop env job rest t
          | finished t ↦ rest
          | failed why removed t ↦ rest
        ])) [
          | again t ↦
              LeftOf-trans (f ∷ rest) rest _ (behind_head f rest) (LeftOf-unread_loop job rest t)
          | finished t ↦ behind_head f rest
          | failed why removed t ↦ behind_head f rest
        ]

  LeftOf-unread :
      (job : Job) (journal : Option ℕ) (found : Option (List ℕ)) (frames : List NxfrFrame)
      → LeftOf frames (unread env job journal found frames)
  LeftOf-unread job journal found frames =
      elim (Bool-cases (is_whole env job found (has_partial journal))) [
        | inl e ↦ rw e (record { taken = []; split = refl })
        | inr e ↦
            rw e (LeftOf-unread_loop job frames (start_of env journal found (has_partial journal)))
      ]

  Later-unread :
      (n : ℕ) (left rest : List NxfrFrame) → Later n rest → LeftOf rest left → Later n left
  Later-unread n left rest (fewer, behind) h =
      (omega (arith, length-LeftOf rest left h), LeftOf-trans came rest left behind h)

  land-Lands :
      (n : ℕ) (m : Metadata) (dest : FilePath) (ending : Ending) (rest : List NxfrFrame)
      (s : Incoming) (jailed : IsJailed m dest)
      → ((content : List ℕ)
          → ending ≡ written content
          → (env.sha256 content ≡ m.sha256) × (length content ≡ m.size))
      → Later n rest
      → LeftOf jailed.frames_left rest
      → AllDelivered s
      → Lands n (land env dest ending rest s)
  land-Lands n m dest (written content) rest s jailed verified fewer then_left all =
      let (hash, size) = verified content refl in
      goes_on rest _ fewer (
        record {
          announced = m;
          dest = dest;
          jailed = jailed;
          right_hash = hash;
          right_size = size;
          frames_then = rest;
          then_left = then_left;
          name_is = refl;
          is_free = collision_free (env.fs (length rest)).exists dest (env.seconds (length rest));
        },
        all,
      )
  land-Lands n m dest (gave_up why (some part)) rest s jailed verified fewer then_left all =
      is_broken why s all
  land-Lands n m dest (gave_up why none) rest s jailed verified fewer then_left all =
      is_broken why _ all

  receive_into-Lands :
      (n : ℕ) (m : Metadata) (dest : FilePath) (rest : List NxfrFrame) (s : Incoming)
      (jailed : IsJailed m dest)
      → Later n rest
      → LeftOf jailed.frames_left rest
      → AllDelivered s
      → Lands n (receive_into env m dest rest s)
  unfolding receive_into
  receive_into-Lands n m dest rest s jailed fewer then_left all =
      let entry = get_state m.file_id s.resume_state.files in
      let found = env.part_at (length rest) (part_path dest) in
      let left = LeftOf-unread (job_of env m) (progress_of entry) found rest in
      land-Lands n m dest _ (unread env (job_of env m) (progress_of entry) found rest) _ jailed
        (receive_file_verified (job_of env m) env.sha256 env.from_reader (progress_of entry) found
          rest)
        (Later-unread n _ rest fewer left) (LeftOf-trans jailed.frames_left rest _ then_left left)
        all

  begin_file-Lands :
      (n : ℕ) (m : Metadata) (dest : FilePath) (rest : List NxfrFrame) (s : Incoming)
      (jailed : IsJailed m dest)
      → Later n rest
      → LeftOf jailed.frames_left rest
      → AllDelivered s
      → Lands n (begin_file env m dest rest s)
  unfolding begin_file
  begin_file-Lands n m dest rest s jailed fewer then_left all =
      receive_into-Lands n m dest rest _ jailed fewer then_left all

  enter_jail-Lands :
      (n : ℕ) (m : Metadata) (p : List ℕ) (r : Result PathError FilePath) (rest : List NxfrFrame)
      (s : Incoming)
      → sanitize_path (as_bytes m.relative_path) ≡ ok p
      → resolve_safe_path (env.fs (length rest)) env.receive_dir p ≡ r
      → IsTold (file_metadata m) rest
      → Later n rest
      → AllDelivered s
      → Lands n (enter_jail env m r rest s)
  enter_jail-Lands n m p (err e) rest s clean through told fewer all = goes_on rest _ fewer all
  enter_jail-Lands n m p (ok dest) rest s clean through told fewer all =
      let (canon, q, root, again_clean, joined, below) =
        resolve-IsConfined (env.fs (length rest)) env.receive_dir dest p through in
      begin_file-Lands n m dest rest s
        (record {
          frames_left = rest;
          announced_by = told;
          sanitized = p;
          canon = canon;
          is_clean = clean;
          let_through = through;
          root_is = root;
          confined = below;
        })
        fewer (record { taken = []; split = refl }) all

  take_metadata-Lands :
      (n : ℕ) (m : Metadata) (r : Result PathError (List ℕ)) (rest : List NxfrFrame) (s : Incoming)
      → sanitize_path (as_bytes m.relative_path) ≡ r
      → IsTold (file_metadata m) rest
      → Later n rest
      → AllDelivered s
      → Lands n (take_metadata env m r rest s)
  take_metadata-Lands n m (err e) rest s clean told fewer all = goes_on rest _ fewer all
  take_metadata-Lands n m (ok p) rest s clean told fewer all =
      elim (Bool-cases (is_modified env m s)) [
        | inl e ↦ rw e (goes_on rest _ fewer all)
        | inr e ↦ rw e (enter_jail-Lands n m p _ rest _ clean refl told fewer all)
      ]

  take_message-Lands :
      (n : ℕ) (msg : ControlMessage) (rest : List NxfrFrame) (s : Incoming)
      → IsTold msg rest
      → Later n rest
      → AllDelivered s
      → Lands n (take_message env msg rest s)
  unfolding take_message
  take_message-Lands n (file_metadata m) rest s told fewer all =
      take_metadata-Lands n m _ rest s refl told fewer all
  take_message-Lands n (transfer_complete id) rest s told fewer all = is_over rest _ all
  take_message-Lands n (transfer_cancel id reason) rest s told fewer all = is_over rest s all
  take_message-Lands n (session_close reason) rest s told fewer all = is_over rest _ all
  take_message-Lands n other rest s told fewer all = goes_on rest s fewer all

  take_decoded-Lands :
      (n : ℕ) (r : Result CodecError ControlMessage) (rest : List NxfrFrame) (s : Incoming)
      → ((msg : ControlMessage) → r ≡ ok msg → IsTold msg rest)
      → Later n rest
      → AllDelivered s
      → Lands n (take_decoded env r rest s)
  take_decoded-Lands n (err e) rest s told fewer all = is_broken _ s all
  take_decoded-Lands n (ok msg) rest s told fewer all =
      take_message-Lands n msg rest s (told msg refl) fewer all

  take_kind-Lands :
      (n : ℕ) (kind : FrameKind) (header : FrameHeader) (payload : List ℕ) (rest : List NxfrFrame)
      (s : Incoming)
      → header.kind ≡ kind
      → LeftOf came ((header, payload) ∷ rest)
      → Later n rest
      → AllDelivered s
      → Lands n (take_kind env kind payload rest s)
  take_kind-Lands n control header payload rest s is_control at_head fewer all =
      take_decoded-Lands n _ rest s
        (λ msg decoded. record {
          header = header;
          payload = payload;
          at_head = at_head;
          is_control = is_control;
          decoded = decoded;
        })
        fewer all
  take_kind-Lands n chunk header payload rest s is_kind at_head fewer all = goes_on rest s fewer all
  take_kind-Lands n keepalive header payload rest s is_kind at_head fewer all =
      goes_on rest s fewer all

  take_turn-Lands :
      (n : ℕ) (frames : List NxfrFrame) (s : Incoming)
      → length frames ≤ n
      → LeftOf came frames
      → AllDelivered s
      → Lands n (take_turn env frames s)
  unfolding take_turn
  take_turn-Lands n [] s few behind all = is_broken _ s all
  take_turn-Lands n ((header, payload) ∷ rest) s few behind all =
      take_kind-Lands n header.kind header payload rest s refl behind
        (omega arith, LeftOf-trans came _ rest behind (behind_head (header, payload) rest)) all

  -- The call has ended, and what was put in its place was delivered.
  pub data HasEnded : Turned → Type 0 where
    over : (rest : List NxfrFrame) (s : Incoming) → AllDelivered s → HasEnded (returned rest s)
    cut_off : (why : String) (s : Incoming) → AllDelivered s → HasEnded (broken why s)

  go_on :
      (n fuel : ℕ) {turn : Turned}
      → Lands n turn
      → ((rest : List NxfrFrame) (t : Incoming)
          → Later n rest
          → AllDelivered t
          → HasEnded (transfer_loop env fuel rest t))
      → HasEnded (elim turn [
        | more rest t ↦ transfer_loop env fuel rest t
        | returned rest t ↦ returned rest t
        | broken why t ↦ broken why t
        | exhausted ↦ exhausted
      ])
  go_on n fuel (goes_on rest s fewer all) next = next rest s fewer all
  go_on n fuel (is_over rest s all) next = over rest s all
  go_on n fuel (is_broken why s all) next = cut_off why s all

  transfer_loop_ends :
      (fuel : ℕ) (frames : List NxfrFrame) (s : Incoming)
      → length frames < fuel
      → LeftOf came frames
      → AllDelivered s
      → HasEnded (transfer_loop env fuel frames s)
  unfolding transfer_loop
  transfer_loop_ends zero frames s enough behind all = absurd (omega arith)
  transfer_loop_ends (suc fuel) frames s enough behind all =
      go_on (length frames) fuel (take_turn-Lands (length frames) frames s (omega arith) behind all)
        (λ rest t later all'. transfer_loop_ends fuel rest t (omega (arith, later.0)) later.1 all')

-- Whatever frames come, and whatever the file system is between them, `handle_incoming_transfer` ends,
-- with a return or an error, before the turns given to it run out; and for every file that it has put in
-- its place, one of the CONTROL frames that came decodes to a FILE_METADATA whose hash and size the file
-- has, and for whose sanitized path the jail, at that frame, let a path through that lay below the download
-- directory's real path as far as it existed. The file stands at that path or at the name beside it that
-- `resolve_collision` gives, which no file had when it was given, unless the path and `name (1)` to
-- `name (999)` were all taken: then it is the name with the time.
pub transfer_lands :
    (env : Setting) (from_str : List ℕ → Option ResumeState) (now day_later : ℤ) (peer_id : List ℕ)
    (display_name : String) (manifest : List ManifestEntry) (store : Directory)
    (frames : List NxfrFrame)
    → HasEnded env frames (
        handle_incoming_transfer env from_str now day_later peer_id display_name manifest store
          frames)
unfolding handle_incoming_transfer
transfer_lands env from_str now day_later peer_id display_name manifest store frames =
    transfer_loop_ends env frames (suc (length frames)) frames _ (omega arith)
      (record { taken = []; split = refl }) tt
