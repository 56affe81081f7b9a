-- ===== src/Daemon/Uninvited.antt =====
-- What a peer can do to the disk without being invited (crates/nxfr-daemon/src/handler.rs).
use nxfr.Prelude.{
  ℕ, zero, suc, ◌<◌, refl, arith, ◌∙◌, String, List, [], ◌∷◌, Option, none, some, Bool, true, false,
  not, length, if◌then◌else◌, hex_encode, Result, ok, err, Bool-cases, inl, inr,
}
use nxfr.Common.Errors.{CodecError}
use nxfr.Common.Platform.{is_supported}
use nxfr.Frame.{FrameKind, control, chunk, keepalive}
use nxfr.Transport.Codec.{NxfrFrame}
use nxfr.Codec.Messages.{ControlMessage, hello}
use nxfr.Identity.{IdentityError}
use nxfr.Storage.Devices.{IdentityCheck, matched, changed, unknown, update_last_seen}
use nxfr.Daemon.World.{World, Daemon, Talk, next, closed, failed, spent, Peer}
use nxfr.Daemon.Visit.{
  session_loop, greet, greet_kind, await_hello, by_identity, with_spki, with_id, with_cert,
  handle_incoming,
}
use nxfr.Daemon.Policy.{NoneAlways, update-NoneAlways}
use nxfr.Daemon.Spared.{
  IsUnwilling, HasNoJournal, SameDisk, IsQuiet, Spares, onward, ended, dropped, unchanged,
  IsQuiet-told, turn_spares,
}

module _ (w : World) where
  -- The session has ended, and the disk is as it was.
  pub data LeavesDisk (s : Daemon) : Talk → Type 0 where
    at_close : (t : Daemon) → SameDisk w s t → LeavesDisk s (closed t)
    at_error : (why : String) (t : Daemon) → SameDisk w s t → LeavesDisk s (failed why t)

  module _ (unwilling : IsUnwilling w) where
    either :
        (s : Daemon) (b : Bool) {x y : Talk}
        → LeavesDisk s x
        → LeavesDisk s y
        → LeavesDisk s (if b then x else y)
    either s true h k = h
    either s false h k = k

    follow :
        (s : Daemon) (n fuel : ℕ) (peer : Peer) {talk : Talk}
        → Spares w s n talk
        → ((rest : List NxfrFrame) (t : Daemon)
            → length rest < n
            → IsQuiet w s t
            → LeavesDisk s (session_loop w fuel peer rest t))
        → LeavesDisk s (elim talk [
          | next rest t ↦ session_loop w fuel peer rest t
          | closed t ↦ closed t
          | failed why t ↦ failed why t
          | spent ↦ spent
        ])
    follow s n fuel peer (onward rest t fewer q) k = k rest t fewer q
    follow s n fuel peer (ended t q) k = at_close t q.disk
    follow s n fuel peer (dropped why t q) k = at_error why t q.disk

    SameDisk-trans : (s t u : Daemon) → SameDisk w s t → SameDisk w t u → SameDisk w s u
    SameDisk-trans s t u a b = record {
      same_landed = b.same_landed ∙ a.same_landed;
      same_made = b.same_made ∙ a.same_made;
      same_removed = b.same_removed ∙ a.same_removed;
      same_store = b.same_store ∙ a.same_store;
    }

    LeavesDisk-trans :
        (s t : Daemon) {talk : Talk} → SameDisk w s t → LeavesDisk t talk → LeavesDisk s talk
    LeavesDisk-trans s t a (at_close u b) = at_close u (SameDisk-trans s t u a b)
    LeavesDisk-trans s t a (at_error why u b) = at_error why u (SameDisk-trans s t u a b)

    loop_leaves :
        (fuel : ℕ) (peer : Peer) (frames : List NxfrFrame) (s : Daemon)
        → length frames < fuel
        → HasNoJournal w s.store
        → NoneAlways s.devices
        → LeavesDisk s (session_loop w fuel peer frames s)
    unfolding session_loop
    loop_leaves zero peer frames s enough nothing h = absurd (omega arith)
    loop_leaves (suc fuel) peer frames s enough nothing h =
        follow s (length frames) fuel peer
          (turn_spares w unwilling (length frames) peer frames s nothing (omega arith) h)
          (λ rest t fewer q.
            LeavesDisk-trans s t q.disk
              (loop_leaves fuel peer rest t (omega arith) (rw q.disk.same_store nothing) q.policy))

    greet_leaves :
        (cert id : List ℕ) (is_paired : Bool) (r : Result CodecError ControlMessage)
        (rest : List NxfrFrame) (s : Daemon)
        → HasNoJournal w s.store
        → NoneAlways s.devices
        → LeavesDisk s (greet w cert id is_paired r rest s)
    unfolding greet
    greet_leaves cert id is_paired (ok (hello g)) rest s nothing h =
        elim (Bool-cases (is_supported g.protocol_version)) [
          | inl e ↦ rw e (
              LeavesDisk-trans s _ (IsQuiet-told w _ s h).disk
                (loop_leaves (suc (length rest)) _ rest _ (omega arith) nothing h))
          | inr e ↦ rw e (at_error _ _ (IsQuiet-told w _ s h).disk)
        ]
    greet_leaves cert id is_paired (ok other) rest s nothing h = at_error _ s (unchanged w s)
    greet_leaves cert id is_paired (err e) rest s nothing h = at_error _ s (unchanged w s)

    greet_kind_leaves :
        (cert id : List ℕ) (is_paired : Bool) (kind : FrameKind) (payload : List ℕ)
        (rest : List NxfrFrame) (s : Daemon)
        → HasNoJournal w s.store
        → NoneAlways s.devices
        → LeavesDisk s (greet_kind w cert id is_paired kind payload rest s)
    greet_kind_leaves cert id is_paired control payload rest s nothing h =
        greet_leaves cert id is_paired _ rest s nothing h
    greet_kind_leaves cert id is_paired chunk payload rest s nothing h =
        at_error _ s (unchanged w s)
    greet_kind_leaves cert id is_paired keepalive payload rest s nothing h =
        at_error _ s (unchanged w s)

    hello_leaves :
        (cert id : List ℕ) (is_paired : Bool) (frames : List NxfrFrame) (s : Daemon)
        → HasNoJournal w s.store
        → NoneAlways s.devices
        → LeavesDisk s (await_hello w cert id is_paired frames s)
    hello_leaves cert id is_paired [] s nothing h = at_error _ s (unchanged w s)
    hello_leaves cert id is_paired ((header, payload) ∷ rest) s nothing h =
        greet_kind_leaves cert id is_paired header.kind payload rest s nothing h

    identity_leaves :
        (cert id : List ℕ) (fails : Bool) (check : IdentityCheck) (frames : List NxfrFrame)
        (s : Daemon)
        → HasNoJournal w s.store
        → NoneAlways s.devices
        → LeavesDisk s (by_identity w cert id fails check frames s)
    identity_leaves cert id true check frames s nothing h =
        hello_leaves cert id false frames s nothing h
    identity_leaves cert id false matched frames s nothing h =
        let t : Daemon = record s {
          devices = update_last_seen (w.now (length frames)) id s.devices;
        } in
        LeavesDisk-trans s t
          (record { same_landed = refl; same_made = refl; same_removed = refl; same_store = refl })
          (hello_leaves cert id true frames t nothing
            (update-NoneAlways (w.now (length frames)) id s.devices h))
    identity_leaves cert id false changed frames s nothing h =
        at_error _ _ (IsQuiet-told w _ s h).disk
    identity_leaves cert id false unknown frames s nothing h =
        hello_leaves cert id false frames s nothing h

    spki_leaves :
        (cert id : List ℕ) (r : Result IdentityError (List ℕ)) (frames : List NxfrFrame)
        (s : Daemon)
        → HasNoJournal w s.store
        → NoneAlways s.devices
        → LeavesDisk s (with_spki w cert id r frames s)
    spki_leaves cert id (err e) frames s nothing h = at_error _ s (unchanged w s)
    spki_leaves cert id (ok spki) frames s nothing h =
        identity_leaves cert id w.check_fails _ frames s nothing h

    id_leaves :
        (cert : List ℕ) (r : Result IdentityError (List ℕ)) (frames : List NxfrFrame) (s : Daemon)
        → HasNoJournal w s.store
        → NoneAlways s.devices
        → LeavesDisk s (with_id w cert r frames s)
    id_leaves cert (err e) frames s nothing h = at_error _ s (unchanged w s)
    id_leaves cert (ok id) frames s nothing h =
        spki_leaves cert (hex_encode id) _ frames s nothing h

    cert_leaves :
        (cert : Option (List ℕ)) (frames : List NxfrFrame) (s : Daemon)
        → HasNoJournal w s.store
        → NoneAlways s.devices
        → LeavesDisk s (with_cert w cert frames s)
    cert_leaves none frames s nothing h = at_error _ s (unchanged w s)
    cert_leaves (some cert) frames s nothing h = id_leaves cert _ frames s nothing h

    -- If no question to the user is ever answered with yes, no device has the policy "always" and the journal
    -- has no transfer, then a connection, whatever it sends, ends with the disk as it was: no file and no
    -- directory is written, no `.part` file removed, and the journal has not changed.
    pub uninvited_writes_nothing :
        (frames : List NxfrFrame) (s : Daemon)
        → HasNoJournal w s.store
        → NoneAlways s.devices
        → LeavesDisk s (handle_incoming w frames s)
    unfolding handle_incoming
    uninvited_writes_nothing frames s nothing h =
        either s (not w.receiving_enabled) (at_close _ (IsQuiet-told w _ s h).disk)
          (cert_leaves w.peer_cert frames s nothing h)
