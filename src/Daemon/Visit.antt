-- ===== src/Daemon/Visit.antt =====
-- crates/nxfr-daemon/src/handler.rs: `handle_incoming`, the whole of a connection that comes in, from the
-- check of the peer's key to the end of the session. The frames come as a list; what the daemon asks of
-- the world is asked when a number of frames is still to come. The TLS handshake is done, and the time
-- limit of HELLO is left out; a send is taken to succeed.
use nxfr.Prelude.{
  ℕ, zero, suc, String, List, [], ◌∷◌, ◌++◌, Option, none, some, Bool, true, false, not, ◌&&◌,
  str_eq, if◌then◌else◌, length, hex_encode, ℤ, Result, ok, err,
}
use nxfr.Common.Errors.{CodecError}
use nxfr.Common.Platform.{linux, is_supported}
use nxfr.ErrorCode.{identity_changed, unsupported_version}
use nxfr.Frame.{FrameHeader, FrameKind, control, chunk, keepalive, is_last_chunk}
use nxfr.Transport.Codec.{NxfrFrame}
use nxfr.Codec.Messages.{
  ControlMessage, Greeting, ManifestEntry, Offer, hello, hello_ack, pair_request, pair_accept,
  pair_reject, session_close, error, transfer_request, transfer_accept, transfer_reject,
  resume_query,
}
use nxfr.Codec.Decode.{decode_control}
use nxfr.Identity.{IdentityError, extract_spki, device_id_from_cert}
use nxfr.Storage.Devices.{
  PairedDevice, IdentityCheck, matched, changed, unknown, insert_or_update, update_last_seen,
  verify_identity,
}
use nxfr.Storage.Journal
use nxfr.Storage.Journal.{ResumeState, ResumeError, Directory}
use nxfr.Daemon.Progress.{Setting, Incoming, Turned, more, returned, broken, exhausted}
use nxfr.Daemon.Incoming.{handle_incoming_transfer}
use nxfr.Daemon.Offers.{
  Consent, answered, sender_dropped, timed_out, Decision, accept, reject, auto_accept, decide_offer,
  answer_query, is_resumable, manifest_of,
}
use nxfr.Daemon.World.{Daemon, Peer, Talk, World, add_seconds, closed, failed, next, spent, tell}

module _ (w : World) where
  abbrev pub setting : List ℕ → Setting
  setting transfer_id = record {
    sha256 = w.sha256;
    from_reader = w.from_reader;
    to_vec = w.to_vec;
    fs = w.fs;
    part_at = w.part_at;
    seconds = w.seconds;
    receive_dir = w.receive_dir;
    transfer_id = transfer_id;
  }

  abbrev pub absorb : Incoming → Daemon → Daemon
  absorb t s = record s {
    store = t.store;
    made = t.made ++ s.made;
    landed = t.landed ++ s.landed;
    removed = t.removed ++ s.removed;
    sent = s.sent ++ t.sent;
  }

  abbrev pub after_transfer : Turned → Daemon → Talk
  after_transfer (more rest t) s = next rest (absorb t s)
  after_transfer (returned rest t) s = next rest (absorb t s)
  after_transfer (broken why t) s = failed why (absorb t s)
  after_transfer exhausted s = spent

  unfoldable pub run_transfer :
      Peer → List ℕ → String → List ManifestEntry → List NxfrFrame → Daemon → Talk
  run_transfer peer transfer_id display_name manifest rest s =
      after_transfer
        (handle_incoming_transfer (setting transfer_id) w.from_str (w.now (length rest))
          (add_seconds (w.now (length rest)) 86_400) peer.id display_name manifest s.store rest)
        s

  -- TRANSFER_REQUEST
  abbrev pub take_decision : Peer → Offer → Decision → List NxfrFrame → Daemon → Talk
  take_decision peer offer accept rest s =
      run_transfer peer offer.transfer_id offer.display_name offer.manifest rest
        (tell (transfer_accept offer.transfer_id) s)
  take_decision peer offer (reject reason) rest s =
      next rest (tell (transfer_reject offer.transfer_id (some reason)) s)

  abbrev pub decision_on : Peer → Offer → List NxfrFrame → Daemon → Decision
  decision_on peer offer rest s =
      decide_offer (auto_accept peer.is_paired peer.id s.devices) (w.free_space (length rest)) offer
        (w.has_watchers (length rest)) (w.consent (length rest))

  -- RESUME_QUERY
  abbrev pub loaded : List ℕ → Daemon → Result ResumeError (Option ResumeState)
  loaded transfer_id s = Journal.load w.from_str (hex_encode transfer_id) s.store

  abbrev pub resume_known :
      Peer → List ℕ → Result ResumeError (Option ResumeState) → List NxfrFrame → Daemon → Talk
  resume_known peer transfer_id (ok (some rs)) rest s =
      run_transfer peer transfer_id rs.display_name (manifest_of rs.manifest) rest s
  resume_known peer transfer_id _ rest s = next rest s

  abbrev pub answer_to : Peer → List ℕ → Option (List ℕ) → List NxfrFrame → Daemon → ControlMessage
  answer_to peer transfer_id file_ids rest s =
      answer_query transfer_id file_ids peer.id (w.now (length rest)) (loaded transfer_id s)

  unfoldable pub take_query : Peer → List ℕ → Option (List ℕ) → List NxfrFrame → Daemon → Talk
  take_query peer transfer_id file_ids rest s =
      let answer = answer_to peer transfer_id file_ids rest s in
      let t = tell answer s in
      if is_resumable answer
      then resume_known peer transfer_id (loaded transfer_id t) rest t
      else next rest t

  -- PAIR_REQUEST
  abbrev pub spki_or_empty : Result IdentityError (List ℕ) → List ℕ
  spki_or_empty (ok spki) = spki
  spki_or_empty (err e) = []

  abbrev pub paired_device : Peer → ℤ → PairedDevice
  paired_device peer now = record {
    device_id = peer.id;
    name = peer.name;
    public_key_spki = spki_or_empty (extract_spki w.from_der peer.cert);
    first_seen = now;
    last_seen = now;
    trust_level = "paired";
    auto_accept = "prompt";
  }

  abbrev pub conclude_pairing :
      Peer → Result CodecError ControlMessage → List NxfrFrame → Daemon → Talk
  conclude_pairing peer (err e) rest s = failed "codec error" s
  conclude_pairing peer (ok pair_accept) rest s =
      next rest (record s {
        devices = insert_or_update (paired_device peer (w.now (length rest))) s.devices;
      })
  conclude_pairing peer (ok other) rest s = next rest s

  -- The next frame, of whatever kind, is read as the peer's answer.
  abbrev pub await_accept : Peer → List NxfrFrame → Daemon → Talk
  await_accept peer [] s = failed "connection closed" s
  await_accept peer ((header, payload) ∷ rest) s =
      conclude_pairing peer (decode_control w.from_reader payload) rest s

  abbrev pub is_yes : Consent → Bool
  is_yes (answered yes_or_no) = yes_or_no
  is_yes sender_dropped = false
  is_yes timed_out = false

  unfoldable pub take_pairing : Peer → String → List NxfrFrame → Daemon → Talk
  take_pairing peer sas_method rest s =
      if not (str_eq sas_method "numeric-6") && not (str_eq sas_method "sas-v0")
      then next rest (tell (pair_reject (some "unsupported_sas_method")) s)
      else if w.exporter_fails
      then failed "export_keying_material failed" s
      else if (if w.has_watchers (length rest) then is_yes (w.consent (length rest)) else true)
      then await_accept peer rest (tell pair_accept s)
      else next rest (tell (pair_reject (some "user_declined")) s)

  unfoldable pub take_message : Peer → ControlMessage → List NxfrFrame → Daemon → Talk
  take_message peer (transfer_request offer) rest s =
      take_decision peer offer (decision_on peer offer rest s) rest s
  take_message peer (resume_query transfer_id file_ids) rest s =
      take_query peer transfer_id file_ids rest s
  take_message peer (pair_request sas_method) rest s = take_pairing peer sas_method rest s
  take_message peer (session_close reason) rest s = closed (tell (session_close (some "normal")) s)
  take_message peer other rest s = next rest s

  abbrev pub take_decoded : Peer → Result CodecError ControlMessage → List NxfrFrame → Daemon → Talk
  take_decoded peer (err e) rest s = failed "codec error" s
  take_decoded peer (ok msg) rest s = take_message peer msg rest s

  -- A keepalive is answered if it is no answer itself.
  abbrev pub take_kind : Peer → FrameKind → FrameHeader → List ℕ → List NxfrFrame → Daemon → Talk
  take_kind peer control header payload rest s =
      take_decoded peer (decode_control w.from_reader payload) rest s
  take_kind peer keepalive header payload rest s = next rest (
      if not (is_last_chunk header.flags)
      then record s { pongs = s.pongs ++ (payload ∷ []) }
      else s)
  take_kind peer chunk header payload rest s = next rest s

  -- A turn of the loop; the end of the stream ends the session.
  unfoldable pub take_turn : Peer → List NxfrFrame → Daemon → Talk
  take_turn peer [] s = closed s
  take_turn peer ((header, payload) ∷ rest) s = take_kind peer header.kind header payload rest s

  unfoldable pub session_loop : ℕ → Peer → List NxfrFrame → Daemon → Talk
  session_loop zero peer frames s = spent
  session_loop (suc fuel) peer frames s = elim (take_turn peer frames s) [
    | next rest t ↦ session_loop fuel peer rest t
    | closed t ↦ closed t
    | failed why t ↦ failed why t
    | spent ↦ spent
  ]

  abbrev pub our_greeting : Bool → Greeting
  our_greeting is_paired = record {
    protocol_version = record { major = 1; minor = 0 };
    device_id = w.device_id;
    device_name = w.device_name;
    platform = linux;
    capabilities = [];
    is_paired = is_paired;
  }

  -- HELLO and its answer, and the loop.
  unfoldable pub greet :
      List ℕ → List ℕ → Bool → Result CodecError ControlMessage → List NxfrFrame → Daemon → Talk
  greet cert id is_paired (ok (hello g)) rest s =
      if not (is_supported g.protocol_version)
      then failed "unsupported version"
          (tell (error unsupported_version (some "unsupported version") true none) s)
      else session_loop (suc (length rest))
          (record { cert = cert; id = id; is_paired = is_paired; name = g.device_name }) rest
          (tell (hello_ack (our_greeting is_paired) w.session_id) s)
  greet cert id is_paired (ok other) rest s = failed "expected HELLO" s
  greet cert id is_paired (err e) rest s = failed "codec error" s

  abbrev pub greet_kind :
      List ℕ → List ℕ → Bool → FrameKind → List ℕ → List NxfrFrame → Daemon → Talk
  greet_kind cert id is_paired control payload rest s =
      greet cert id is_paired (decode_control w.from_reader payload) rest s
  greet_kind cert id is_paired _ payload rest s = failed "expected CONTROL frame for HELLO" s

  abbrev pub await_hello : List ℕ → List ℕ → Bool → List NxfrFrame → Daemon → Talk
  await_hello cert id is_paired [] s = failed "connection closed" s
  await_hello cert id is_paired ((header, payload) ∷ rest) s =
      greet_kind cert id is_paired header.kind payload rest s

  -- The outcome of `verify_identity`; an error of the database counts as an unknown device.
  abbrev pub by_identity : List ℕ → List ℕ → Bool → IdentityCheck → List NxfrFrame → Daemon → Talk
  by_identity cert id true check frames s = await_hello cert id false frames s
  by_identity cert id false matched frames s =
      await_hello cert id true frames
        (record s { devices = update_last_seen (w.now (length frames)) id s.devices })
  by_identity cert id false changed frames s =
      failed "identity_changed: SPKI mismatch for known peer"
        (tell (error identity_changed (some "SPKI does not match pinned identity") true none) s)
  by_identity cert id false unknown frames s = await_hello cert id false frames s

  abbrev pub with_spki :
      List ℕ → List ℕ → Result IdentityError (List ℕ) → List NxfrFrame → Daemon → Talk
  with_spki cert id (err e) frames s = failed "SPKI extraction failed" s
  with_spki cert id (ok spki) frames s =
      by_identity cert id w.check_fails (verify_identity w.from_der id spki s.devices) frames s

  abbrev pub with_id : List ℕ → Result IdentityError (List ℕ) → List NxfrFrame → Daemon → Talk
  with_id cert (err e) frames s = failed "device_id extraction failed" s
  with_id cert (ok id) frames s =
      with_spki cert (hex_encode id) (extract_spki w.from_der cert) frames s

  abbrev pub with_cert : Option (List ℕ) → List NxfrFrame → Daemon → Talk
  with_cert none frames s = failed "no peer certificates" s
  with_cert (some cert) frames s =
      with_id cert (device_id_from_cert w.from_der w.sha256 cert) frames s

  unfoldable pub handle_incoming : List NxfrFrame → Daemon → Talk
  handle_incoming frames s =
      if not w.receiving_enabled
      then closed (tell (session_close (some "receiving_disabled")) s)
      else with_cert w.peer_cert frames s
