-- ===== src/Daemon/Spared.antt =====
-- What a turn of a session leaves when nobody invites the peer (crates/nxfr-daemon/src/handler.rs).
use nxfr.Prelude.{
  ℕ, ◌<◌, ◌≤◌, ◌≡◌, ◌≢◌, refl, arith, String, List, [], ◌∷◌, ◌++◌, Option, none, Bool, true, false,
  length, if◌then◌else◌, hex_encode, Result, ok, err, Bool-cases, inl, inr,
}
use nxfr.Common.Errors.{CodecError}
use nxfr.Frame.{FrameHeader, FrameKind, control, chunk, keepalive, is_last_chunk}
use nxfr.Transport.Codec.{NxfrFrame}
use nxfr.Codec.Messages.{
  ControlMessage, Offer, pair_request, pair_accept, session_close, transfer_request, resume_query,
}
use nxfr.Codec.Decode.{decode_control}
use nxfr.Storage.Journal
use nxfr.Storage.Journal.{Directory}
use nxfr.Daemon.Offers.{
  Consent, answered, sender_dropped, timed_out, Decision, accept, reject, by_consent, auto_accept,
  decide_offer, answer_query,
}
use nxfr.Daemon.World.{World, Daemon, Talk, next, closed, failed, Peer, tell}
use nxfr.Daemon.Visit.{
  take_decision, decision_on, take_query, is_yes, take_pairing, await_accept, conclude_pairing,
  take_message, take_decoded, take_kind, take_turn, paired_device,
}
use nxfr.Daemon.Policy.{NoneAlways, insert-NoneAlways, none_auto}

module _ (w : World) where
  -- Nobody ever answers a question with yes.
  pub record IsUnwilling : Type 0 where
    pub never_yes : (n : ℕ) → is_yes w (w.consent n) ≡ false

  -- The journal has no transfer that can be resumed.
  abbrev pub HasNoJournal : Directory → Type 0
  HasNoJournal store =
      (transfer_id : List ℕ) → Journal.load w.from_str (hex_encode transfer_id) store ≡ ok none

  -- The disk is as it was.
  pub record SameDisk (s t : Daemon) : Type 0 where
    pub same_landed : t.landed ≡ s.landed
    pub same_made : t.made ≡ s.made
    pub same_removed : t.removed ≡ s.removed
    pub same_store : t.store ≡ s.store

  pub record IsQuiet (s t : Daemon) : Type 0 where
    pub disk : SameDisk s t
    pub policy : NoneAlways t.devices

  -- A turn that began with at most `n` frames to come.
  pub data Spares (s : Daemon) (n : ℕ) : Talk → Type 0 where
    onward :
        (rest : List NxfrFrame) (t : Daemon)
        → length rest < n
        → IsQuiet s t
        → Spares s n (next rest t)
    ended : (t : Daemon) → IsQuiet s t → Spares s n (closed t)
    dropped : (why : String) (t : Daemon) → IsQuiet s t → Spares s n (failed why t)

  pub unchanged : (s : Daemon) → SameDisk s s
  unchanged s = record {
    same_landed = refl;
    same_made = refl;
    same_removed = refl;
    same_store = refl;
  }

  quiet : (s : Daemon) → NoneAlways s.devices → IsQuiet s s
  quiet s h = record { disk = unchanged s; policy = h }

  pub IsQuiet-told :
      (msg : ControlMessage) (s : Daemon) → NoneAlways s.devices → IsQuiet s (tell msg s)
  IsQuiet-told msg s h = record {
    disk = record { same_landed = refl; same_made = refl; same_removed = refl; same_store = refl };
    policy = h;
  }

  -- With no one willing an offer is not accepted.
  by_consent_refuses : (c : Consent) → is_yes w c ≡ false → by_consent c ≢ accept
  by_consent_refuses (answered true) h e = cc
  by_consent_refuses (answered false) h e = cc
  by_consent_refuses sender_dropped h e = cc
  by_consent_refuses timed_out h e = cc

  offer_refused :
      (free : ℕ) (offer : Offer) (watchers : Bool) (c : Consent)
      → is_yes w c ≡ false
      → decide_offer false free offer watchers c ≢ accept
  unfolding decide_offer
  offer_refused free offer watchers c h = ground (arith, by_consent_refuses c h)

  module _ (unwilling : IsUnwilling) where
    decision_spares :
        (n : ℕ) (peer : Peer) (offer : Offer) (d : Decision) (rest : List NxfrFrame) (s : Daemon)
        → d ≢ accept
        → length rest < n
        → NoneAlways s.devices
        → Spares s n (take_decision w peer offer d rest s)
    decision_spares n peer offer accept rest s refused fewer h = absurd (refused refl)
    decision_spares n peer offer (reject reason) rest s refused fewer h =
        onward rest _ fewer (IsQuiet-told _ s h)

    offer_spares :
        (n : ℕ) (peer : Peer) (offer : Offer) (rest : List NxfrFrame) (s : Daemon)
        → length rest < n
        → NoneAlways s.devices
        → Spares s n (take_decision w peer offer (decision_on w peer offer rest s) rest s)
    offer_spares n peer offer rest s fewer h =
        let manual : auto_accept peer.is_paired peer.id s.devices ≡ false =
          rw (none_auto peer.id s.devices h) (ground arith) in
        decision_spares n peer offer (decision_on w peer offer rest s) rest s
          (rw manual (
            offer_refused (w.free_space (length rest)) offer (w.has_watchers (length rest))
              (w.consent (length rest)) (unwilling.never_yes (length rest))))
          fewer h

    query_spares :
        (n : ℕ) (peer : Peer) (id : List ℕ) (ids : Option (List ℕ)) (rest : List NxfrFrame)
        (s : Daemon)
        → HasNoJournal s.store
        → length rest < n
        → NoneAlways s.devices
        → Spares s n (take_query w peer id ids rest s)
    unfolding take_query answer_query
    query_spares n peer id ids rest s nothing fewer h =
        rw (nothing id) (onward rest _ fewer (IsQuiet-told _ s h))

    conclude_spares :
        (n : ℕ) (peer : Peer) (r : Result CodecError ControlMessage) (rest : List NxfrFrame)
        (s t : Daemon)
        → SameDisk s t
        → length rest < n
        → NoneAlways t.devices
        → Spares s n (conclude_pairing w peer r rest t)
    conclude_spares n peer (err e) rest s t same fewer h =
        dropped _ t (record { disk = same; policy = h })
    conclude_spares n peer (ok pair_accept) rest s t same fewer h = onward rest _ fewer (record {
      disk = record {
        same_landed = same.same_landed;
        same_made = same.same_made;
        same_removed = same.same_removed;
        same_store = same.same_store;
      };
      policy = insert-NoneAlways (paired_device w peer (w.now (length rest))) t.devices refl h;
    })
    conclude_spares n peer (ok other) rest s t same fewer h =
        onward rest t fewer (record { disk = same; policy = h })

    accept_spares :
        (n : ℕ) (peer : Peer) (rest : List NxfrFrame) (s t : Daemon)
        → SameDisk s t
        → length rest < n
        → NoneAlways t.devices
        → Spares s n (await_accept w peer rest t)
    accept_spares n peer [] s t same fewer h = dropped _ t (record { disk = same; policy = h })
    accept_spares n peer ((header, payload) ∷ rest) s t same fewer h =
        conclude_spares n peer (decode_control w.from_reader payload) rest s t same (omega arith) h

    branch :
        (s : Daemon) (n : ℕ) (b : Bool) {x y : Talk}
        → Spares s n x
        → Spares s n y
        → Spares s n (if b then x else y)
    branch s n true h k = h
    branch s n false h k = k

    pairing_spares :
        (n : ℕ) (peer : Peer) (method : String) (rest : List NxfrFrame) (s : Daemon)
        → length rest < n
        → NoneAlways s.devices
        → Spares s n (take_pairing w peer method rest s)
    unfolding take_pairing
    pairing_spares n peer method rest s fewer h =
        branch s n _ (onward rest _ fewer (IsQuiet-told _ s h)) (
          branch s n w.exporter_fails (dropped _ s (quiet s h)) (
            branch s n _
              (accept_spares n peer rest s (tell pair_accept s) (IsQuiet-told pair_accept s h).disk
                fewer h)
              (onward rest _ fewer (IsQuiet-told _ s h))))

    message_spares :
        (n : ℕ) (peer : Peer) (msg : ControlMessage) (rest : List NxfrFrame) (s : Daemon)
        → HasNoJournal s.store
        → length rest < n
        → NoneAlways s.devices
        → Spares s n (take_message w peer msg rest s)
    unfolding take_message
    message_spares n peer (transfer_request offer) rest s nothing fewer h =
        offer_spares n peer offer rest s fewer h
    message_spares n peer (resume_query id ids) rest s nothing fewer h =
        query_spares n peer id ids rest s nothing fewer h
    message_spares n peer (pair_request method) rest s nothing fewer h =
        pairing_spares n peer method rest s fewer h
    message_spares n peer (session_close reason) rest s nothing fewer h =
        ended _ (IsQuiet-told _ s h)
    message_spares n peer other rest s nothing fewer h = onward rest s fewer (quiet s h)

    decoded_spares :
        (n : ℕ) (peer : Peer) (r : Result CodecError ControlMessage) (rest : List NxfrFrame)
        (s : Daemon)
        → HasNoJournal s.store
        → length rest < n
        → NoneAlways s.devices
        → Spares s n (take_decoded w peer r rest s)
    decoded_spares n peer (err e) rest s nothing fewer h = dropped _ s (quiet s h)
    decoded_spares n peer (ok msg) rest s nothing fewer h =
        message_spares n peer msg rest s nothing fewer h

    kind_spares :
        (n : ℕ) (peer : Peer) (kind : FrameKind) (header : FrameHeader) (payload : List ℕ)
        (rest : List NxfrFrame) (s : Daemon)
        → HasNoJournal s.store
        → length rest < n
        → NoneAlways s.devices
        → Spares s n (take_kind w peer kind header payload rest s)
    kind_spares n peer control header payload rest s nothing fewer h =
        decoded_spares n peer _ rest s nothing fewer h
    kind_spares n peer chunk header payload rest s nothing fewer h = onward rest s fewer (quiet s h)
    kind_spares n peer keepalive header payload rest s nothing fewer h =
        elim (Bool-cases (is_last_chunk header.flags)) [
          | inl e ↦ rw e (onward rest s fewer (quiet s h))
          | inr e ↦ rw e (
              onward rest (record s { pongs = s.pongs ++ (payload ∷ []) }) fewer
                (record {
                  disk = record {
                    same_landed = refl;
                    same_made = refl;
                    same_removed = refl;
                    same_store = refl;
                  };
                  policy = h;
                }))
        ]

    pub turn_spares :
        (n : ℕ) (peer : Peer) (frames : List NxfrFrame) (s : Daemon)
        → HasNoJournal s.store
        → length frames ≤ n
        → NoneAlways s.devices
        → Spares s n (take_turn w peer frames s)
    unfolding take_turn
    turn_spares n peer [] s nothing few h = ended s (quiet s h)
    turn_spares n peer ((header, payload) ∷ rest) s nothing few h =
        kind_spares n peer header.kind header payload rest s nothing (omega arith) h
