-- ===== src/Daemon/Answers.antt =====
-- What the daemon's answers to a peer depend on (crates/nxfr-daemon/src/handler.rs).
use nxfr.Prelude.{
  ℕ, ◌≤◌, ◌≡◌, ◌≢◌, ◌↔◌, ◌⊎◌, inl, inr, refl, arith, ap, ◌∙◌, List, Option, none, some, Bool, true,
  false, not, ltb, list_eq, list_eq→eq, if◌then◌else◌, hex_encode, ℤ, ltb_ℤ, Result, ok, err,
  Bool-cases,
}
use nxfr.ErrorCode.{identity_changed}
use nxfr.Transport.Codec.{NxfrFrame}
use nxfr.Codec.Messages.{ControlMessage, Offer, ResumeFileStatus, error, resume_status}
use nxfr.Identity.{IdentityError, extract_spki, device_id_from_cert}
use nxfr.Storage.Devices.{
  PairedDevice, IdentityCheck, changed, lookup, normalized, constant_time_eq, verify_identity,
}
use nxfr.Storage.Keys.{constant_time_eq→eq}
use nxfr.Storage.Journal.{ResumeState, ResumeError}
use nxfr.Daemon.Offers.{
  Consent, answered, sender_dropped, timed_out, accept, by_consent, decide_offer, answer_query,
}
use nxfr.Daemon.World.{World, Daemon, failed, tell}
use nxfr.Daemon.Visit.{by_identity, with_spki, with_id, with_cert, handle_incoming}

by_consent_agreed : (c : Consent) → by_consent c ≡ accept → c ≡ answered true
by_consent_agreed (answered true) h = refl
by_consent_agreed (answered false) h = cc
by_consent_agreed sender_dropped h = cc
by_consent_agreed timed_out h = cc

module _ (free_space : ℕ) (offer : Offer) (watchers : Bool) (c : Consent) where
  accepted_agreed :
      (auto : Bool)
      → decide_offer auto free_space offer watchers c ≡ accept
      → (auto ≡ true) ⊎ ((offer.total_size ≤ free_space) × (watchers ≡ true) × (c ≡ answered true))
  unfolding decide_offer
  accepted_agreed true h = inl refl
  accepted_agreed false h = elim (Bool-cases (ltb free_space offer.total_size)) [
    | inl full ↦ cc (rw full at h)
    | inr room ↦ inr (ground arith, ground arith, by_consent_agreed c (ground arith))
  ]

  agreed_accepted :
      (auto : Bool)
      → (auto ≡ true) ⊎ ((offer.total_size ≤ free_space) × (watchers ≡ true) × (c ≡ answered true))
      → decide_offer auto free_space offer watchers c ≡ accept
  unfolding decide_offer
  agreed_accepted auto (inl e) = rw e refl
  agreed_accepted true (inr (room, there, agreed)) = refl
  agreed_accepted false (inr (room, there, agreed)) =
      let enough : ltb free_space offer.total_size ≡ false = ground arith in
      rw (enough, there, agreed) refl

  -- An offer is accepted exactly when the device's offers are accepted without a question, or when there is
  -- room for its files, a watcher is attached, and the user has answered yes: a refusal, a lost channel and
  -- a missing answer all reject it.
  pub offer_accepted_iff :
      (auto : Bool)
      → (decide_offer auto free_space offer watchers c ≡ accept) ↔ (
          (auto ≡ true)
          ⊎ ((offer.total_size ≤ free_space) × (watchers ≡ true) × (c ≡ answered true)))
  offer_accepted_iff auto = (accepted_agreed auto, agreed_accepted auto)

-- What a peer that is told it may resume has in the journal.
pub record MayResume (peer_id : List ℕ) (now : ℤ) (r : Result ResumeError (Option ResumeState))
    : Type 0 where
  pub state : ResumeState
  pub known : r ≡ ok (some state)
  pub same_peer : state.peer_device_id ≡ peer_id
  pub in_time : ltb_ℤ state.expires_at now ≡ false

-- A RESUME_STATUS that says yes is sent only to the peer that the journal of the transfer names, and only
-- while that journal has not expired.
pub resume_only_for_peer :
    (transfer_id : List ℕ) (file_ids : Option (List ℕ)) (peer_id : List ℕ) (now : ℤ)
    (r : Result ResumeError (Option ResumeState)) (id : List ℕ)
    (files : Option (List ResumeFileStatus)) (expiry : Option ℕ)
    → answer_query transfer_id file_ids peer_id now r ≡ resume_status id true files expiry
    → MayResume peer_id now r
unfolding answer_query
resume_only_for_peer transfer_id file_ids peer_id now (err e) id files expiry h = cc
resume_only_for_peer transfer_id file_ids peer_id now (ok none) id files expiry h = cc
resume_only_for_peer transfer_id file_ids peer_id now (ok (some rs)) id files expiry h =
    elim (Bool-cases (list_eq rs.peer_device_id peer_id)) [
      | inr other ↦ cc (rw other at h)
      | inl same ↦ elim (Bool-cases (ltb_ℤ rs.expires_at now)) [
        | inl late ↦ cc (rw (same, late) at h)
        | inr soon ↦ record {
          state = rs;
          known = refl;
          same_peer = list_eq→eq _ _ same;
          in_time = soon;
        }
      ]
    ]

module _ {ℓ} {A : Type ℓ} (x y : A) where
  open_door : (b : Bool) → b ≡ true → (if not b then x else y) ≡ y
  open_door true h = refl
  open_door false h = cc

  pass : (b : Bool) → b ≡ false → (if b then x else y) ≡ y
  pass true h = cc
  pass false h = refl

  unasked : (b c : Bool) → b ≡ false → (if (if b then c else true) then x else y) ≡ x
  unasked true c h = cc
  unasked false c h = refl

module _ (w : World) (cert id spki : List ℕ) (s : Daemon) (dev : PairedDevice) where
  -- The only message to a device whose key has changed.
  abbrev pub key_error : ControlMessage
  key_error = error identity_changed (some "SPKI does not match pinned identity") true none

  differing_changed :
      lookup (hex_encode id) s.devices ≡ some dev
      → normalized w.from_der dev.public_key_spki ≢ normalized w.from_der spki
      → verify_identity w.from_der (hex_encode id) spki s.devices ≡ changed
  unfolding verify_identity
  differing_changed known differs =
      elim (Bool-cases (
        constant_time_eq (normalized w.from_der dev.public_key_spki)
          (normalized w.from_der spki))) [
            | inl same ↦ absurd (differs (constant_time_eq→eq _ _ same))
            | inr e ↦ rw (known, e) refl
          ]

  -- A peer with the id of a paired device and another key: it is sent the fatal error IDENTITY_CHANGED and
  -- nothing else, whatever it sends; no frame of it is read, and the table, the journal and the disk stay as
  -- they are. The daemon receives, its database answers, and the certificate can be read.
  pub impostor_refused :
      (frames : List NxfrFrame)
      → w.receiving_enabled ≡ true
      → w.check_fails ≡ false
      → w.peer_cert ≡ some cert
      → device_id_from_cert w.from_der w.sha256 cert ≡ ok id
      → extract_spki w.from_der cert ≡ ok spki
      → lookup (hex_encode id) s.devices ≡ some dev
      → normalized w.from_der dev.public_key_spki ≢ normalized w.from_der spki
      → handle_incoming w frames s
        ≡ failed "identity_changed: SPKI mismatch for known peer" (tell key_error s)
  unfolding handle_incoming
  impostor_refused frames enabled answers has_cert has_id has_spki known differs =
      open_door _ _ w.receiving_enabled enabled
      ∙ ap (λ (c : Option (List ℕ)). with_cert w c frames s) has_cert
      ∙ ap (λ (r : Result IdentityError (List ℕ)). with_id w cert r frames s) has_id
      ∙ ap (λ (r : Result IdentityError (List ℕ)). with_spki w cert (hex_encode id) r frames s)
          has_spki
      ∙ ap
          (λ (b : Bool).
            by_identity w cert (hex_encode id) b
              (verify_identity w.from_der (hex_encode id) spki s.devices) frames s)
          answers
      ∙ ap (λ (c : IdentityCheck). by_identity w cert (hex_encode id) false c frames s)
          (differing_changed known differs)
