-- ===== src/Tests/Sessions.antt =====
-- Connections that come in, with a world that has one certificate and reads three messages.
use nxfr.Prelude.{
  ℕ, List, [], ◌∷◌, ◌≡◌, ◌↔◌, ◌⊎◌, ◌≤◌, refl, some, none, length, replicate, codes, hex_encode,
  true, false, list_eq, ◌==◌, if◌then◌else◌, pos, Result, ok,
}
use nxfr.Common.Errors.{CodecError}
use nxfr.Frame.{FrameHeader, control, first_or_zero}
use nxfr.Codec.Value.{
  Value, map_value, entry, end, text, integer, check_nesting_depth, check_entries,
}
use nxfr.Codec.Value
use nxfr.Codec.Map.{insert, get, to_cbor_map, collect_entries}
use nxfr.Codec.Getters.{get_uint, get_text, get_required}
use nxfr.Codec.Decode.{decode_value, decode_map, decode_as, decode_control, decode_pair_request}
use nxfr.Codec.Messages.{Offer, resume_status, pair_request, pair_accept, directory}
use nxfr.Transport.Codec.{NxfrFrame}
use nxfr.Path.Jail.{FileSystem}
use nxfr.Identity.{IdentityError, device_id_from_cert}
use nxfr.Storage.Devices.{PairedDevice, lookup}
use nxfr.Storage.Journal.{ResumeState, read_file, load}
use nxfr.Daemon.Progress.{Setting}
use nxfr.Daemon.Incoming.{handle_incoming_transfer}
use nxfr.Daemon.Landed.{HasEnded, transfer_lands}
use nxfr.Daemon.Offers.{answered, accept, decide_offer, answer_query, statuses}
use nxfr.Daemon.World.{World, Daemon, Peer, failed, tell}
use nxfr.Daemon.Visit.{handle_incoming}
use nxfr.Daemon.Spared.{HasNoJournal}
use nxfr.Daemon.Uninvited.{LeavesDisk, uninvited_writes_nothing}
use nxfr.Daemon.Answers.{
  offer_accepted_iff, MayResume, resume_only_for_peer, key_error, impostor_refused,
}

abbrev digest : List ℕ → List ℕ
digest bytes = replicate 32 (length bytes)

-- PAIR_REQUEST for a 1, else PAIR_ACCEPT.
abbrev pair_reader : List ℕ → Result CodecError Value
pair_reader bytes =
    if first_or_zero bytes == 1
    then ok (
        map_value (
          entry (text "type") (integer (Value.pos 3))
            (entry (text "sas_method") (text "numeric-6") end)))
    else ok (map_value (entry (text "type") (integer (Value.pos 4)) end))

abbrev read_cert : List ℕ → Result IdentityError (List ℕ)
read_cert cert = ok cert

abbrev plain_disk : FileSystem
plain_disk = record { canonicalize = λ path. ok path; exists = λ path. false }

abbrev journal : ResumeState
journal = record {
  transfer_id = codes "t1";
  peer_device_id = codes "ab";
  display_name = "photos";
  manifest = [];
  files = [];
  created_at = pos 100;
  expires_at = pos 200;
  version = 1;
}

abbrev quiet_world : World
quiet_world = record {
  sha256 = digest;
  from_reader = pair_reader;
  to_vec = λ state. [];
  from_str = λ content. none;
  from_der = read_cert;
  fs = λ n. plain_disk;
  part_at = λ n path. none;
  seconds = λ n. 7;
  now = λ n. pos 100;
  free_space = λ n. 1000;
  has_watchers = λ n. false;
  consent = λ n. answered false;
  receive_dir = codes "in" ∷ [];
  device_id = codes "me";
  device_name = "desk";
  receiving_enabled = true;
  peer_cert = some (7 ∷ 8 ∷ []);
  check_fails = false;
  exporter_fails = false;
  session_id = 9;
}

abbrev new_daemon : Daemon
new_daemon = record {
  devices = [];
  store = [];
  made = [];
  landed = [];
  removed = [];
  sent = [];
  pongs = [];
}

abbrev header : FrameHeader
header = record {
  kind = control;
  flags = 0;
  session_id = 0;
  stream_id = 0;
  message_id = 1;
  payload_len = 1;
}

abbrev frames : List NxfrFrame
frames = (header, 1 ∷ []) ∷ (header, 2 ∷ []) ∷ []

abbrev setting : Setting
setting = record {
  sha256 = digest;
  from_reader = pair_reader;
  to_vec = λ state. [];
  fs = λ n. plain_disk;
  part_at = λ n path. none;
  seconds = λ n. 7;
  receive_dir = codes "in" ∷ [];
  transfer_id = codes "t1";
}

transfer_lands_example : HasEnded setting frames (
    handle_incoming_transfer setting
      (λ content. none)
      (pos 1)
      (pos 2)
      (codes "ab")
      "photos"
      []
      []
      frames)
transfer_lands_example =
    transfer_lands setting (λ content. none) (pos 1) (pos 2) (codes "ab") "photos" [] [] frames

empty_journal : HasNoJournal quiet_world []
unfolding load read_file
empty_journal transfer_id = refl

uninvited_writes_nothing_example :
    LeavesDisk quiet_world new_daemon (handle_incoming quiet_world frames new_daemon)
uninvited_writes_nothing_example =
    uninvited_writes_nothing quiet_world (record { never_yes = λ n. refl }) frames new_daemon
      empty_journal tt

abbrev offer : Offer
offer = record {
  transfer_id = codes "t1";
  transfer_type = directory;
  display_name = "photos";
  total_files = 1;
  total_size = 3;
  manifest = [];
}

offer_accepted_iff_example :
    (decide_offer false 1000 offer true (answered true) ≡ accept)
    ↔ ((false ≡ true) ⊎ ((3 ≤ 1000) × (true ≡ true) × (answered true ≡ answered true)))
offer_accepted_iff_example = offer_accepted_iff 1000 offer true (answered true) false

says_yes :
    answer_query (codes "t1") none (codes "ab") (pos 150) (ok (some journal))
    ≡ resume_status (codes "t1") true (some []) (some 200)
unfolding answer_query list_eq statuses
says_yes = refl

resume_only_for_peer_example : MayResume (codes "ab") (pos 150) (ok (some journal))
resume_only_for_peer_example =
    resume_only_for_peer (codes "t1") none (codes "ab") (pos 150) (ok (some journal)) (codes "t1")
      (some []) (some 200) says_yes

-- The device of the certificate, with another key.
abbrev other_key : PairedDevice
other_key = record {
  device_id = hex_encode (digest (7 ∷ 8 ∷ []));
  name = "phone";
  public_key_spki = 9 ∷ [];
  first_seen = pos 100;
  last_seen = pos 100;
  trust_level = "paired";
  auto_accept = "prompt";
}

abbrev paired_daemon : Daemon
paired_daemon = record new_daemon { devices = other_key ∷ [] }

other_key_found : lookup (hex_encode (digest (7 ∷ 8 ∷ []))) paired_daemon.devices ≡ some other_key
unfolding lookup list_eq
other_key_found = refl

impostor_refused_example :
    handle_incoming quiet_world frames paired_daemon
    ≡ failed "identity_changed: SPKI mismatch for known peer" (
        tell
          (key_error quiet_world
            (7 ∷ 8 ∷ [])
            (digest (7 ∷ 8 ∷ []))
            (7 ∷ 8 ∷ [])
            paired_daemon
            other_key)
          paired_daemon)
unfolding device_id_from_cert
impostor_refused_example =
    impostor_refused quiet_world (7 ∷ 8 ∷ []) (digest (7 ∷ 8 ∷ [])) (7 ∷ 8 ∷ []) paired_daemon
      other_key frames refl refl refl refl refl other_key_found (λ e. cc e)

abbrev visitor : Peer
visitor = record { cert = 7 ∷ 8 ∷ []; id = codes "ab"; is_paired = false; name = "phone" }

request_read : decode_control pair_reader (1 ∷ []) ≡ ok (pair_request "numeric-6")
unfolding decode_control decode_value decode_map decode_as decode_pair_request to_cbor_map
    collect_entries check_nesting_depth check_entries insert get get_required get_uint get_text
    list_eq
request_read = refl

accept_read : decode_control pair_reader (2 ∷ []) ≡ ok pair_accept
unfolding decode_control decode_value decode_map decode_as to_cbor_map collect_entries
    check_nesting_depth check_entries insert get get_required get_uint list_eq
accept_read = refl
