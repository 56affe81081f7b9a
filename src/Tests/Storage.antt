-- ===== src/Tests/Storage.antt =====
-- A table of devices, a history and a directory of journals on fixed inputs.
use nxfr.Prelude.{
  ℕ, ◌≡◌, ◌↔◌, ◌≤◌, refl, arith, List, [], ◌∷◌, Option, none, some, if◌then◌else◌, list_eq, ◌==◌,
  length, take, codes, pos, Result, ok, err, String,
}
use nxfr.Identity.{IdentityError, parse_failed}
use nxfr.Storage.Devices.{PairedDevice, matched, lookup, verify_identity, constant_time_eq}
use nxfr.Storage.Keys.{HoldsKey, matched_iff}
use nxfr.Storage.Memory.{Change, put, forget, seen, run, recall, IsKeyed, table_refines}
use nxfr.Storage.Past.{max_history_rows, TransferHistoryRecord, order_by}
use nxfr.Storage.Newest.{Call, add_all, keep_all, new_db, history_newest}
use nxfr.Storage.Journal.{
  ResumeState, Directory, run_ops, save_ops, save, load, gc_expired, is_expired,
}
use nxfr.Storage.Atomic.{save_atomic}
use nxfr.Storage.Resumed.{gc_expired_exact}

-- A certificate is 0x30 in front of its key.
abbrev read_cert : List ℕ → Result IdentityError (List ℕ)
read_cert [] = err parse_failed
read_cert (b ∷ key) = if b == 0x30 then ok key else err parse_failed

abbrev phone : PairedDevice
phone = record {
  device_id = codes "ab";
  name = "phone";
  public_key_spki = 0x30 ∷ 7 ∷ 8 ∷ [];
  first_seen = pos 100;
  last_seen = pos 100;
  trust_level = "paired";
  auto_accept = "prompt";
}

matched_iff_example :
    (verify_identity read_cert (codes "ab") (7 ∷ 8 ∷ []) (phone ∷ []) ≡ matched)
    ↔ HoldsKey read_cert (codes "ab") (7 ∷ 8 ∷ []) (phone ∷ [])
matched_iff_example = matched_iff read_cert (codes "ab") (7 ∷ 8 ∷ []) (phone ∷ [])

key_matches : verify_identity read_cert (codes "ab") (7 ∷ 8 ∷ []) (phone ∷ []) ≡ matched
unfolding verify_identity list_eq constant_time_eq
key_matches = refl

abbrev changes : List Change
changes = put phone ∷ seen (pos 120) (codes "ab") ∷ put phone ∷ forget (codes "cd") ∷ []

table_refines_example :
    ((q : List ℕ) → lookup q (run changes []) ≡ recall changes (λ k. none) q)
    × IsKeyed (run changes [])
table_refines_example = table_refines changes

abbrev received : String → TransferHistoryRecord
received name = record {
  id = 0;
  ts_ms = pos 0;
  direction = "in";
  peer_name = name;
  peer_id = "ab";
  file_count = 1;
  total_bytes = 3;
  status = "completed";
  file_paths = [];
}

abbrev calls : List Call
calls = (pos 100, received "first") ∷ (pos 90, received "second") ∷ []

history_newest_example :
    (order_by (add_all calls new_db).rows ≡ take max_history_rows (order_by (keep_all calls 1 [])))
    × (length (add_all calls new_db).rows ≤ max_history_rows)
history_newest_example = history_newest calls

abbrev journal : ResumeState
journal = record {
  transfer_id = codes "t1";
  peer_device_id = codes "ab";
  display_name = "photos";
  manifest = [];
  files = [];
  created_at = pos 100;
  expires_at = pos 200;
  version = 1;
}

-- The JSON of the state above, and of no other.
abbrev write_json : ResumeState → List ℕ
write_json state = codes "{t1}"

abbrev read_json : List ℕ → Option ResumeState
read_json content = if list_eq content (codes "{t1}") then some journal else none

abbrev kept : Directory
kept = (codes "t1.json", codes "{t1}") ∷ (codes "t2.json", codes "x") ∷ []

save_atomic_example :
    (save write_json journal kept ≡ run_ops (save_ops write_json journal) kept)
    × (load read_json (codes "t1") (run_ops (take 3 (save_ops write_json journal)) kept)
        ≡ load read_json (codes "t1") kept)
    × (load read_json (codes "t1") (save write_json journal kept) ≡ ok (some journal))
unfolding list_eq
save_atomic_example =
    save_atomic write_json read_json journal kept (codes "t1") 3 (omega arith) refl

gc_expired_exact_example : load read_json (codes "t1") (gc_expired read_json (pos 300) kept).0 ≡ (
    if is_expired read_json (pos 300) (load read_json (codes "t1") kept)
    then ok none
    else load read_json (codes "t1") kept)
gc_expired_exact_example = gc_expired_exact read_json (pos 300) (codes "t1") (omega arith) kept
