-- ===== src/Storage/Memory.antt =====
-- The table of paired devices as a memory that maps a device id to what is known of the device
-- (crates/nxfr-storage/src/db.rs).
use mathlib.Core.Path.{fun_ext}
use nxfr.Prelude.{
  List, [], ◌∷◌, Option, none, some, ℕ, list_eq, list_eq_iff, if◌then◌else◌, ℤ, ◌≡◌, refl, arith,
  ◌∙◌, ap,
}
use nxfr.Storage.Devices.{PairedDevice, Table, insert_or_update, lookup, remove, update_last_seen}
use nxfr.Storage.Keys.{
  merged, seen_at, lookup-insert_or_update, lookup-remove, lookup-update_last_seen,
}

-- The calls that change the table.
pub data Change : Type 0 where
  put : PairedDevice → Change
  forget : List ℕ → Change
  seen : ℤ → List ℕ → Change

abbrev pub apply : Change → Table → Table
apply (put device) rows = insert_or_update device rows
apply (forget device_id) rows = remove device_id rows
apply (seen now device_id) rows = update_last_seen now device_id rows

pub run : List Change → Table → Table
run [] rows = rows
run (c ∷ changes) rows = run changes (apply c rows)

abbrev pub Memory : Type 0
Memory = List ℕ → Option PairedDevice

abbrev pub remember : Change → Memory → Memory
remember (put device) m q =
    if list_eq device.device_id q then some (merged (m device.device_id) device) else m q
remember (forget device_id) m q = if list_eq device_id q then none else m q
remember (seen now device_id) m q = if list_eq device_id q then seen_at now (m q) else m q

pub recall : List Change → Memory → Memory
recall [] m = m
recall (c ∷ changes) m = recall changes (remember c m)

apply_lem :
    (c : Change) (rows : Table) (q : List ℕ)
    → lookup q (apply c rows) ≡ remember c (λ k. lookup k rows) q
apply_lem (put device) rows q = lookup-insert_or_update device rows q
apply_lem (forget device_id) rows q = lookup-remove device_id rows q
apply_lem (seen now device_id) rows q = lookup-update_last_seen now device_id rows q

run_recalls :
    (changes : List Change) (rows : Table) (q : List ℕ)
    → lookup q (run changes rows) ≡ recall changes (λ k. lookup k rows) q
unfolding run recall
run_recalls [] rows q = refl
run_recalls (c ∷ changes) rows q =
    run_recalls changes (apply c rows) q
    ∙ ap (λ (m : Memory). recall changes m q) (fun_ext (apply_lem c rows))

-- No two rows have the same device id.
abbrev pub IsKeyed : Table → Type 0
IsKeyed [] = Unit {0}
IsKeyed (row ∷ rows) = (lookup row.device_id rows ≡ none) × IsKeyed rows

apply-IsKeyed : (c : Change) (rows : Table) → IsKeyed rows → IsKeyed (apply c rows)
unfolding insert_or_update remove update_last_seen lookup
apply-IsKeyed (put device) [] h = (refl, tt)
apply-IsKeyed (put device) (row ∷ rows) h = ground (
  arith,
  apply-IsKeyed (put device) rows h.1,
  lookup-insert_or_update device rows row.device_id,
  list_eq_iff row.device_id device.device_id,
  list_eq_iff device.device_id row.device_id,
)
apply-IsKeyed (forget device_id) [] h = tt
apply-IsKeyed (forget device_id) (row ∷ rows) h =
    ground
      (arith, apply-IsKeyed (forget device_id) rows h.1, lookup-remove device_id rows row.device_id)
apply-IsKeyed (seen now device_id) [] h = tt
apply-IsKeyed (seen now device_id) (row ∷ rows) h = ground (
  arith,
  apply-IsKeyed (seen now device_id) rows h.1,
  lookup-update_last_seen now device_id rows row.device_id,
)

run-IsKeyed : (changes : List Change) (rows : Table) → IsKeyed rows → IsKeyed (run changes rows)
unfolding run
run-IsKeyed [] rows h = h
run-IsKeyed (c ∷ changes) rows h = run-IsKeyed changes (apply c rows) (apply-IsKeyed c rows h)

-- After any calls of `insert_or_update`, `remove` and `update_last_seen` on a new table, `lookup` finds
-- what the memory of the calls has for each id: the last device that was put there, with its name, key and
-- policy, but with the time of first sighting that was put first since the id was last removed, and with
-- the time of the last sighting; and nothing if it was removed. No two rows have the same id.
pub table_refines :
    (changes : List Change)
    → ((q : List ℕ) → lookup q (run changes []) ≡ recall changes (λ k. none) q)
      × IsKeyed (run changes [])
unfolding lookup
table_refines changes = (run_recalls changes [], run-IsKeyed changes [] tt)
