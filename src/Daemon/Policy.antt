-- ===== src/Daemon/Policy.antt =====
-- The policy of the devices in a table, which offers that are not asked about go by (crates/nxfr-storage/src/db.rs).
use nxfr.Prelude.{
  ℕ, ◌≡◌, refl, arith, List, [], ◌∷◌, All, Option, some, false, str_eq, list_eq, ℤ, Bool-cases,
  Option-cases, ap, inl, inr,
}
use nxfr.Storage.Devices.{
  PairedDevice, Table, lookup, should_auto_accept, insert_or_update, update_last_seen,
}

-- No device of the table has the policy "always".
abbrev pub NoneAlways : Table → Type 0
NoneAlways = All (λ row. str_eq row.auto_accept "always" ≡ false)

pub found_manual :
    (id : List ℕ) (devices : Table) (dev : PairedDevice)
    → NoneAlways devices
    → lookup id devices ≡ some dev
    → str_eq dev.auto_accept "always" ≡ false
unfolding lookup
found_manual id [] dev h e = cc
found_manual id (row ∷ rows) dev h e = elim (Bool-cases (list_eq row.device_id id)) [
  | inl same ↦
      let here : some row ≡ some dev = rw same at e in
      cc (ap (λ (d : Option PairedDevice). d) here, h.0)
  | inr other ↦ found_manual id rows dev h.1 (rw other at e)
]

pub none_auto :
    (id : List ℕ) (devices : Table) → NoneAlways devices → should_auto_accept id devices ≡ false
unfolding should_auto_accept
none_auto id devices h = elim (Option-cases (lookup id devices)) [
  | inl e ↦ rw (should_auto_accept, e) refl
  | inr (dev, e) ↦ rw (should_auto_accept, e, found_manual id devices dev h e) (ground arith)
]

pub insert-NoneAlways :
    (device : PairedDevice) (devices : Table)
    → str_eq device.auto_accept "always" ≡ false
    → NoneAlways devices
    → NoneAlways (insert_or_update device devices)
unfolding insert_or_update
insert-NoneAlways device [] k h = (k, tt)
insert-NoneAlways device (row ∷ rows) k h =
    elim (Bool-cases (list_eq row.device_id device.device_id)) [
      | inl e ↦ rw e (k, h.1)
      | inr e ↦ rw e (h.0, insert-NoneAlways device rows k h.1)
    ]

pub update-NoneAlways :
    (now : ℤ) (id : List ℕ) (devices : Table)
    → NoneAlways devices
    → NoneAlways (update_last_seen now id devices)
unfolding update_last_seen
update-NoneAlways now id [] h = tt
update-NoneAlways now id (row ∷ rows) h = elim (Bool-cases (list_eq row.device_id id)) [
  | inl e ↦ rw e (h.0, update-NoneAlways now id rows h.1)
  | inr e ↦ rw e (h.0, update-NoneAlways now id rows h.1)
]
