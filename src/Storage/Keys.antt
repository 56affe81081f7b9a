-- ===== src/Storage/Keys.antt =====
-- The operations on the table of paired devices, as `lookup` and `verify_identity` see them
-- (crates/nxfr-storage/src/db.rs).
use nxfr.Prelude.{
  ℕ, List, [], ◌∷◌, Option, none, some, true, ◌==◌, list_eq_iff, list_eq→eq, list_eq, ap, ◌∙◌,
  if◌then◌else◌, length, Result, bit_or, bit_xor, ℤ, ◌≡◌, ◌↔◌, refl, arith, bit_or-eq-zero,
  bit_xor-eq-zero, bit_xor_self, ==→eq, ==_refl, Bool-cases, inl, inr,
}
use nxfr.Identity.{IdentityError}
use nxfr.Storage.Devices.{
  PairedDevice, matched, Table, upsert_row, insert_or_update, lookup, remove, update_last_seen,
  accumulate, constant_time_eq, normalized, check_key, verify_identity,
}

accumulate_self : (xs : List ℕ) → accumulate 0 xs xs ≡ 0
unfolding accumulate
accumulate_self [] = refl
accumulate_self (x ∷ xs) = rw bit_xor_self (accumulate_self xs)

accumulate_zero :
    (diff : ℕ) (xs ys : List ℕ)
    → length xs ≡ length ys
    → accumulate diff xs ys ≡ 0
    → (diff ≡ 0) × (xs ≡ ys)
unfolding accumulate
accumulate_zero diff [] [] len e = (e, refl)
accumulate_zero diff [] (y ∷ ys) len e = absurd (omega arith)
accumulate_zero diff (x ∷ xs) [] len e = absurd (omega arith)
accumulate_zero diff (x ∷ xs) (y ∷ ys) len e =
    let (zero_so_far, same) = accumulate_zero (bit_or diff (bit_xor x y)) xs ys (omega arith) e in
    let (before, here) = bit_or-eq-zero diff (bit_xor x y) zero_so_far in
    (before, cc (bit_xor-eq-zero x y here, same))

pub constant_time_eq→eq : (xs ys : List ℕ) → constant_time_eq xs ys ≡ true → xs ≡ ys
unfolding constant_time_eq
constant_time_eq→eq xs ys h = elim (Bool-cases (length xs == length ys)) [
  | inl same ↦ (accumulate_zero 0 xs ys (==→eq _ _ same) (==→eq _ _ (rw same at h))).1
  | inr differ ↦ cc (rw differ at h)
]

constant_time_eq_refl : (xs : List ℕ) → constant_time_eq xs xs ≡ true
unfolding constant_time_eq
constant_time_eq_refl xs = rw (==_refl, accumulate_self) refl

module _ (from_der : List ℕ → Result IdentityError (List ℕ)) (device_id : List ℕ)
    (incoming : List ℕ) where
  -- The stored key of the device, normalised, is the incoming one, normalised.
  abbrev pub HoldsKey : Table → Type 0
  HoldsKey rows =
      (dev : PairedDevice) × (lookup device_id rows ≡ some dev)
      × (normalized from_der dev.public_key_spki ≡ normalized from_der incoming)

  matched_holds :
      (rows : Table) (found : Option PairedDevice)
      → lookup device_id rows ≡ found
      → check_key from_der found incoming ≡ matched
      → HoldsKey rows
  matched_holds rows none e h = cc
  matched_holds rows (some dev) e h =
      elim (Bool-cases (
        constant_time_eq (normalized from_der dev.public_key_spki)
          (normalized from_der incoming))) [
            | inl same ↦ (dev, e, constant_time_eq→eq _ _ same)
            | inr differ ↦ cc (rw differ at h)
          ]

  holds_matched :
      (rows : Table) → HoldsKey rows → verify_identity from_der device_id incoming rows ≡ matched
  unfolding verify_identity
  holds_matched rows (dev, e, same) = rw (e, same, constant_time_eq_refl) refl

  -- A device is matched exactly when it is in the table and its stored key and the incoming one, each
  -- replaced by the public key of the certificate that it may be, are the same bytes: the comparison in
  -- constant time misses no difference and finds none that is not there.
  pub matched_iff :
      (rows : Table) → (verify_identity from_der device_id incoming rows ≡ matched) ↔ HoldsKey rows
  unfolding verify_identity
  matched_iff rows = (matched_holds rows (lookup device_id rows) refl, holds_matched rows)

-- What a `put` leaves of a device: all that is put, but a known one keeps the time at which it was first
-- seen.
abbrev pub merged : Option PairedDevice → PairedDevice → PairedDevice
merged none device = device
merged (some row) device = record device { first_seen = row.first_seen }

upsert_row_lem :
    (row device : PairedDevice)
    → row.device_id ≡ device.device_id
    → upsert_row row device ≡ record device { first_seen = row.first_seen }
upsert_row_lem row device e =
    ap (λ (id : List ℕ). record device { device_id = id; first_seen = row.first_seen }) e

-- The same with the row as it is written.
abbrev written : Option PairedDevice → PairedDevice → PairedDevice
written none device = device
written (some row) device = upsert_row row device

lookup-written :
    (device : PairedDevice) (rows : Table) (q : List ℕ)
    → lookup q (insert_or_update device rows) ≡ (
        if list_eq device.device_id q
        then some (written (lookup device.device_id rows) device)
        else lookup q rows)
unfolding lookup insert_or_update
lookup-written device [] q = refl
lookup-written device (row ∷ rows) q = ground (
  arith,
  lookup-written device rows q,
  list_eq_iff row.device_id device.device_id,
  list_eq_iff row.device_id q,
  list_eq_iff device.device_id q,
)

lookup_keyed :
    (id : List ℕ) (rows : Table) (row : PairedDevice)
    → lookup id rows ≡ some row
    → row.device_id ≡ id
unfolding lookup
lookup_keyed id [] row e = cc
lookup_keyed id (r ∷ rows) row e = elim (Bool-cases (list_eq r.device_id id)) [
  | inl same ↦
      let here : some r ≡ some row = rw same at e in
      cc (ap (λ (o : Option PairedDevice). o) here, list_eq→eq r.device_id id same)
  | inr other ↦ lookup_keyed id rows row (rw other at e)
]

written-merged :
    (device : PairedDevice) (rows : Table) (found : Option PairedDevice)
    → lookup device.device_id rows ≡ found
    → written found device ≡ merged found device
written-merged device rows none e = refl
written-merged device rows (some row) e =
    upsert_row_lem row device (lookup_keyed device.device_id rows row e)

pub lookup-insert_or_update :
    (device : PairedDevice) (rows : Table) (q : List ℕ)
    → lookup q (insert_or_update device rows) ≡ (
        if list_eq device.device_id q
        then some (merged (lookup device.device_id rows) device)
        else lookup q rows)
lookup-insert_or_update device rows q =
    lookup-written device rows q
    ∙ ap (λ (d : PairedDevice). if list_eq device.device_id q then some d else lookup q rows)
        (written-merged device rows (lookup device.device_id rows) refl)

pub lookup-remove :
    (device_id : List ℕ) (rows : Table) (q : List ℕ)
    → lookup q (remove device_id rows) ≡ (if list_eq device_id q then none else lookup q rows)
unfolding lookup remove
lookup-remove device_id [] q = ground arith
lookup-remove device_id (row ∷ rows) q = ground (
  arith,
  lookup-remove device_id rows q,
  list_eq_iff row.device_id device_id,
  list_eq_iff row.device_id q,
  list_eq_iff device_id q,
)

abbrev pub seen_at : ℤ → Option PairedDevice → Option PairedDevice
seen_at now none = none
seen_at now (some row) = some (record row { last_seen = now })

pub lookup-update_last_seen :
    (now : ℤ) (device_id : List ℕ) (rows : Table) (q : List ℕ)
    → lookup q (update_last_seen now device_id rows)
      ≡ (if list_eq device_id q then seen_at now (lookup q rows) else lookup q rows)
unfolding lookup update_last_seen
lookup-update_last_seen now device_id [] q = ground arith
lookup-update_last_seen now device_id (row ∷ rows) q = ground (
  arith,
  lookup-update_last_seen now device_id rows q,
  list_eq_iff row.device_id device_id,
  list_eq_iff row.device_id q,
  list_eq_iff device_id q,
)
