-- ===== src/Storage/Devices.antt =====
-- crates/nxfr-storage/src/db.rs: the table of paired devices, in which a device id is the primary key,
-- and the check of a device's key. A statement that SQLite refuses ends the call with its error and
-- changes nothing; the table is what the statements that succeed make of it.
use nxfr.Prelude.{
  ℕ, String, List, [], ◌∷◌, Option, none, some, Bool, true, false, ◌&&◌, ◌==◌, str_eq, list_eq,
  if◌then◌else◌, length, Result, ok, err, bit_or, bit_xor, ℤ,
}
use nxfr.Identity.{IdentityError, extract_spki}

pub record PairedDevice : Type 0 where
  pub device_id : List ℕ
  pub name : String
  pub public_key_spki : List ℕ
  pub first_seen : ℤ
  pub last_seen : ℤ
  pub trust_level : String
  pub auto_accept : String

pub data IdentityCheck : Type 0 where
  matched : IdentityCheck
  changed : IdentityCheck
  unknown : IdentityCheck

abbrev pub Table : Type 0
Table = List PairedDevice

-- `ON CONFLICT(device_id) DO UPDATE SET …`: all but the id and `first_seen`.
abbrev pub upsert_row : PairedDevice → PairedDevice → PairedDevice
upsert_row row excluded = record {
  device_id = row.device_id;
  name = excluded.name;
  public_key_spki = excluded.public_key_spki;
  first_seen = row.first_seen;
  last_seen = excluded.last_seen;
  trust_level = excluded.trust_level;
  auto_accept = excluded.auto_accept;
}

unfoldable pub insert_or_update : PairedDevice → Table → Table
insert_or_update device [] = device ∷ []
insert_or_update device (row ∷ rows) =
    if list_eq row.device_id device.device_id
    then upsert_row row device ∷ rows
    else row ∷ insert_or_update device rows

-- The first row, where there is one.
unfoldable pub lookup : List ℕ → Table → Option PairedDevice
lookup device_id [] = none
lookup device_id (row ∷ rows) =
    if list_eq row.device_id device_id then some row else lookup device_id rows

unfoldable pub remove : List ℕ → Table → Table
remove device_id [] = []
remove device_id (row ∷ rows) =
    let rest = remove device_id rows in if list_eq row.device_id device_id then rest else row ∷ rest

abbrev pub list_all : Table → List PairedDevice
list_all rows = rows

unfoldable pub is_paired : List ℕ → Table → Bool
is_paired device_id rows = elim (lookup device_id rows) [ none ↦ false | some dev ↦ true ]

unfoldable pub should_auto_accept : List ℕ → Table → Bool
should_auto_accept device_id rows = elim (lookup device_id rows) [
  | none ↦ false
  | some dev ↦ str_eq dev.trust_level "paired" && str_eq dev.auto_accept "always"
]

unfoldable pub update_last_seen : ℤ → List ℕ → Table → Table
update_last_seen now device_id [] = []
update_last_seen now device_id (row ∷ rows) =
    (if list_eq row.device_id device_id then record row { last_seen = now } else row)
    ∷ update_last_seen now device_id rows

-- `diff |= a ^ b` over the pairs.
unfoldable pub accumulate : ℕ → List ℕ → List ℕ → ℕ
accumulate diff (a ∷ as') (b ∷ bs) = accumulate (bit_or diff (bit_xor a b)) as' bs
accumulate diff _ _ = diff

unfoldable pub constant_time_eq : List ℕ → List ℕ → Bool
unfolding accumulate
constant_time_eq stored incoming =
    if length stored == length incoming then accumulate 0 stored incoming == 0 else false

module _ (from_der : List ℕ → Result IdentityError (List ℕ)) where
  -- `extract_spki(key).unwrap_or_else(|_| key.clone())`
  abbrev pub spki_or_self : Result IdentityError (List ℕ) → List ℕ → List ℕ
  spki_or_self (ok spki) key = spki
  spki_or_self (err e) key = key

  abbrev pub normalized : List ℕ → List ℕ
  normalized key = spki_or_self (extract_spki from_der key) key

  abbrev pub check_key : Option PairedDevice → List ℕ → IdentityCheck
  check_key none incoming_key = unknown
  check_key (some dev) incoming_key =
      if constant_time_eq (normalized dev.public_key_spki) (normalized incoming_key)
      then matched
      else changed

  unfoldable pub verify_identity : List ℕ → List ℕ → Table → IdentityCheck
  unfolding lookup
  verify_identity device_id incoming_key rows = check_key (lookup device_id rows) incoming_key
