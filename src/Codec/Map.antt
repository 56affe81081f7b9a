-- ===== src/Codec/Map.antt =====
-- crates/nxfr-core/src/codec.rs: `CborMap`, a `BTreeMap` from texts to values. It is a list in the
-- order of the keys, which is the order of its iteration; Rust compares texts by their UTF-8 bytes,
-- which is the order of their characters.
use Prim.Native.Nat.{Ordering}
use Prim.Native.String.{compare}
use nxfr.Prelude.{
  str_eq, eq_iff, String, List, [], ◌∷◌, ◌≡◌, refl, Option, none, some, if◌then◌else◌, Result, ok,
  err, ◌>>=◌, arith,
}
use nxfr.Common.Errors.{CodecError, not_a_map, non_string_key, wrong_type}
use nxfr.Codec.Value.{Value, text, map_value, Entries, end, entry}

abbrev pub CborMap : Type 0
CborMap = List (String × Value)

-- `BTreeMap::insert`: a key that is there keeps its place and takes the new value.
unfoldable pub insert : String → Value → CborMap → CborMap
insert k v [] = (k, v) ∷ []
insert k v ((j, w) ∷ m) =
    let rest = insert k v m in
    elim (compare k j) [
      | Ordering.lt ↦ (k, v) ∷ (j, w) ∷ m
      | Ordering.eq ↦ (k, v) ∷ m
      | Ordering.gt ↦ (j, w) ∷ rest
    ]

unfoldable pub get : CborMap → String → Option Value
get [] k = none
get ((j, v) ∷ m) k = if str_eq j k then some v else get m k

-- `map.insert(key, value)` in a chain, and the same under `if let Some(..)`.
infixl 20 ◌▹◌ ◌▹?◌
abbrev pub ◌▹◌ : CborMap → String × Value → CborMap
m ▹ (k, v) = insert k v m

abbrev pub insert_some : CborMap → String → Option Value → CborMap
insert_some m k none = m
insert_some m k (some v) = insert k v m

abbrev pub ◌▹?◌ : CborMap → String × Option Value → CborMap
m ▹? (k, v) = insert_some m k v

-- The key has to be a text.
abbrev pub text_key : Value → Result CodecError String
text_key (text s) = ok s
text_key _ = err non_string_key

-- The loop of `to_cbor_map`; of two equal keys the later value stays.
unfoldable pub collect_entries : CborMap → Entries → Result CodecError CborMap
collect_entries m end = ok m
collect_entries m (entry k v es) = do key ← text_key k; collect_entries (insert key v m) es

unfoldable pub to_cbor_map : Value → Result CodecError CborMap
unfolding collect_entries
to_cbor_map (map_value es) = collect_entries [] es
to_cbor_map _ = err not_a_map

-- An item of an array that has to be a map; `field` is its name in the error.
abbrev pub item_map : String → Value → Result CodecError CborMap
item_map field (map_value es) = collect_entries [] es
item_map field _ = err (wrong_type field "map")

abbrev pub entries_of : CborMap → Entries
entries_of [] = end
entries_of ((k, v) ∷ m) = entry (text k) v (entries_of m)

unfoldable pub map_to_value : CborMap → Value
map_to_value m = map_value (entries_of m)

-- The map's two laws.
pub get-insert :
    (k j : String) (v : Value) (m : CborMap)
    → get (insert k v m) j ≡ (if str_eq k j then some v else get m j)
unfolding get insert
get-insert k j v [] = refl
get-insert k j v ((i, w) ∷ m) =
    ground (arith, eq_iff k j, eq_iff i j, eq_iff k i, get-insert k j v m)
