-- ===== src/Common/Platform.antt =====
-- crates/nxfr-common/src/types.rs: `Platform` with its wire names, and `ProtocolVersion`.
use nxfr.Prelude.{str_eq, eq_iff, ℕ, String, ◌≡◌, Bool, ◌&&◌, ◌||◌, ◌==◌, arith, if◌then◌else◌}

pub data Platform : Type 0 where
  linux android windows mac_os ios : Platform
  other : String → Platform

unfoldable pub as_str : Platform → String
as_str linux = "linux"
as_str android = "android"
as_str windows = "windows"
as_str mac_os = "macos"
as_str ios = "ios"
as_str (other s) = s

unfoldable pub from_str_lossy : String → Platform
from_str_lossy s =
    if str_eq s "linux"
    then linux
    else if str_eq s "android"
    then android
    else if str_eq s "windows"
    then windows
    else if str_eq s "macos"
    then mac_os
    else if str_eq s "ios"
    then ios
    else other s

-- A platform that the wire can carry: its name is read back as itself.
abbrev pub IsCanonical : Platform → Type 0
IsCanonical p = from_str_lossy (as_str p) ≡ p

pub from_str_lossy-IsCanonical : (s : String) → IsCanonical (from_str_lossy s)
unfolding from_str_lossy as_str
from_str_lossy-IsCanonical s = ground (
  arith,
  eq_iff s "linux",
  eq_iff s "android",
  eq_iff s "windows",
  eq_iff s "macos",
  eq_iff s "ios",
)

-- The name that a platform is read from is the name that it is written as.
pub as_str-from_str_lossy : (s : String) → as_str (from_str_lossy s) ≡ s
unfolding from_str_lossy as_str
as_str-from_str_lossy s = ground (
  arith,
  eq_iff s "linux",
  eq_iff s "android",
  eq_iff s "windows",
  eq_iff s "macos",
  eq_iff s "ios",
)

pub record ProtocolVersion : Type 0 where
  pub major : ℕ
  pub minor : ℕ

pub is_supported : ProtocolVersion → Bool
is_supported v = (v.major == 1 && v.minor == 0) || (v.major == 0 && v.minor == 1)
