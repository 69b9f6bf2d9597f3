-- ===== src/Engines/Capability.antt =====
-- engines/capability.py: the recovery matrix. Of the note of an entry only the test is kept that the
-- code makes on it, `"PRIMARY" in note.upper()`.
use network.Prelude.{Bool, true, false, none, some, List, String}
use network.Prelude.Order.{sorted}
use network.Prelude.Dict.{Dict, lookup, keys}

pub data RecoveryStatus : Type 0 where
  supported not_supported unknown_status : RecoveryStatus

pub record RecoveryCapability : Type 0 where
  pub status : RecoveryStatus
  pub primary : Bool

pub record CapabilityEngine : Type 0 where
  pub recovery : Dict (Dict RecoveryCapability)

-- `self._recovery.get(vendor_os, {})`
abbrev pub mechanisms : CapabilityEngine → String → Dict RecoveryCapability
mechanisms c vendor_os = elim (lookup vendor_os c.recovery) [ none ↦ List.[] | some m ↦ m ]

unfoldable pub recovery_lookup : CapabilityEngine → String → String → RecoveryCapability
recovery_lookup c vendor_os mechanism = elim (lookup mechanism (mechanisms c vendor_os)) [
  | none ↦ record { status = unknown_status; primary = false }
  | some entry ↦ entry
]

unfoldable pub recovery_methods : CapabilityEngine → String → List String
recovery_methods c vendor_os = sorted (keys (mechanisms c vendor_os))

abbrev pub is_supported : RecoveryStatus → Bool
is_supported supported = true
is_supported _ = false

abbrev pub is_not_supported : RecoveryStatus → Bool
is_not_supported not_supported = true
is_not_supported _ = false
