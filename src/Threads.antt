-- ===== src/Threads.antt =====
-- Threads in CRecoveryScheduler, lib_srs/src/CRecoveryScheduler.cpp, if the bus calls it from more
-- than one: onRegisterService looks its name
-- up before it locks the mutex, and writes through what it found after. The other handlers lock
-- first and are one step each. An element of the map is known by its key and by the number of
-- elements made for this key before, so that an iterator shows whether its element is there still.
pub mod Presence
pub mod Steps
pub mod Holding
pub mod Calm
pub mod Safety
pub mod Serial
pub mod Aging
pub mod Dangling
pub mod Late
use service_recovery_schedul.Base.{
  ℕ, suc, String, Bool, true, false, Option, none, some, List, Outcome, ok, undefined, str_eq, ◌==◌,
  if◌then◌else◌,
}
use service_recovery_schedul.Base.Int.{ℤ}
use service_recovery_schedul.Base.Map.{lookup, update, emplace}
use service_recovery_schedul.States.{RecoveryState}
use service_recovery_schedul.Catalogue.{service_names, scan_names}
use service_recovery_schedul.Service.{ServiceRecoveryInfo, new_info}
use service_recovery_schedul.Scheduler.{Registry}

-- m_MapServiceInfo, and the number of elements that were ever made for each key
pub record Shared : Type 0 where
  pub registry : Registry
  pub births : String → ℕ

-- Where a thread stands in onRegisterService: it has returned, or is to take the lock for `emplace`
-- with the record that it made, or for the write through the iterator of an element.
pub data Local : Type 0 where
  idle : Local
  returned : Bool → Local
  adding : String → ServiceRecoveryInfo → Local
  renewing : String → ℕ → Local

-- the part of onRegisterService before the lock
unfoldable pub begin_register : String → List RecoveryState → ℤ → Shared → Local
begin_register name actions interval sh = elim (lookup name sh.registry) [
  | none ↦
      if scan_names name false service_names
      then adding name (new_info name actions interval)
      else returned false
  | some info ↦ renewing name (sh.births name)
]

abbrev pub born : String → Option ServiceRecoveryInfo → (String → ℕ) → String → ℕ
born name none births = λ j. if str_eq name j then suc (births j) else births j
born name (some info) births = births

-- the locked part of onRegisterService
unfoldable pub finish_register : Local → Shared → Outcome (Local × Shared)
finish_register (adding name info) sh = ok (
  returned true,
  record {
    registry = emplace name info sh.registry;
    births = born name (lookup name sh.registry) sh.births;
  },
)
finish_register (renewing name birth) sh = elim (lookup name sh.registry) [
  | none ↦ undefined
  | some info ↦
      if sh.births name == birth
      then ok (
        returned true,
        record sh { registry = update name (record info { is_online = true }) sh.registry },
      )
      else undefined
]
finish_register l sh = ok (l, sh)
