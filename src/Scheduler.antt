-- ===== src/Scheduler.antt =====
-- CRecoveryScheduler: the registry of services, lib_srs/src/CRecoveryScheduler.cpp. Each handler
-- takes the map `m_MapServiceInfo` and returns it with its result; the handlers hold one mutex from
-- their first access on, but onRegisterService, whose unlocked lookup is modelled as a part of the
-- same step here.
pub mod Registry
pub mod Requests
pub mod Spec
pub mod Refinement
pub mod Implements
pub mod Snapshots
pub mod Isolation
pub mod Alike
pub mod View
pub mod Cooled
pub mod Interval
pub mod Liveness
use service_recovery_schedul.Base.{
  String, Bool, true, false, Option, none, some, List, Outcome, ok, undefined, ◌>>=◌, str_eq,
  if◌then◌else◌,
}
use service_recovery_schedul.Base.Int.{ℤ}
use service_recovery_schedul.Base.Map.{Map, lookup, update, erase, emplace, find_if, Iteration}
use service_recovery_schedul.States.{RecoveryState}
use service_recovery_schedul.Catalogue.{service_names, scan_names}
use service_recovery_schedul.Service.{
  ServiceRecoveryInfo, ServiceSnapshot, no_snapshot, new_info, fail, report, snapshot,
}

-- m_MapServiceInfo
abbrev pub Registry : Type 0
Registry = Map ServiceRecoveryInfo

-- the `find_if` on the records' own names, in the order in which the map is visited
unfoldable pub find_service :
    Iteration ServiceRecoveryInfo → String → Registry → Option (String × ServiceRecoveryInfo)
find_service order name m = find_if (λ key info. str_eq info.service_name name) (order.visit m)

unfoldable pub on_service_failure :
    Iteration ServiceRecoveryInfo → String → Registry → Outcome Registry
on_service_failure order name m = elim (find_service order name m) [
  | none ↦ ok m
  | some (key, info) ↦ fail info >>= λ next. ok (update key next m)
]

-- `pid` is only logged.
unfoldable pub on_register_service :
    String → List RecoveryState → ℤ → ℤ → Registry → Bool × Registry
on_register_service name actions interval pid m = elim (lookup name m) [
  | none ↦
      if scan_names name false service_names
      then (true, emplace name (new_info name actions interval) m)
      else (false, m)
  | some info ↦ (true, update name (record info { is_online = true }) m)
]

unfoldable pub on_unregister_service :
    Iteration ServiceRecoveryInfo → String → Registry → Bool × Registry
on_unregister_service order name m = elim (find_service order name m) [
  | none ↦ (false, m)
  | some (key, info) ↦ (true, erase key m)
]

unfoldable pub on_report_service_state :
    String → RecoveryState → RecoveryState → Registry → Bool × Registry
on_report_service_state name current last m = elim (lookup name m) [
  | none ↦ (false, m)
  | some info ↦ (true, update name (report current last info) m)
]

unfoldable pub get_service_state : String → Registry → Outcome ServiceSnapshot
get_service_state name m = elim (lookup name m) [
  | none ↦ ok no_snapshot
  | some info ↦ snapshot info
]
