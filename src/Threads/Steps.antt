-- ===== src/Threads/Steps.antt =====
-- The interleavings: any number of threads, and steps in any order.
use service_recovery_schedul.Base.{set, ℕ, String, List, [], ◌≡◌, ok}
use service_recovery_schedul.Base.Int.{ℤ}
use service_recovery_schedul.Base.Map.{Iteration}
use service_recovery_schedul.States.{RecoveryState}
use service_recovery_schedul.Service.{ServiceRecoveryInfo}
use service_recovery_schedul.Scheduler.{
  Registry, on_service_failure, on_unregister_service, on_report_service_state,
}
use service_recovery_schedul.Threads.{
  Shared, Local, idle, returned, begin_register, finish_register,
}

pub record System : Type 0 where
  pub shared : Shared
  pub thread : ℕ → Local

-- a thread that is in no call
abbrev pub IsFree : Local → Type 0
IsFree idle = Unit
IsFree (returned b) = Unit
IsFree _ = ⊥

abbrev pub with_registry : System → Registry → System
with_registry s m = record s { shared = record s.shared { registry = m } }

-- One step of some thread. `May s name` tells which unregistrations there are. A step whose result is
-- undefined leads to no system.
module _ (order : Iteration ServiceRecoveryInfo) (May : System → String → Type 0) where
  pub data Step (s : System) : System → Type 0 where
    begins :
        (i : ℕ) (name : String) (actions : List RecoveryState) (interval : ℤ)
        → IsFree (s.thread i)
        → Step s
            (record s { thread = set s.thread i (begin_register name actions interval s.shared) })
    finishes :
        (i : ℕ) (l : Local) (sh : Shared)
        → finish_register (s.thread i) s.shared ≡ ok (l, sh)
        → Step s (record { shared = sh; thread = set s.thread i l })
    unregisters :
        (name : String)
        → May s name
        → Step s (with_registry s (on_unregister_service order name s.shared.registry).1)
    reports :
        (name : String) (current last : RecoveryState)
        → Step s (with_registry s (on_report_service_state name current last s.shared.registry).1)
    fails :
        (name : String) (m : Registry)
        → on_service_failure order name s.shared.registry ≡ ok m
        → Step s (with_registry s m)

  pub data Reach (s : System) : System → Type 0 where
    here : Reach s s
    later : {t u : System} → Reach s t → Step t u → Reach s u

-- no service, and no thread in a call
abbrev pub start : System
start = record { shared = record { registry = []; births = λ name. 0 }; thread = λ i. idle }
