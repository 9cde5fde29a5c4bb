-- ===== src/Scheduler/Requests.antt =====
-- The scheduler's entry points as one step on the registry: what the stub and the bus can make it
-- do, with the reply that each call gives.
use service_recovery_schedul.Base.{String, Bool, true, List, [], ◌∷◌, Outcome, ok, ◌>>=◌}
use service_recovery_schedul.Base.Int.{ℤ}
use service_recovery_schedul.Base.Map.{Iteration}
use service_recovery_schedul.States.{RecoveryState}
use service_recovery_schedul.Service.{ServiceRecoveryInfo}
use service_recovery_schedul.Scheduler.{
  Registry, on_service_failure, on_register_service, on_unregister_service, on_report_service_state,
}

pub data Request : Type 0 where
  registers : String → List RecoveryState → ℤ → ℤ → Request
  unregisters : String → Request
  reports : String → RecoveryState → RecoveryState → Request
  fails : String → Request

module _ (order : Iteration ServiceRecoveryInfo) where
  -- onServiceFailure returns nothing, so its reply is no news.
  unfoldable pub step : Request → Registry → Outcome (Bool × Registry)
  step (registers name actions interval pid) m =
      ok (on_register_service name actions interval pid m)
  step (unregisters name) m = ok (on_unregister_service order name m)
  step (reports name current last) m = ok (on_report_service_state name current last m)
  step (fails name) m = on_service_failure order name m >>= λ m'. ok (true, m')

  -- the replies, in order, and the registry at the end
  unfoldable pub run : List Request → Registry → Outcome (List Bool × Registry)
  run [] m = ok ([], m)
  run (r ∷ rest) m = step r m >>= λ p. run rest p.1 >>= λ q. ok (p.0 ∷ q.0, q.1)
