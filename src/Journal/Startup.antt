-- ===== src/Journal/Startup.antt =====
-- The errors in the log of a process, from its start on.
use service_recovery_schedul.Base.{
  ◌+◌, ◌≡◌, refl, inl, inr, String, List, ok, if◌then◌else◌, Bool-cases,
}
use service_recovery_schedul.Base.Map.{Iteration}
use service_recovery_schedul.Service.{ServiceRecoveryInfo}
use service_recovery_schedul.Scheduler.Spec.{no_services, All}
use service_recovery_schedul.Stub.{Platform, PeerInfo}
use service_recovery_schedul.Daemon.{Call, Reply, System, serve}
use service_recovery_schedul.Daemon.Serve.{FitsCall}
use service_recovery_schedul.Console.{start}
use service_recovery_schedul.Console.Start.{comes_up, start-IsDaemon}
use service_recovery_schedul.Journal.{run_log, serve_log}
use service_recovery_schedul.Journal.Errors.{errors}
use service_recovery_schedul.Journal.Audit.{refusals, losses, serve-errors}

module _ {Connection Token : Type 0} (platform : Platform Connection Token) where
  errors-run_log :
      errors (run_log platform "local" "com.bmw.recovery.RecoveryScheduler")
      ≡ (if comes_up platform then 0 else 1)
  unfolding run_log
  errors-run_log = elim (Bool-cases platform.has_runtime) [
    | inr n ↦ rw n refl
    | inl r ↦ elim (Bool-cases (platform.offers "local" "com.bmw.recovery.RecoveryScheduler")) [
      | inr n ↦ rw (r, n) refl
      | inl o ↦ rw (r, o) refl
    ]
  ]

  -- The stub's `run` logs one error where the runtime is missing or does not take the service, and
  -- none otherwise. From the state that main leaves, every sequence of calls off the bus (with policies
  -- of at most 127 actions) is served, and the errors that the handlers log are as many as the
  -- registrations that are refused and the lost peers together: the calls that tell, when they are
  -- handled, of a bus name without an owner under which a peer is recorded.
  pub start-errors :
      (order : Iteration ServiceRecoveryInfo) (peer_order : Iteration PeerInfo) (token : Token)
      (argv : List String) (calls : List (Platform Connection Token × Call))
      → All (λ p. FitsCall p.1) calls
      → (errors (run_log platform "local" "com.bmw.recovery.RecoveryScheduler")
          ≡ (if comes_up platform then 0 else 1))
        × (replies : List Reply) × (sys' : System Connection Token) × (serve peer_order calls
              (start order platform token argv).1
            ≡ ok (replies, sys'))
        × (errors (serve_log order peer_order calls (start order platform token argv).1)
            ≡ refusals replies + losses peer_order calls (start order platform token argv).1)
  start-errors order peer_order token argv calls h =
      let (v, _, _) = start-IsDaemon order platform token argv in
      let sys = (start order platform token argv).1 in
      let (replies, sys', e, k) = serve-errors order peer_order calls sys no_services v h in
      (errors-run_log, replies, sys', e, k)
