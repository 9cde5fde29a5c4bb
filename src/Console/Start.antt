-- ===== src/Console/Start.antt =====
-- main: how the process comes up, and in which mode.
use service_recovery_schedul.Base.{
  Among, ◌≡◌, ◌↔◌, inl, inr, refl, String, Bool, true, false, List, [], ◌∷◌, ◌&&◌, arith, eq_iff,
  Bool-cases, Option-cases,
}
use service_recovery_schedul.Base.Map.{Iteration, stored_order}
use service_recovery_schedul.Service.{ServiceRecoveryInfo}
use service_recovery_schedul.Scheduler.{Registry}
use service_recovery_schedul.Scheduler.Spec.{no_services}
use service_recovery_schedul.Stub
use service_recovery_schedul.Stub.{Platform, PeerInfo, Stub}
use service_recovery_schedul.Daemon.{new_stub, init, run}
use service_recovery_schedul.Daemon.Invariant.{IsDaemon}
use service_recovery_schedul.Daemon.Serve.{init-IsDaemon}
use service_recovery_schedul.Console.{aborted, interactive, scan_args, console_mode, start}

-- an argument after the program's name asks for the console
abbrev pub AsksConsole : List String → Type 0
AsksConsole [] = ⊥
AsksConsole (program ∷ args) = Among "mode=console" args

-- the runtime is there and takes the service
abbrev pub comes_up : {Connection Token : Type 0} → Platform Connection Token → Bool
comes_up platform =
    platform.has_runtime && platform.offers "local" "com.bmw.recovery.RecoveryScheduler"

scan_args-true : (args : List String) → scan_args true args ≡ true
unfolding scan_args
scan_args-true [] = refl
scan_args-true (arg ∷ rest) = ground (arith, scan_args-true rest)

scan_args-Among : (args : List String) → (scan_args false args ≡ true) ↔ Among "mode=console" args
unfolding scan_args
scan_args-Among [] = ((λ e. cc), (λ b. absurd b))
scan_args-Among (arg ∷ rest) = (
  (λ e. ground (arith, eq_iff arg "mode=console", scan_args-Among rest)),
  (λ l. ground (arith, eq_iff arg "mode=console", scan_args-true rest, scan_args-Among rest)),
)

console_mode-AsksConsole : (argv : List String) → (console_mode argv ≡ true) ↔ AsksConsole argv
unfolding console_mode
console_mode-AsksConsole [] = ((λ e. cc), (λ b. absurd b))
console_mode-AsksConsole (program ∷ args) = scan_args-Among args

module _ {Connection Token : Type 0} (order : Iteration ServiceRecoveryInfo)
    (platform : Platform Connection Token) where
  run-IsDaemon :
      (stub : Stub Registry Connection Token) (m : Registry)
      → IsDaemon order (stub, m) no_services
      → IsDaemon order ((run platform stub).1, m) no_services
  unfolding run Stub.run
  run-IsDaemon stub m v = elim (Bool-cases (comes_up platform)) [
    | inr f ↦ rw f v
    | inl t ↦ elim (Option-cases platform.connection) [
      | inl e ↦ rw (t, e) v
      | inr (c, e) ↦
          rw (t, e)
            (let w = v.wired in
              record {
                wired = record {
                  registers = w.registers;
                  unregisters = w.unregisters;
                  fails = w.fails;
                  reports = w.reports;
                };
                refines = v.refines;
                unique = v.unique;
                online = v.online;
                listed = v.listed;
              })
    ]
  ]

  pub run-comes_up :
      (stub : Stub Registry Connection Token) → (run platform stub).0 ≡ comes_up platform
  unfolding run Stub.run
  run-comes_up stub = ground arith

  -- main leaves a process in its invariant with no service, in which the scheduler's handlers are the
  -- stub's callbacks, also where it aborts. It aborts exactly where the runtime is missing or does
  -- not take the service, and opens the console exactly where it comes up and some argument after
  -- the program's name is "mode=console".
  pub start-IsDaemon :
      (token : Token) (argv : List String)
      → IsDaemon order (start order platform token argv).1 no_services
        × (((start order platform token argv).0 ≡ aborted) ↔ (comes_up platform ≡ false))
        × (((start order platform token argv).0 ≡ interactive)
            ↔ ((comes_up platform ≡ true) × AsksConsole argv))
  unfolding start
  start-IsDaemon token argv =
      let e = run-comes_up (init order (new_stub token)) in
      let a = console_mode-AsksConsole argv in
      (
        run-IsDaemon (init order (new_stub token)) []
            (init-IsDaemon order (stored_order PeerInfo) token),
        ((λ h. ground (arith, e, h)), (λ h. ground (arith, e, h))),
        (
          (λ h. (ground (arith, e, h), a.0 (ground (arith, e, h)))),
          (λ h. let b = a.1 h.1 in ground (arith, e, h.0, b)),
        ),
      )
