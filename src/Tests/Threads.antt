-- ===== src/Tests/Threads.antt =====
-- Interleavings of a few threads.
use service_recovery_schedul.Base.{
  set, ◌≡◌, refl, true, false, some, List, [], ◌∷◌, arith, ok, undefined, str_eq, if◌then◌else◌,
}
use service_recovery_schedul.Base.Int.{minus_one}
use service_recovery_schedul.Base.Map.{Iteration, lookup, emplace, stored_order}
use service_recovery_schedul.States.{RecoveryState, restart, stop}
use service_recovery_schedul.Catalogue.{scan_names}
use service_recovery_schedul.Service.{ServiceRecoveryInfo, new_info}
use service_recovery_schedul.Scheduler.{
  Registry, on_register_service, on_service_failure, on_unregister_service,
}
use service_recovery_schedul.Scheduler.Spec.{Entry, Services, is_listed}
use service_recovery_schedul.Scheduler.Refinement.{Refines}
use service_recovery_schedul.Threads.{Shared, returned, renewing, begin_register, finish_register}
use service_recovery_schedul.Threads.Steps.{
  System, with_registry, begins, finishes, Reach, here, later, start,
}
use service_recovery_schedul.Threads.Calm.{NotHeld}
use service_recovery_schedul.Threads.Serial.{Serial}
use service_recovery_schedul.Threads.Dangling.{Anything, finish_register-undefined}
use service_recovery_schedul.Threads.Late.{looked_up, finish_register-late}

abbrev order : Iteration ServiceRecoveryInfo
order = stored_order ServiceRecoveryInfo

abbrev policy : List RecoveryState
policy = restart ∷ stop ∷ []

abbrev looking : System
looking = record start {
  thread = set start.thread 0 (begin_register "AppA" policy minus_one start.shared);
}

abbrev there : Shared
there = record {
  registry = ("AppA", new_info "AppA" policy minus_one) ∷ [];
  births = λ name. if str_eq "AppA" name then 1 else 0;
}

-- thread 0 has registered the service, and thread 1 has found it
abbrev found : System
found = record {
  shared = there;
  thread = set (set looking.thread 0 (returned true)) 1 (begin_register "AppA" [] minus_one there);
}

found-Reach : Reach order Anything start found
unfolding begin_register finish_register lookup scan_names emplace
found-Reach =
    later
      (later (later here (begins 0 "AppA" policy minus_one tt))
        (finishes 0 (returned true) there refl))
      (begins 1 "AppA" [] minus_one tt)

abbrev dropped : System
dropped = with_registry found (on_unregister_service order "AppA" found.shared.registry).1

-- thread 2 looks for the service after it was unregistered
abbrev after : System
after = record dropped {
  thread = set dropped.thread 2 (begin_register "AppA" policy minus_one dropped.shared);
}

found_holds : found.thread 1 ≡ renewing "AppA" 1
unfolding begin_register lookup
found_holds = refl

finish_register-undefined_example :
    (after.thread 1 ≡ renewing "AppA" 1)
    × (finish_register (after.thread 1) after.shared ≡ undefined)
finish_register-undefined_example =
    finish_register-undefined order 1 "AppA" 1 found after found-Reach found_holds
      (later here (begins 2 "AppA" policy minus_one tt))

AppA_listed : is_listed "AppA" ≡ true
unfolding is_listed scan_names
AppA_listed = refl

-- two clients register AppA at once
abbrev rivals : System
rivals = looked_up order "AppA" policy [] minus_one AppA_listed (omega arith)

finish_register-late_example :
    (sh : Shared) × (m : Registry) × (s : Services) × (e : Entry) × (m' : Registry)
    × (info : ServiceRecoveryInfo) × Reach order NotHeld start rivals
    × (finish_register (rivals.thread 1) rivals.shared ≡ ok (returned true, sh))
    × (on_service_failure order "AppA" sh.registry ≡ ok m)
    × (finish_register (rivals.thread 0) (record sh { registry = m })
        ≡ ok (returned true, record sh { registry = m }))
    × Reach order NotHeld start (record {
      shared = record sh { registry = m };
      thread = set (set rivals.thread 1 (returned true)) 0 (returned true);
    })
    × Refines m s
    × (s "AppA" ≡ some e)
    × (e.failures ≡ 1)
    × (e.is_online ≡ false)
    × (on_register_service "AppA" [] minus_one minus_one m ≡ (true, m'))
    × (lookup "AppA" m' ≡ some info)
    × (info.is_online ≡ true)
finish_register-late_example =
    finish_register-late order "AppA" policy [] minus_one AppA_listed (omega arith) minus_one

-- both threads have looked, and found nothing
abbrev both_looking : System
both_looking = record looking {
  thread = set looking.thread 1 (begin_register "AppA" [] minus_one looking.shared);
}

-- both have registered
abbrev both_done : System
both_done = record {
  shared = there;
  thread = set (set both_looking.thread 0 (returned true)) 1 (returned true);
}
