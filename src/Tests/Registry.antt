-- ===== src/Tests/Registry.antt =====
-- The registry: requests from a start with no service, and queries.
use service_recovery_schedul.Base.{
  ◌≡◌, ◌≢◌, some, refl, true, false, String, List, [], ◌∷◌, arith, ok, eq_iff,
}
use service_recovery_schedul.Base.Int.{pos, minus_one}
use service_recovery_schedul.Base.Map.{lookup, erase, find_if, stored_order}
use service_recovery_schedul.States.{restart, stop, unknown, disable, crashed, is_unknown}
use service_recovery_schedul.Catalogue.{scan_names}
use service_recovery_schedul.Service.{requested_or_default, new_info, ServiceRecoveryInfo}
use service_recovery_schedul.Scheduler.{
  Registry, get_service_state, on_unregister_service, find_service,
}
use service_recovery_schedul.Scheduler.Registry.{IsRegistry}
use service_recovery_schedul.Scheduler.Requests.{
  Request, registers, unregisters, reports, fails, step, run,
}
use service_recovery_schedul.Scheduler.Spec.{
  no_services, Entry, Services, spec_run, spec_step, spec_reply, is_listed, spec_snapshot,
}
use service_recovery_schedul.Scheduler.Refinement.{Refines}
use service_recovery_schedul.Scheduler.Implements.{run-spec_run}
use service_recovery_schedul.Scheduler.Snapshots.{get_service_state-spec_snapshot}
use service_recovery_schedul.Scheduler.Liveness.{failures_of, Driven, failures-Driven}
use service_recovery_schedul.Scheduler.Interval.{hasty, all_hasty, seen, run-hasty}
use service_recovery_schedul.Scheduler.Alike.{Same}
use service_recovery_schedul.Scheduler.View.{viewed, run-viewed}
use service_recovery_schedul.Scheduler.Isolation.{subject, step-others}

abbrev script : List Request
script =
    registers "AppA" (restart ∷ stop ∷ []) minus_one minus_one
    ∷ registers "NotInMap" [] minus_one minus_one
    ∷ fails "AppA"
    ∷ reports "AppA" restart unknown
    ∷ unregisters "AppB"
    ∷ []

script_replies : (spec_run script no_services).0 ≡ true ∷ false ∷ true ∷ true ∷ false ∷ []
unfolding spec_run spec_step spec_reply is_listed scan_names requested_or_default
script_replies = refl

run-spec_run_example :
    (m : Registry) × (run (stored_order ServiceRecoveryInfo) script []
      ≡ ok ((spec_run script no_services).0, m))
    × Refines m (spec_run script no_services).1
run-spec_run_example = run-spec_run (stored_order ServiceRecoveryInfo) script (omega arith)

after_script : Registry
after_script = (run-spec_run (stored_order ServiceRecoveryInfo) script (omega arith)).0

after_script-Refines : Refines after_script (spec_run script no_services).1
unfolding after_script
after_script-Refines = (run-spec_run (stored_order ServiceRecoveryInfo) script (omega arith)).2

get_service_state-spec_snapshot_example :
    get_service_state "AppA" after_script
    ≡ ok (spec_snapshot ((spec_run script no_services).1 "AppA"))
get_service_state-spec_snapshot_example =
    get_service_state-spec_snapshot after_script (spec_run script no_services).1 "AppA"
      after_script-Refines

abbrev one : Registry
one = ("AppA", new_info "AppA" (restart ∷ []) minus_one) ∷ []

one-IsRegistry : IsRegistry one
unfolding lookup new_info
one-IsRegistry = record {
  unique = (refl, tt);
  own_names = λ name info h. ground (arith, eq_iff "AppA" name);
}

one_dropped : step (stored_order ServiceRecoveryInfo) (unregisters "AppA") one ≡ ok (true, [])
unfolding step on_unregister_service find_service find_if erase new_info
one_dropped = refl

step-others_example :
    IsRegistry [] × ((j : String) → subject (unregisters "AppA") ≢ j → lookup j [] ≡ lookup j one)
step-others_example =
    step-others (stored_order ServiceRecoveryInfo) (unregisters "AppA") one [] true one-IsRegistry
      one_dropped

abbrev info_of : String → ServiceRecoveryInfo
info_of name = new_info name (restart ∷ stop ∷ []) minus_one

abbrev a_then_b : Registry
a_then_b = ("AppA", info_of "AppA") ∷ ("AppB", info_of "AppB") ∷ []

abbrev b_then_a : Registry
b_then_a = ("AppB", info_of "AppB") ∷ ("AppA", info_of "AppA") ∷ []

a_then_b-IsRegistry : IsRegistry a_then_b
unfolding lookup new_info
a_then_b-IsRegistry = record {
  unique = (refl, (refl, tt));
  own_names = λ name info h. ground (arith, eq_iff "AppA" name, eq_iff "AppB" name);
}

b_then_a-IsRegistry : IsRegistry b_then_a
unfolding lookup new_info
b_then_a-IsRegistry = record {
  unique = (refl, (refl, tt));
  own_names = λ name info h. ground (arith, eq_iff "AppA" name, eq_iff "AppB" name);
}

a_then_b-Same : Same a_then_b b_then_a
unfolding lookup
a_then_b-Same name = ground (arith, eq_iff "AppA" name, eq_iff "AppB" name)

run-viewed_example :
    viewed (run (stored_order ServiceRecoveryInfo) script a_then_b)
    ≡ viewed (run (stored_order ServiceRecoveryInfo) script b_then_a)
run-viewed_example =
    run-viewed (stored_order ServiceRecoveryInfo) (stored_order ServiceRecoveryInfo) script a_then_b
      b_then_a a_then_b-IsRegistry b_then_a-IsRegistry a_then_b-Same

abbrev after_services : Services
after_services = (spec_run script no_services).1

abbrev app_a : Entry
app_a = record {
  policy = restart ∷ stop ∷ [];
  interval = minus_one;
  failures = 1;
  is_online = false;
  current = restart;
  last = crashed;
}

after_services-app_a : after_services "AppA" ≡ some app_a
unfolding spec_run spec_step is_listed scan_names requested_or_default is_unknown
after_services-app_a = refl

abbrev more_failures : List Request
more_failures =
    fails "AppB"
    ∷ fails "AppA"
    ∷ registers "AppA" (disable ∷ []) minus_one minus_one
    ∷ unregisters "AppB"
    ∷ fails "AppA"
    ∷ []

more_failures_count : failures_of "AppA" more_failures ≡ 2
unfolding failures_of
more_failures_count = refl

abbrev failing_name : String
failing_name = "AppA"

app_a_not_b : failing_name ≢ "AppB"
app_a_not_b h = ground (arith, eq_iff "AppA" "AppB")

failures-Driven_example :
    Driven (stored_order ServiceRecoveryInfo) after_script "AppA" restart more_failures
failures-Driven_example =
    failures-Driven (stored_order ServiceRecoveryInfo) "AppA" 0 restart more_failures after_script
      after_services app_a after_script-Refines after_services-app_a
      (tt, (tt, (omega arith, (tt, (tt, tt))))) (tt, (tt, (tt, (app_a_not_b, (tt, tt))))) refl
      (omega (arith, more_failures_count))

abbrev slow_script : List Request
slow_script =
    registers "AppA" (restart ∷ stop ∷ []) (pos 30) (pos 4242)
    ∷ registers "NotInMap" [] (pos 5) minus_one
    ∷ fails "AppA"
    ∷ reports "AppA" restart unknown
    ∷ unregisters "AppB"
    ∷ []

slow_script-all_hasty : all_hasty slow_script ≡ all_hasty script
unfolding all_hasty hasty
slow_script-all_hasty = refl

run-hasty_example :
    seen (run (stored_order ServiceRecoveryInfo) slow_script b_then_a)
    ≡ seen (run (stored_order ServiceRecoveryInfo) script b_then_a)
run-hasty_example =
    run-hasty (stored_order ServiceRecoveryInfo) slow_script script b_then_a b_then_a-IsRegistry
      slow_script-all_hasty
