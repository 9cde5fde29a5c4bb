-- ===== src/Tests/UnitTests.antt =====
-- The unit tests of the scheduler in one order, beside another service.
use service_recovery_schedul.Base.{
  ℕ, ◌≡◌, refl, true, false, some, inl, inr, String, List, [], ◌∷◌, map, arith, ok,
}
use service_recovery_schedul.Base.Int.{minus_one}
use service_recovery_schedul.Base.Map.{Iteration, emplace, stored_order}
use service_recovery_schedul.States.{restart, unknown}
use service_recovery_schedul.Service.{ServiceRecoveryInfo}
use service_recovery_schedul.Scheduler.{Registry}
use service_recovery_schedul.Scheduler.Spec.{Entry, Services, no_services, at, realise}
use service_recovery_schedul.Scheduler.Refinement.{Refines, emplaced}
use service_recovery_schedul.Scheduler.Implements.{empty-Refines}
use service_recovery_schedul.Stub.{Platform}
use service_recovery_schedul.UnitTests.{Statement, run_tests}
use service_recovery_schedul.UnitTests.Scheduler.{failures_wrap, invalid_name_fails}
use service_recovery_schedul.UnitTests.Simulation.{scheduler_api}
use service_recovery_schedul.UnitTests.Suite.{run_tests-Refines}

abbrev order : Iteration ServiceRecoveryInfo
order = stored_order ServiceRecoveryInfo

abbrev entry : Entry
entry = record {
  policy = restart ∷ [];
  interval = minus_one;
  failures = 3;
  is_online = false;
  current = restart;
  last = unknown;
}

abbrev services : Services
services = at "AppZ" (some entry) no_services

abbrev registry : Registry
registry = emplace "AppZ" (realise "AppZ" entry) []

registry-Refines : Refines registry services
registry-Refines = emplaced (empty-Refines order) "AppZ" entry refl (omega arith)

abbrev two_tests : List (String × List Statement)
two_tests = ("AppK", failures_wrap) ∷ ("NotInMap", invalid_name_fails) ∷ []

run_tests-Refines_example :
    (m' : Registry) × (run_tests (scheduler_api order) (map (λ t. t.1) two_tests) registry
      ≡ ok (true, m'))
    × Refines m' services
run_tests-Refines_example = run_tests-Refines order two_tests registry services registry-Refines (
  (inr (inr (inr (inr (inr (inr (inr (inr (inr (inr (inr (inl refl))))))))))), refl),
  ((inr (inl refl), refl), tt),
)

abbrev office : Platform ℕ ℕ
office = record {
  is_alive = λ c. true;
  pid_of = λ c name. some 77;
  has_runtime = true;
  offers = λ domain instance_name. true;
  connection = some 5;
  subscribe = λ c. 9;
}
