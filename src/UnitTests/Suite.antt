-- ===== src/UnitTests/Suite.antt =====
-- The tests pass in any order, whatever other services are registered.
use mathlib.Core.Path.{fun_ext}
use service_recovery_schedul.Base.{
  ◌≡◌, refl, sym, ap, ◌∙◌, inl, inr, String, Bool, true, none, List, [], ◌∷◌, arith, Outcome, ok,
  str_eq, eq_iff, Bool-cases, Among, map, if◌then◌else◌,
}
use service_recovery_schedul.Base.Int.{int32}
use service_recovery_schedul.Base.Map.{Iteration}
use service_recovery_schedul.States.{to_u8, is_unknown}
use service_recovery_schedul.Catalogue.{scan_names}
use service_recovery_schedul.Service.{ServiceRecoveryInfo, requested_or_default}
use service_recovery_schedul.Scheduler.{Registry}
use service_recovery_schedul.Scheduler.Spec.{Services, is_listed, spec_snapshot, All}
use service_recovery_schedul.Scheduler.Refinement.{Refines}
use service_recovery_schedul.UnitTests.{Statement, exec, exec_all, tear_down, run_test, run_tests}
use service_recovery_schedul.UnitTests.Simulation.{
  scheduler_api, services_api, FitsStatement, run_test-Refines,
}
use service_recovery_schedul.UnitTests.Scheduler.{
  registered_is_queryable, invalid_name_fails, empty_uses_defaults, registered_again,
  unregister_known, unregister_unknown, report_updates, report_keeps_last, report_unknown,
  failure_unknown, failure_recorded, failures_wrap, crashes_counted, unknown_not_found,
  next_action_sequence,
}

-- a test and the name of the service that it is about
abbrev pub scheduler_tests : List (String × List Statement)
scheduler_tests =
    ("AppA", registered_is_queryable)
    ∷ ("NotInMap", invalid_name_fails)
    ∷ ("AppB", empty_uses_defaults)
    ∷ ("AppC", registered_again)
    ∷ ("AppD", unregister_known)
    ∷ ("AppE", unregister_unknown)
    ∷ ("AppF", report_updates)
    ∷ ("AppG", report_keeps_last)
    ∷ ("AppH", report_unknown)
    ∷ ("AppI", failure_unknown)
    ∷ ("AppJ", failure_recorded)
    ∷ ("AppK", failures_wrap)
    ∷ ("AppL", crashes_counted)
    ∷ ("AppM", unknown_not_found)
    ∷ ("AppN", next_action_sequence)
    ∷ []

abbrev Passes : String × List Statement → Type 0
Passes (name, body) =
    All FitsStatement body
    × ((s : Services) → s name ≡ none → run_test services_api body s ≡ ok (true, s))

-- what is written for one name and then taken out leaves no trace
restored :
    (name : String) (s s' : Services)
    → s name ≡ none
    → ((j : String) → s' j ≡ (if str_eq name j then none else s j))
    → ◌≡◌ {A = Outcome (Bool × Services)} (ok (true, s')) (ok (true, s))
restored name s s' h e =
    ap (λ (x : Services). ok (true, x))
      (fun_ext λ j. elim (Bool-cases (str_eq name j)) [
        | inl t ↦ let q : s j ≡ none = rw ((eq_iff name j).0 t) at h in e j ∙ rw t (sym q)
        | inr f ↦ e j ∙ rw f refl
      ])

registered_is_queryable-Passes : Passes ("AppA", registered_is_queryable)
unfolding run_test exec_all exec tear_down is_listed scan_names requested_or_default spec_snapshot
    to_u8 int32 is_unknown
registered_is_queryable-Passes =
    (omega arith, λ s h. rw h (restored "AppA" s _ h (λ j. ground arith)))

invalid_name_fails-Passes : Passes ("NotInMap", invalid_name_fails)
unfolding run_test exec_all exec tear_down is_listed scan_names requested_or_default spec_snapshot
    to_u8 int32 is_unknown
invalid_name_fails-Passes =
    (omega arith, λ s h. rw h (restored "NotInMap" s _ h (λ j. ground arith)))

empty_uses_defaults-Passes : Passes ("AppB", empty_uses_defaults)
unfolding run_test exec_all exec tear_down is_listed scan_names requested_or_default spec_snapshot
    to_u8 int32 is_unknown
empty_uses_defaults-Passes = (omega arith, λ s h. rw h (restored "AppB" s _ h (λ j. ground arith)))

registered_again-Passes : Passes ("AppC", registered_again)
unfolding run_test exec_all exec tear_down is_listed scan_names requested_or_default spec_snapshot
    to_u8 int32 is_unknown
registered_again-Passes = (omega arith, λ s h. rw h (restored "AppC" s _ h (λ j. ground arith)))

unregister_known-Passes : Passes ("AppD", unregister_known)
unfolding run_test exec_all exec tear_down is_listed scan_names requested_or_default spec_snapshot
    to_u8 int32 is_unknown
unregister_known-Passes = (omega arith, λ s h. rw h (restored "AppD" s _ h (λ j. ground arith)))

unregister_unknown-Passes : Passes ("AppE", unregister_unknown)
unfolding run_test exec_all exec tear_down is_listed scan_names requested_or_default spec_snapshot
    to_u8 int32 is_unknown
unregister_unknown-Passes = (omega arith, λ s h. rw h (restored "AppE" s _ h (λ j. ground arith)))

report_updates-Passes : Passes ("AppF", report_updates)
unfolding run_test exec_all exec tear_down is_listed scan_names requested_or_default spec_snapshot
    to_u8 int32 is_unknown
report_updates-Passes = (omega arith, λ s h. rw h (restored "AppF" s _ h (λ j. ground arith)))

report_keeps_last-Passes : Passes ("AppG", report_keeps_last)
unfolding run_test exec_all exec tear_down is_listed scan_names requested_or_default spec_snapshot
    to_u8 int32 is_unknown
report_keeps_last-Passes = (omega arith, λ s h. rw h (restored "AppG" s _ h (λ j. ground arith)))

report_unknown-Passes : Passes ("AppH", report_unknown)
unfolding run_test exec_all exec tear_down is_listed scan_names requested_or_default spec_snapshot
    to_u8 int32 is_unknown
report_unknown-Passes = (omega arith, λ s h. rw h (restored "AppH" s _ h (λ j. ground arith)))

failure_unknown-Passes : Passes ("AppI", failure_unknown)
unfolding run_test exec_all exec tear_down is_listed scan_names requested_or_default spec_snapshot
    to_u8 int32 is_unknown
failure_unknown-Passes = (omega arith, λ s h. rw h (restored "AppI" s _ h (λ j. ground arith)))

failure_recorded-Passes : Passes ("AppJ", failure_recorded)
unfolding run_test exec_all exec tear_down is_listed scan_names requested_or_default spec_snapshot
    to_u8 int32 is_unknown
failure_recorded-Passes = (omega arith, λ s h. rw h (restored "AppJ" s _ h (λ j. ground arith)))

failures_wrap-Passes : Passes ("AppK", failures_wrap)
unfolding run_test exec_all exec tear_down is_listed scan_names requested_or_default spec_snapshot
    to_u8 int32 is_unknown
failures_wrap-Passes = (omega arith, λ s h. rw h (restored "AppK" s _ h (λ j. ground arith)))

crashes_counted-Passes : Passes ("AppL", crashes_counted)
unfolding run_test exec_all exec tear_down is_listed scan_names requested_or_default spec_snapshot
    to_u8 int32 is_unknown
crashes_counted-Passes = (omega arith, λ s h. rw h (restored "AppL" s _ h (λ j. ground arith)))

unknown_not_found-Passes : Passes ("AppM", unknown_not_found)
unfolding run_test exec_all exec tear_down is_listed scan_names requested_or_default spec_snapshot
    to_u8 int32 is_unknown
unknown_not_found-Passes = (omega arith, λ s h. rw h refl)

next_action_sequence-Passes : Passes ("AppN", next_action_sequence)
unfolding run_test exec_all exec tear_down is_listed scan_names requested_or_default spec_snapshot
    to_u8 int32 is_unknown
next_action_sequence-Passes = (omega arith, λ s h. rw h (restored "AppN" s _ h (λ j. ground arith)))

scheduler_tests-Passes : All Passes scheduler_tests
scheduler_tests-Passes = (
  registered_is_queryable-Passes,
  (
    invalid_name_fails-Passes,
    (
      empty_uses_defaults-Passes,
      (
        registered_again-Passes,
        (
          unregister_known-Passes,
          (
            unregister_unknown-Passes,
            (
              report_updates-Passes,
              (
                report_keeps_last-Passes,
                (
                  report_unknown-Passes,
                  (
                    failure_unknown-Passes,
                    (
                      failure_recorded-Passes,
                      (
                        failures_wrap-Passes,
                        (
                          crashes_counted-Passes,
                          (unknown_not_found-Passes, (next_action_sequence-Passes, tt)),
                        ),
                      ),
                    ),
                  ),
                ),
              ),
            ),
          ),
        ),
      ),
    ),
  ),
)

Among-Passes :
    (t : String × List Statement) (ts : List (String × List Statement))
    → All Passes ts
    → Among t ts
    → Passes t
Among-Passes t [] h m = absurd m
Among-Passes t (x ∷ rest) h (inl e) = rw e at h.0
Among-Passes t (x ∷ rest) h (inr m) = Among-Passes t rest h.1 m

-- The scheduler's unit tests pass on the model in any order and selection, each as often as one
-- likes: from every registry that stands for services among which the names of the tests are not
-- registered, with no undefined behaviour and in whatever order the map is searched, and the registry
-- at the end stands for the same services.
pub run_tests-Refines :
    (order : Iteration ServiceRecoveryInfo) (tests : List (String × List Statement)) (m : Registry)
    (s : Services)
    → Refines m s
    → All (λ t. Among t scheduler_tests × (s t.0 ≡ none)) tests
    → (m' : Registry) × (run_tests (scheduler_api order) (map (λ t. t.1) tests) m ≡ ok (true, m'))
      × Refines m' s
unfolding run_tests
run_tests-Refines order [] m s r h = (m, refl, r)
run_tests-Refines order ((name, body) ∷ rest) m s r h =
    let (fits, pass) = Among-Passes (name, body) scheduler_tests scheduler_tests-Passes h.0.0 in
    let (m1, e, r1) = run_test-Refines order body s s m true fits (pass s h.0.1) r in
    let (m2, g, r2) = run_tests-Refines order rest m1 s r1 h.1 in (m2, rw e (rw g refl), r2)
