-- ===== src/UnitTests/Simulation.antt =====
-- A test does on the registry what it does on the abstract services.
use service_recovery_schedul.Base.{
  ◌≤◌, ◌≡◌, refl, String, Bool, true, none, List, [], ◌∷◌, Outcome, ok, bind-ok, length,
  if◌then◌else◌, Bool-cases, inl, inr,
}
use service_recovery_schedul.Base.Int.{minus_one}
use service_recovery_schedul.Base.Map.{Iteration}
use service_recovery_schedul.Service.{ServiceRecoveryInfo}
use service_recovery_schedul.Scheduler.{
  Registry, on_service_failure, on_register_service, on_unregister_service, on_report_service_state,
  get_service_state,
}
use service_recovery_schedul.Scheduler.Spec.{
  Services, register_entry, report_entry, fail_entry, at, is_listed, is_registered, spec_snapshot,
  All,
}
use service_recovery_schedul.Scheduler.Refinement.{Refines}
use service_recovery_schedul.Scheduler.Implements.{
  register-Does, unregister-Does, report-Does, failure-Does,
}
use service_recovery_schedul.Scheduler.Snapshots.{get_service_state-spec_snapshot}
use service_recovery_schedul.UnitTests.{
  Api, Statement, asserts_register, expects_register, expects_unregister, expects_report, fails,
  asserts, expects, clears, Fixture, exec, exec_all, tear_down, run_test,
}

-- CRecoveryScheduler, as the tests call it
abbrev pub scheduler_api : Iteration ServiceRecoveryInfo → Api Registry
scheduler_api order = record {
  register = on_register_service;
  unregister = on_unregister_service order;
  report = on_report_service_state;
  failure = on_service_failure order;
  query = get_service_state;
}

abbrev pub services_api : Api Services
services_api = record {
  register = λ name actions interval pid s. (
    if is_registered (s name) then true else is_listed name,
    at name (register_entry (is_listed name) actions interval (s name)) s,
  );
  unregister = λ name s. (is_registered (s name), at name none s);
  report = λ name current last s.
      (is_registered (s name), at name (report_entry current last (s name)) s);
  failure = λ name s. ok (at name (fail_entry (s name)) s);
  query = λ name s. ok (spec_snapshot (s name));
}

-- a test's policies have at most 127 actions
abbrev pub FitsStatement : Statement → Type 0
FitsStatement (asserts_register name actions) = length actions ≤ 127
FitsStatement (expects_register expected name actions) = length actions ≤ 127
FitsStatement _ = Unit

abbrev on : Registry → Fixture Services → Fixture Registry
on m f = record { state = m; registered = f.registered; passed = f.passed }

module _ (order : Iteration ServiceRecoveryInfo) where
  abbrev api : Api Registry
  api = scheduler_api order

  exec-Refines :
      (st : Statement) (f : Fixture Services) (m : Registry)
      → FitsStatement st
      → Refines m f.state
      → (b : Bool) × (f' : Fixture Services) × (m' : Registry) × (exec services_api st f
          ≡ ok (b, f'))
        × (exec api st (on m f) ≡ ok (b, on m' f'))
        × Refines m' f'.state
  unfolding exec
  exec-Refines (asserts_register name actions) f m h r =
      let (m', go, r') = register-Does r name actions minus_one minus_one h in
      let e : on_register_service name actions minus_one minus_one m
          ≡ (if is_registered (f.state name) then true else is_listed name, m') =
        cc in
      (_, _, m', refl, rw e refl, r')
  exec-Refines (expects_register expected name actions) f m h r =
      let (m', go, r') = register-Does r name actions minus_one minus_one h in
      let e : on_register_service name actions minus_one minus_one m
          ≡ (if is_registered (f.state name) then true else is_listed name, m') =
        cc in
      (_, _, m', refl, rw e refl, r')
  exec-Refines (expects_unregister expected name) f m h r =
      let (m', go, r') = unregister-Does r order name in
      let e : on_unregister_service order name m ≡ (is_registered (f.state name), m') = cc in
      (_, _, m', refl, rw e refl, r')
  exec-Refines (expects_report expected name current last) f m h r =
      let (m', go, r') = report-Does r name current last in
      let e : on_report_service_state name current last m ≡ (is_registered (f.state name), m') =
        cc in
      (_, _, m', refl, rw e refl, r')
  exec-Refines (fails name) f m h r =
      let (m', go, r') = failure-Does r order name in
      let (x, e, g) = bind-ok (on_service_failure order name m) (λ m'. ok (true, m')) go in
      let q : x ≡ m' = cc in (_, _, m', refl, rw (e, q) refl, r')
  exec-Refines (asserts name check) f m h r =
      (_, _, m, refl, rw (get_service_state-spec_snapshot m f.state name r) refl, r)
  exec-Refines (expects name check) f m h r =
      (_, _, m, refl, rw (get_service_state-spec_snapshot m f.state name r) refl, r)
  exec-Refines clears f m h r = (true, record f { registered = [] }, m, refl, refl, r)

  exec_all-Refines :
      (body : List Statement) (f : Fixture Services) (m : Registry)
      → All FitsStatement body
      → Refines m f.state
      → (f' : Fixture Services) × (m' : Registry) × (exec_all services_api body f ≡ ok f')
        × (exec_all api body (on m f) ≡ ok (on m' f'))
        × Refines m' f'.state
  unfolding exec_all
  exec_all-Refines [] f m h r = (f, m, refl, refl, r)
  exec_all-Refines (st ∷ rest) f m h r =
      let (b, f1, m1, e, g, r1) = exec-Refines st f m h.0 r in
      elim (Bool-cases b) [
        | inl t ↦
            let (f2, m2, e2, g2, r2) = exec_all-Refines rest f1 m1 h.1 r1 in
            (f2, m2, rw (e, t) e2, rw (g, t) g2, r2)
        | inr t ↦ (f1, m1, rw (e, t) refl, rw (g, t) refl, r1)
      ]

  tear_down-Refines :
      (names : List String) (s : Services) (m : Registry)
      → Refines m s
      → Refines (tear_down api names m) (tear_down services_api names s)
  unfolding tear_down
  tear_down-Refines [] s m r = r
  tear_down-Refines (name ∷ rest) s m r =
      let (m', go, r') = unregister-Does r order name in
      let e : (on_unregister_service order name m).1 ≡ m' = cc in
      rw e (tear_down-Refines rest (at name none s) m' r')

  -- one test, seen from the services
  pub run_test-Refines :
      (body : List Statement) (s s' : Services) (m : Registry) (passed : Bool)
      → All FitsStatement body
      → run_test services_api body s ≡ ok (passed, s')
      → Refines m s
      → (m' : Registry) × (run_test api body m ≡ ok (passed, m')) × Refines m' s'
  unfolding run_test
  run_test-Refines body s s' m passed h go r =
      let start : Fixture Services = record { state = s; registered = []; passed = true } in
      let (f, m1, e, g, r1) = exec_all-Refines body start m h r in
      let q : ◌≡◌ {A = Outcome (Bool × Services)}
          (ok (f.passed, tear_down services_api f.registered f.state)) (ok (passed, s')) =
        rw e at go in
      let p : f.passed ≡ passed = cc in
      let u : tear_down services_api f.registered f.state ≡ s' = cc in
      (
        tear_down api f.registered m1,
        rw (g, p) refl,
        rw (← u) (tear_down-Refines f.registered f.state m1 r1),
      )
