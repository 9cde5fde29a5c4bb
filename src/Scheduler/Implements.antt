-- ===== src/Scheduler/Implements.antt =====
-- Each request, and each sequence of requests, does to the registry what it does to the services.
use service_recovery_schedul.Base.{
  ◌≤◌, ◌≡◌, refl, inl, inr, String, Bool, true, none, List, [], ◌∷◌, Outcome, ok, ◌>>=◌, length,
  if◌then◌else◌, Option-cases, Bool-cases,
}
use service_recovery_schedul.Base.Int.{ℤ}
use service_recovery_schedul.Base.Map.{Iteration, lookup, update, erase, emplace}
use service_recovery_schedul.States.{RecoveryState, is_unknown}
use service_recovery_schedul.Service.{ServiceRecoveryInfo}
use service_recovery_schedul.Scheduler.{
  Registry, on_service_failure, on_register_service, on_unregister_service, on_report_service_state,
}
use service_recovery_schedul.Scheduler.Registry.{failure_lem, unregister_lem}
use service_recovery_schedul.Scheduler.Requests.{
  Request, registers, unregisters, reports, fails, step, run,
}
use service_recovery_schedul.Scheduler.Spec.{
  Entry, Services, no_services, registered, register_entry, report_entry, fail_entry, at, is_listed,
  spec_step, is_registered, spec_reply, spec_run, realise, Fits, All,
}
use service_recovery_schedul.Scheduler.Refinement.{
  Refines, Refines-IsRegistry, failed_entry, fail-realise, new_info-realise, report-realise,
  requested-Small, absent, present, size_of, unchanged, updated, emplaced, erased,
}

-- The outcome is defined, with this reply, and its registry refines these services.
abbrev pub Does : Outcome (Bool × Registry) → Bool → Services → Type 0
Does o reply s = (m : Registry) × (o ≡ ok (reply, m)) × Refines m s

module _ {m : Registry} {s : Services} (r : Refines m s) where
  pub register-Does :
      (name : String) (actions : List RecoveryState) (interval pid : ℤ)
      → length actions ≤ 127
      → Does
          (ok (on_register_service name actions interval pid m))
          (if is_registered (s name) then true else is_listed name)
          (at name (register_entry (is_listed name) actions interval (s name)) s)
  unfolding on_register_service is_listed
  register-Does name actions interval pid h = elim (Option-cases (s name)) [
    | inl e ↦ elim (Bool-cases (is_listed name)) [
      | inl l ↦ (
        emplace name (realise name (registered actions interval)) m,
        rw (e, l, absent r name e, on_register_service, l, new_info-realise) refl,
        rw (e, l) (emplaced r name (registered actions interval) e (requested-Small actions h)),
      )
      | inr l ↦ (
        m,
        rw (e, l, absent r name e, on_register_service, l) refl,
        rw (e, l) (unchanged r name e),
      )
    ]
    | inr (x, e) ↦ (
      update name (realise name (record x { is_online = true })) m,
      rw (e, present r name x e, on_register_service) refl,
      rw e (updated r name x (record x { is_online = true }) e (size_of r name x e)),
    )
  ]

  pub unregister-Does :
      (order : Iteration ServiceRecoveryInfo) (name : String)
      → Does (ok (on_unregister_service order name m)) (is_registered (s name)) (at name none s)
  unregister-Does order name = elim (Option-cases (s name)) [
    | inl e ↦ (
      m,
      rw (e, unregister_lem order name m (Refines-IsRegistry r), absent r name e) refl,
      unchanged r name e,
    )
    | inr (x, e) ↦ (
      erase name m,
      rw (e, unregister_lem order name m (Refines-IsRegistry r), present r name x e) refl,
      erased r name,
    )
  ]

  pub report-Does :
      (name : String) (current last : RecoveryState)
      → Does
          (ok (on_report_service_state name current last m))
          (is_registered (s name))
          (at name (report_entry current last (s name)) s)
  unfolding on_report_service_state
  report-Does name current last = elim (Option-cases (s name)) [
    | inl e ↦ (m, rw (e, absent r name e, on_report_service_state) refl, rw e (unchanged r name e))
    | inr (x, e) ↦
        let x' : Entry = record x {
          current = current;
          last = if is_unknown last then x.last else last;
        } in
        (
          update name (realise name x') m,
          rw (e, present r name x e, on_report_service_state, report-realise) refl,
          rw e (updated r name x x' e (size_of r name x e)),
        )
  ]

  pub failure-Does :
      (order : Iteration ServiceRecoveryInfo) (name : String)
      → Does
          (on_service_failure order name m >>= λ m'. ok (true, m'))
          true
          (at name (fail_entry (s name)) s)
  failure-Does order name = elim (Option-cases (s name)) [
    | inl e ↦ (
      m,
      rw (failure_lem order name m (Refines-IsRegistry r), absent r name e) refl,
      rw e (unchanged r name e),
    )
    | inr (x, e) ↦
        let (low, high) = size_of r name x e in
        (
          update name (realise name (failed_entry x)) m,
          rw
              (
                failure_lem order name m (Refines-IsRegistry r),
                present r name x e,
                fail-realise name x low high,
              )
              refl,
          rw e (updated r name x (failed_entry x) e (size_of r name x e)),
        )
  ]

module _ (order : Iteration ServiceRecoveryInfo) where
  -- One request with a policy of at most 127 actions, on a registry that stands for some abstract
  -- services: there is no undefined behaviour, the reply is the abstract one, and the new registry
  -- stands for the new services, in whatever order the map is searched.
  pub step-Refines :
      (q : Request) (m : Registry) (s : Services)
      → Refines m s
      → Fits q
      → Does (step order q m) (spec_reply q s) (spec_step q s)
  unfolding step spec_step spec_reply
  step-Refines (registers name actions interval pid) m s r h =
      register-Does r name actions interval pid h
  step-Refines (unregisters name) m s r h = unregister-Does r order name
  step-Refines (reports name current last) m s r h = report-Does r name current last
  step-Refines (fails name) m s r h = failure-Does r order name

  run-Refines :
      (qs : List Request) (m : Registry) (s : Services)
      → Refines m s
      → All Fits qs
      → (m' : Registry) × (run order qs m ≡ ok ((spec_run qs s).0, m'))
        × Refines m' (spec_run qs s).1
  unfolding run spec_run
  run-Refines [] m s r h = (m, refl, r)
  run-Refines (q ∷ rest) m s r h =
      let (m', go, r') = step-Refines q m s r h.0 in
      let (last, more, r'') = run-Refines rest m' (spec_step q s) r' h.1 in
      (last, rw go (rw more refl), r'')

  pub empty-Refines : Refines [] no_services
  unfolding lookup
  empty-Refines = record { unique = tt; agrees = λ name. refl; small = λ name. tt }

  -- From the empty registry, every sequence of registrations (of policies of at most 127 actions),
  -- unregistrations, reports and failures runs with no undefined behaviour; it gives the replies of
  -- the abstract services, and the registry it ends in stands for the services these end in.
  pub run-spec_run :
      (qs : List Request)
      → All Fits qs
      → (m : Registry) × (run order qs [] ≡ ok ((spec_run qs no_services).0, m))
        × Refines m (spec_run qs no_services).1
  run-spec_run qs h = run-Refines qs [] no_services empty-Refines h
