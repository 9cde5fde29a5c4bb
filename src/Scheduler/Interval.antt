-- ===== src/Scheduler/Interval.antt =====
-- The interval and the pid of a registration: the first is stored in the record, the second is only
-- logged, and no handler reads either.
use service_recovery_schedul.Base.{
  ◌≡◌, refl, sym, ap, ◌∙◌, inl, inr, String, Bool, true, false, List, [], ◌∷◌, Outcome, ok,
  undefined, ◌>>=◌, Option-cases, Bool-cases, Outcome-cases,
}
use service_recovery_schedul.Base.Int.{ℤ, minus_one}
use service_recovery_schedul.Base.Map.{Iteration, lookup}
use service_recovery_schedul.States.{RecoveryState}
use service_recovery_schedul.Catalogue.{service_names, scan_names}
use service_recovery_schedul.Service.{ServiceRecoveryInfo, ServiceSnapshot, fail, report, new_info}
use service_recovery_schedul.Scheduler.{
  Registry, on_service_failure, on_register_service, on_unregister_service, on_report_service_state,
  get_service_state,
}
use service_recovery_schedul.Scheduler.Registry.{IsRegistry, failure_lem, unregister_lem}
use service_recovery_schedul.Scheduler.Requests.{
  Request, registers, unregisters, reports, fails, step, run,
}
use service_recovery_schedul.Scheduler.Isolation.{step-others}
use service_recovery_schedul.Scheduler.Cooled.{
  cooled, absent, present, update-cooled, emplace-cooled, erase-cooled, fail-cool, snapshot-cool,
  cooled-IsRegistry,
}

-- the same request with no interval and no pid
unfoldable pub hasty : Request → Request
hasty (registers name actions interval pid) = registers name actions minus_one minus_one
hasty (unregisters name) = unregisters name
hasty (reports name current last) = reports name current last
hasty (fails name) = fails name

unfoldable pub all_hasty : List Request → List Request
all_hasty [] = []
all_hasty (q ∷ rest) = hasty q ∷ all_hasty rest

abbrev cooled_result : {A : Type 0} → Outcome (A × Registry) → Outcome (A × Registry)
cooled_result undefined = undefined
cooled_result (ok (a, m)) = ok (a, cooled m)

register-cooled :
    (name : String) (actions : List RecoveryState) (interval pid : ℤ) (m : Registry)
    → ok (on_register_service name actions minus_one minus_one (cooled m))
      ≡ cooled_result (ok (on_register_service name actions interval pid m))
unfolding on_register_service new_info
register-cooled name actions interval pid m = elim (Option-cases (lookup name m)) [
  | inl e ↦ elim (Bool-cases (scan_names name false service_names)) [
    | inl l ↦
        rw (e, absent name m e, on_register_service, l)
          (ap (λ (x : Registry). ok (true, x))
            (emplace-cooled name (new_info name actions interval) m))
    | inr l ↦ rw (e, absent name m e, on_register_service, l) refl
  ]
  | inr (info, e) ↦
      rw (e, present name m info e, on_register_service)
        (ap (λ (x : Registry). ok (true, x))
          (update-cooled name (record info { is_online = true }) m))
]

report-cooled :
    (name : String) (current last : RecoveryState) (m : Registry)
    → ok (on_report_service_state name current last (cooled m))
      ≡ cooled_result (ok (on_report_service_state name current last m))
unfolding on_report_service_state report
report-cooled name current last m = elim (Option-cases (lookup name m)) [
  | inl e ↦ rw (e, absent name m e, on_report_service_state) refl
  | inr (info, e) ↦
      rw (e, present name m info e, on_report_service_state)
        (ap (λ (x : Registry). ok (true, x)) (update-cooled name (report current last info) m))
]

cons-cooled :
    (b : Bool) (o : Outcome (List Bool × Registry))
    → (cooled_result o >>= λ q. ok (b ∷ q.0, q.1)) ≡ cooled_result (o >>= λ q. ok (b ∷ q.0, q.1))
cons-cooled b undefined = refl
cons-cooled b (ok p) = refl

snapshots-cooled :
    (m : Registry) (name : String) → get_service_state name (cooled m) ≡ get_service_state name m
unfolding get_service_state
snapshots-cooled m name = elim (Option-cases (lookup name m)) [
  | inl e ↦ rw (e, absent name m e, get_service_state) refl
  | inr (info, e) ↦ rw (e, present name m info e, get_service_state) (snapshot-cool info)
]

-- what a client and the console see of a run: the replies, and then each name's snapshot
abbrev pub Sight : Type 0
Sight = List Bool × (String → Outcome ServiceSnapshot)

abbrev pub seen : Outcome (List Bool × Registry) → Outcome Sight
seen undefined = undefined
seen (ok (replies, m)) = ok (replies, λ name. get_service_state name m)

seen-cooled : (o : Outcome (List Bool × Registry)) → seen (cooled_result o) ≡ seen o
seen-cooled undefined = refl
seen-cooled (ok (replies, m)) = λ i. ok (replies, λ name. snapshots-cooled m name i)

module _ (order : Iteration ServiceRecoveryInfo) where
  unregister-cooled :
      (name : String) (m : Registry)
      → IsRegistry m
      → ok (on_unregister_service order name (cooled m))
        ≡ cooled_result (ok (on_unregister_service order name m))
  unregister-cooled name m v =
      let w = cooled-IsRegistry m v in
      elim (Option-cases (lookup name m)) [
        | inl e ↦
            rw
              (
                unregister_lem order name m v,
                unregister_lem order name (cooled m) w,
                e,
                absent name m e,
              )
              refl
        | inr (info, e) ↦
            rw
              (
                unregister_lem order name m v,
                unregister_lem order name (cooled m) w,
                e,
                present name m info e,
              )
              (ap (λ (x : Registry). ok (true, x)) (erase-cooled name m))
      ]

  failure-cooled :
      (name : String) (m : Registry)
      → IsRegistry m
      → (on_service_failure order name (cooled m) >>= λ x. ok (true, x))
        ≡ cooled_result (on_service_failure order name m >>= λ x. ok (true, x))
  failure-cooled name m v =
      let w = cooled-IsRegistry m v in
      elim (Option-cases (lookup name m)) [
        | inl e ↦
            rw (failure_lem order name m v, failure_lem order name (cooled m) w, e, absent name m e)
              refl
        | inr (info, e) ↦ elim (Outcome-cases (fail info)) [
          | inl f ↦
              rw
                (
                  failure_lem order name m v,
                  failure_lem order name (cooled m) w,
                  e,
                  present name m info e,
                  fail-cool,
                  f,
                )
                refl
          | inr (next, f) ↦
              rw
                (
                  failure_lem order name m v,
                  failure_lem order name (cooled m) w,
                  e,
                  present name m info e,
                  fail-cool,
                  f,
                )
                (ap (λ (x : Registry). ok (true, x)) (update-cooled name next m))
        ]
      ]

  step-cooled :
      (q : Request) (m : Registry)
      → IsRegistry m
      → step order (hasty q) (cooled m) ≡ cooled_result (step order q m)
  unfolding step hasty
  step-cooled (registers name actions interval pid) m v =
      register-cooled name actions interval pid m
  step-cooled (unregisters name) m v = unregister-cooled name m v
  step-cooled (reports name current last) m v = report-cooled name current last m
  step-cooled (fails name) m v = failure-cooled name m v

  run-cooled :
      (qs : List Request) (m : Registry)
      → IsRegistry m
      → run order (all_hasty qs) (cooled m) ≡ cooled_result (run order qs m)
  unfolding run all_hasty
  run-cooled [] m v = refl
  run-cooled (q ∷ rest) m v = elim (Outcome-cases (step order q m)) [
    | inl e ↦ let c = step-cooled q m v ∙ ap cooled_result e in rw (c, e) refl
    | inr ((b, m'), e) ↦
        let c = step-cooled q m v ∙ ap cooled_result e in
        rw (c, e, run-cooled rest m' (step-others order q m m' b v e).0)
          (cons-cooled b (run order rest m'))
  ]

  -- Take two sequences of requests that differ at most in the intervals and the pids of their
  -- registrations. On a registry of the right form, both have undefined behaviour, or both give the
  -- same replies and end in registries with the same snapshot for every name.
  pub run-hasty :
      (qs qs' : List Request) (m : Registry)
      → IsRegistry m
      → all_hasty qs ≡ all_hasty qs'
      → seen (run order qs m) ≡ seen (run order qs' m)
  run-hasty qs qs' m v h =
      sym (seen-cooled (run order qs m))
      ∙ ap seen (
          sym (run-cooled qs m v)
          ∙ ap (λ (l : List Request). run order l (cooled m)) h
          ∙ run-cooled qs' m v)
      ∙ seen-cooled (run order qs' m)
