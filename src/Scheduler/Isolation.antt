-- ===== src/Scheduler/Isolation.antt =====
-- Requests about one name keep the registry's form and leave the other names alone, whatever the
-- policies.
use service_recovery_schedul.Base.{
  ◌≡◌, ◌≢◌, refl, ap, ◌∙◌, inl, inr, List, String, Bool, true, false, arith, ok, ◌>>=◌, bind-ok,
  eq_iff, Option-cases, Bool-cases,
}
use service_recovery_schedul.Base.Int.{ℤ}
use service_recovery_schedul.Base.Map
use service_recovery_schedul.Base.Map.{
  Iteration, lookup, update, erase, emplace, lookup-update, lookup-erase, lookup-emplace,
}
use service_recovery_schedul.States.{RecoveryState}
use service_recovery_schedul.Catalogue.{service_names, scan_names}
use service_recovery_schedul.Service.{ServiceRecoveryInfo, fail, report, new_info}
use service_recovery_schedul.Scheduler.{
  Registry, on_service_failure, on_register_service, on_unregister_service, on_report_service_state,
}
use service_recovery_schedul.Scheduler.Registry.{IsRegistry, failure_lem, unregister_lem}
use service_recovery_schedul.Scheduler.Requests.{
  Request, registers, unregisters, reports, fails, step,
}

-- the name that a request is about
abbrev pub subject : Request → String
subject (registers name actions interval pid) = name
subject (unregisters name) = name
subject (reports name current last) = name
subject (fails name) = name

-- The ways in which a request can change the registry: it writes, adds or drops the record of one
-- name, which is the record's own.
data Change (name : String) (m m' : Registry) : Type 0 where
  same : m' ≡ m → Change name m m'
  wrote :
      (info : ServiceRecoveryInfo)
      → info.service_name ≡ name
      → m' ≡ update name info m
      → Change name m m'
  added :
      (info : ServiceRecoveryInfo)
      → info.service_name ≡ name
      → m' ≡ emplace name info m
      → Change name m m'
  dropped : m' ≡ erase name m → Change name m m'

pub names_update :
    (name : String) (info : ServiceRecoveryInfo) (m : Registry)
    → IsRegistry m
    → info.service_name ≡ name
    → IsRegistry (update name info m)
names_update name info m v h = record {
  unique = Map.update-Unique name info m v.unique;
  own_names = λ j x e. ground (
    arith,
    lookup-update name j info m,
    eq_iff name j,
    v.own_names j x,
    Option-cases (lookup j m),
  );
}

pub names_emplace :
    (name : String) (info : ServiceRecoveryInfo) (m : Registry)
    → IsRegistry m
    → info.service_name ≡ name
    → IsRegistry (emplace name info m)
names_emplace name info m v h = record {
  unique = Map.emplace-Unique name info m v.unique;
  own_names = λ j x e. ground (arith, lookup-emplace name j info m, eq_iff name j, v.own_names j x);
}

pub names_erase : (name : String) (m : Registry) → IsRegistry m → IsRegistry (erase name m)
names_erase name m v = record {
  unique = Map.erase-Unique name m v.unique;
  own_names = λ j x e. ground (arith, lookup-erase name j m v.unique, v.own_names j x);
}

Change-IsRegistry :
    {name : String} {m m' : Registry} → Change name m m' → IsRegistry m → IsRegistry m'
Change-IsRegistry (same e) v = rw e v
Change-IsRegistry {name} {m} (wrote info h e) v = rw e (names_update name info m v h)
Change-IsRegistry {name} {m} (added info h e) v = rw e (names_emplace name info m v h)
Change-IsRegistry {name} {m} (dropped e) v = rw e (names_erase name m v)

Change-others :
    {name : String} {m m' : Registry}
    → Change name m m'
    → IsRegistry m
    → (j : String) → name ≢ j
    → lookup j m' ≡ lookup j m
Change-others (same e) v j n = rw e
Change-others {name} {m} (wrote info h e) v j n =
    rw e (ground (arith, lookup-update name j info m, eq_iff name j))
Change-others {name} {m} (added info h e) v j n =
    rw e (ground (arith, lookup-emplace name j info m, eq_iff name j))
Change-others {name} {m} (dropped e) v j n =
    rw e (ground (arith, lookup-erase name j m v.unique, eq_iff name j))

pub fail_name :
    (info next : ServiceRecoveryInfo) → fail info ≡ ok next → next.service_name ≡ info.service_name
unfolding fail
fail_name info next h = ground arith

pub new_name :
    (name : String) (actions : List RecoveryState) (interval : ℤ)
    → (new_info name actions interval).service_name ≡ name
unfolding new_info
new_name name actions interval = refl

register-Change :
    (name : String) (actions : List RecoveryState) (interval pid : ℤ) (m : Registry)
    → IsRegistry m
    → Change name m (on_register_service name actions interval pid m).1
unfolding on_register_service
register-Change name actions interval pid m v = elim (Option-cases (lookup name m)) [
  | inl e ↦ elim (Bool-cases (scan_names name false service_names)) [
    | inl l ↦
        added (new_info name actions interval) (new_name name actions interval)
          (rw (e, on_register_service, l) refl)
    | inr l ↦ same (rw (e, on_register_service, l) refl)
  ]
  | inr (info, e) ↦
      wrote (record info { is_online = true }) (v.own_names name info e)
        (rw (e, on_register_service) refl)
]

report-Change :
    (name : String) (current last : RecoveryState) (m : Registry)
    → IsRegistry m
    → Change name m (on_report_service_state name current last m).1
unfolding on_report_service_state report
report-Change name current last m v = elim (Option-cases (lookup name m)) [
  | inl e ↦ same (rw (e, on_report_service_state) refl)
  | inr (info, e) ↦
      wrote (report current last info) (v.own_names name info e)
        (rw (e, on_report_service_state) refl)
]

module _ (order : Iteration ServiceRecoveryInfo) where
  unregister-Change :
      (name : String) (m : Registry)
      → IsRegistry m
      → Change name m (on_unregister_service order name m).1
  unregister-Change name m v = elim (Option-cases (lookup name m)) [
    | inl e ↦ same (rw (unregister_lem order name m v, e) refl)
    | inr (info, e) ↦ dropped (rw (unregister_lem order name m v, e) refl)
  ]

  failure-Change :
      (name : String) (m m' : Registry)
      → IsRegistry m
      → on_service_failure order name m ≡ ok m'
      → Change name m m'
  failure-Change name m m' v h = elim (Option-cases (lookup name m)) [
    | inl e ↦ same (let h' : ok m ≡ ok m' = rw (failure_lem order name m v, e) at h in cc)
    | inr (info, e) ↦
        let h' : (fail info >>= λ next. ok (update name next m)) ≡ ok m' =
          rw (failure_lem order name m v, e) at h in
        let (next, f, g) = bind-ok (fail info) (λ next. ok (update name next m)) h' in
        wrote next (fail_name info next f ∙ v.own_names name info e) (cc)
  ]

  step-Change :
      (q : Request) (m m' : Registry) (reply : Bool)
      → IsRegistry m
      → step order q m ≡ ok (reply, m')
      → Change (subject q) m m'
  unfolding step
  step-Change (registers name actions interval pid) m m' reply v h =
      let e : (on_register_service name actions interval pid m).1 ≡ m' = cc in
      rw e at (register-Change name actions interval pid m v)
  step-Change (unregisters name) m m' reply v h =
      let e : (on_unregister_service order name m).1 ≡ m' = cc in
      rw e at (unregister-Change name m v)
  step-Change (reports name current last) m m' reply v h =
      let e : (on_report_service_state name current last m).1 ≡ m' = cc in
      rw e at (report-Change name current last m v)
  step-Change (fails name) m m' reply v h =
      let (x, f, g) = bind-ok (on_service_failure order name m) (λ x. ok (true, x)) h in
      failure-Change name m m' v (f ∙ ap ok (cc))

  -- A request that has no undefined behaviour, whatever its policy, keeps the registry's form (one
  -- record for each key, kept under its own name), and what every other name finds in the registry.
  pub step-others :
      (q : Request) (m m' : Registry) (reply : Bool)
      → IsRegistry m
      → step order q m ≡ ok (reply, m')
      → IsRegistry m' × ((j : String) → subject q ≢ j → lookup j m' ≡ lookup j m)
  step-others q m m' reply v h =
      let c = step-Change q m m' reply v h in (Change-IsRegistry c v, Change-others c v)
