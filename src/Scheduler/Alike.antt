-- ===== src/Scheduler/Alike.antt =====
-- Two registries with the same lookups: each request does the same to both, in whatever orders their
-- maps are visited.
use service_recovery_schedul.Base.{
  ◌≡◌, refl, sym, ◌∙◌, ◌⊎◌, inl, inr, String, Bool, true, false, none, some, List, arith, Outcome,
  ok, undefined, ◌>>=◌, Option-cases, Outcome-cases, Bool-cases,
}
use service_recovery_schedul.Base.Int.{ℤ}
use service_recovery_schedul.Base.Map.{
  Iteration, lookup, update, erase, emplace, lookup-update, lookup-erase, lookup-emplace,
}
use service_recovery_schedul.States.{RecoveryState}
use service_recovery_schedul.Catalogue.{service_names, scan_names}
use service_recovery_schedul.Service.{ServiceRecoveryInfo, fail, report, new_info}
use service_recovery_schedul.Scheduler.{
  Registry, on_service_failure, on_register_service, on_unregister_service, on_report_service_state,
}
use service_recovery_schedul.Scheduler.Registry.{IsRegistry, failure_lem, unregister_lem}
use service_recovery_schedul.Scheduler.Requests.{
  Request, registers, unregisters, reports, fails, step,
}

abbrev pub Same : Registry → Registry → Type 0
Same m m' = (name : String) → lookup name m ≡ lookup name m'

Same-update :
    (name : String) (info : ServiceRecoveryInfo) (m m' : Registry)
    → Same m m'
    → Same (update name info m) (update name info m')
Same-update name info m m' h j =
    ground (arith, lookup-update name j info m, lookup-update name j info m', h j)

Same-emplace :
    (name : String) (info : ServiceRecoveryInfo) (m m' : Registry)
    → Same m m'
    → Same (emplace name info m) (emplace name info m')
Same-emplace name info m m' h j =
    ground (arith, lookup-emplace name j info m, lookup-emplace name j info m', h j)

Same-erase :
    (name : String) (m m' : Registry)
    → IsRegistry m
    → IsRegistry m'
    → Same m m'
    → Same (erase name m) (erase name m')
Same-erase name m m' v v' h j =
    ground (arith, lookup-erase name j m v.unique, lookup-erase name j m' v'.unique, h j)

-- two results that nobody can tell apart
abbrev pub Alike : Outcome (Bool × Registry) → Outcome (Bool × Registry) → Type 0
Alike o o' =
    ((o ≡ undefined) × (o' ≡ undefined))
    ⊎ ((b : Bool) × (m : Registry) × (m' : Registry) × (o ≡ ok (b, m))
        × (o' ≡ ok (b, m'))
        × Same m m')

register-Alike :
    (name : String) (actions : List RecoveryState) (interval pid : ℤ) (m m' : Registry)
    → Same m m'
    → Alike
        (ok (on_register_service name actions interval pid m))
        (ok (on_register_service name actions interval pid m'))
unfolding on_register_service
register-Alike name actions interval pid m m' h = elim (Option-cases (lookup name m)) [
  | inl e ↦
      let e' : lookup name m' ≡ none = sym (h name) ∙ e in
      elim (Bool-cases (scan_names name false service_names)) [
        | inl l ↦ inr (
          true,
          emplace name (new_info name actions interval) m,
          emplace name (new_info name actions interval) m',
          rw (e, on_register_service, l) refl,
          rw (e', on_register_service, l) refl,
          Same-emplace name (new_info name actions interval) m m' h,
        )
        | inr l ↦ inr (
          false,
          m,
          m',
          rw (e, on_register_service, l) refl,
          rw (e', on_register_service, l) refl,
          h,
        )
      ]
  | inr (info, e) ↦
      let e' : lookup name m' ≡ some info = sym (h name) ∙ e in
      inr (
        true,
        update name (record info { is_online = true }) m,
        update name (record info { is_online = true }) m',
        rw (e, on_register_service) refl,
        rw (e', on_register_service) refl,
        Same-update name (record info { is_online = true }) m m' h,
      )
]

report-Alike :
    (name : String) (current last : RecoveryState) (m m' : Registry)
    → Same m m'
    → Alike
        (ok (on_report_service_state name current last m))
        (ok (on_report_service_state name current last m'))
unfolding on_report_service_state
report-Alike name current last m m' h = elim (Option-cases (lookup name m)) [
  | inl e ↦
      let e' : lookup name m' ≡ none = sym (h name) ∙ e in
      inr (
        false,
        m,
        m',
        rw (e, on_report_service_state) refl,
        rw (e', on_report_service_state) refl,
        h,
      )
  | inr (info, e) ↦
      let e' : lookup name m' ≡ some info = sym (h name) ∙ e in
      inr (
        true,
        update name (report current last info) m,
        update name (report current last info) m',
        rw (e, on_report_service_state) refl,
        rw (e', on_report_service_state) refl,
        Same-update name (report current last info) m m' h,
      )
]

module _ (order order' : Iteration ServiceRecoveryInfo) where
  unregister-Alike :
      (name : String) (m m' : Registry)
      → IsRegistry m
      → IsRegistry m'
      → Same m m'
      → Alike (ok (on_unregister_service order name m)) (ok (on_unregister_service order' name m'))
  unregister-Alike name m m' v v' h = elim (Option-cases (lookup name m)) [
    | inl e ↦
        let e' : lookup name m' ≡ none = sym (h name) ∙ e in
        inr (
          false,
          m,
          m',
          rw (unregister_lem order name m v, e) refl,
          rw (unregister_lem order' name m' v', e') refl,
          h,
        )
    | inr (info, e) ↦
        let e' : lookup name m' ≡ some info = sym (h name) ∙ e in
        inr (
          true,
          erase name m,
          erase name m',
          rw (unregister_lem order name m v, e) refl,
          rw (unregister_lem order' name m' v', e') refl,
          Same-erase name m m' v v' h,
        )
  ]

  failure-Alike :
      (name : String) (m m' : Registry)
      → IsRegistry m
      → IsRegistry m'
      → Same m m'
      → Alike
          (on_service_failure order name m >>= λ x. ok (true, x))
          (on_service_failure order' name m' >>= λ x. ok (true, x))
  failure-Alike name m m' v v' h = elim (Option-cases (lookup name m)) [
    | inl e ↦
        let e' : lookup name m' ≡ none = sym (h name) ∙ e in
        inr (
          true,
          m,
          m',
          rw (failure_lem order name m v, e) refl,
          rw (failure_lem order' name m' v', e') refl,
          h,
        )
    | inr (info, e) ↦
        let e' : lookup name m' ≡ some info = sym (h name) ∙ e in
        elim (Outcome-cases (fail info)) [
          | inl f ↦ inl (
            rw (failure_lem order name m v, e, f) refl,
            rw (failure_lem order' name m' v', e', f) refl,
          )
          | inr (next, f) ↦ inr (
            true,
            update name next m,
            update name next m',
            rw (failure_lem order name m v, e, f) refl,
            rw (failure_lem order' name m' v', e', f) refl,
            Same-update name next m m' h,
          )
        ]
  ]

  pub step-Alike :
      (q : Request) (m m' : Registry)
      → IsRegistry m
      → IsRegistry m'
      → Same m m'
      → Alike (step order q m) (step order' q m')
  unfolding step
  step-Alike (registers name actions interval pid) m m' v v' h =
      register-Alike name actions interval pid m m' h
  step-Alike (unregisters name) m m' v v' h = unregister-Alike name m m' v v' h
  step-Alike (reports name current last) m m' v v' h = report-Alike name current last m m' h
  step-Alike (fails name) m m' v v' h = failure-Alike name m m' v v' h
