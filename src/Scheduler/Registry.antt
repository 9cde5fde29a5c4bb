-- ===== src/Scheduler/Registry.antt =====
-- The registry's form: one record for each key, kept under its own name. The search by the records'
-- names finds what a lookup of the key does, in whatever order the map is visited.
use service_recovery_schedul.Base.{
  String, ◌≡◌, refl, sym, ap, ◌∙◌, inl, inr, Bool, true, false, Option, none, some, arith, ok,
  ◌>>=◌, str_eq, eq_iff, Option-cases,
}
use service_recovery_schedul.Base.Map.{
  lookup, update, erase, find_if, Iteration, Unique, lookup-Has, Has-of_lookup, find_if-Has,
  find_if-none,
}
use service_recovery_schedul.Service.{ServiceRecoveryInfo, fail}
use service_recovery_schedul.Scheduler.{
  Registry, find_service, on_service_failure, on_unregister_service,
}

pub record IsRegistry (m : Registry) : Type 0 where
  pub unique : Unique m
  pub own_names :
      (name : String) (info : ServiceRecoveryInfo)
      → lookup name m ≡ some info
      → info.service_name ≡ name

abbrev pub keyed : String → Option ServiceRecoveryInfo → Option (String × ServiceRecoveryInfo)
keyed name none = none
keyed name (some info) = some (name, info)

abbrev named : String → String → ServiceRecoveryInfo → Bool
named name key info = str_eq info.service_name name

module _ (order : Iteration ServiceRecoveryInfo) where
  found_none :
      (name : String) (m : Registry)
      → IsRegistry m
      → find_if (named name) (order.visit m) ≡ none
      → lookup name m ≡ none
  found_none name m v e = elim (Option-cases (lookup name m)) [
    | inl l ↦ l
    | inr (info, l) ↦
        let there = order.visit_complete m name info (Has-of_lookup name info m l) in
        let miss = find_if-none (named name) (order.visit m) name info e there in
        absurd (ground (arith, (eq_iff info.service_name name).1 (v.own_names name info l)))
  ]

  found_some :
      (name : String) (m : Registry) (key : String) (info : ServiceRecoveryInfo)
      → IsRegistry m
      → find_if (named name) (order.visit m) ≡ some (key, info)
      → (lookup name m ≡ some info) × (key ≡ name)
  found_some name m key info v e =
      let (hit, seen) = find_if-Has (named name) (order.visit m) (key, info) e in
      let at = lookup-Has key info m v.unique (order.visit_sound m key info seen) in
      let same : key ≡ name =
        sym (v.own_names key info at) ∙ (eq_iff info.service_name name).0 hit in
      (rw (← same) at, same)

  pub find_service_lem :
      (name : String) (m : Registry)
      → IsRegistry m
      → find_service order name m ≡ keyed name (lookup name m)
  unfolding find_service
  find_service_lem name m v = elim (Option-cases (find_if (named name) (order.visit m))) [
    | inl e ↦ rw (found_none name m v e) e
    | inr ((key, info), e) ↦
        let (at, same) = found_some name m key info v e in
        rw at (e ∙ ap (λ (k : String). some (k, info)) same)
  ]

  pub failure_lem :
      (name : String) (m : Registry)
      → IsRegistry m
      → on_service_failure order name m ≡ elim (lookup name m) [
        | none ↦ ok m
        | some info ↦ fail info >>= λ next. ok (update name next m)
      ]
  unfolding on_service_failure
  failure_lem name m v = elim (Option-cases (lookup name m)) [
    | inl e ↦ rw (e, find_service_lem name m v, on_service_failure, e) refl
    | inr (info, e) ↦ rw (e, find_service_lem name m v, on_service_failure, e) refl
  ]

  pub unregister_lem :
      (name : String) (m : Registry)
      → IsRegistry m
      → on_unregister_service order name m
        ≡ elim (lookup name m) [ none ↦ (false, m) | some info ↦ (true, erase name m) ]
  unfolding on_unregister_service
  unregister_lem name m v = elim (Option-cases (lookup name m)) [
    | inl e ↦ rw (e, find_service_lem name m v, on_unregister_service, e) refl
    | inr (info, e) ↦ rw (e, find_service_lem name m v, on_unregister_service, e) refl
  ]
