-- ===== src/Threads/Presence.antt =====
-- What the locked parts of the handlers leave in the registry: only an unregistration takes an
-- element out.
use service_recovery_schedul.Base.{
  ◌≡◌, ◌≢◌, refl, ◌∙◌, inl, inr, String, none, some, arith, ok, ◌>>=◌, bind-ok, str_eq, eq_iff,
  Option-cases, if◌then◌else◌,
}
use service_recovery_schedul.Base.Map.{
  Iteration, lookup, update, emplace, lookup-update, lookup-emplace, lookup-erase,
}
use service_recovery_schedul.States.{RecoveryState}
use service_recovery_schedul.Service.{ServiceRecoveryInfo, fail, report}
use service_recovery_schedul.Scheduler.{
  Registry, on_service_failure, on_unregister_service, on_report_service_state,
}
use service_recovery_schedul.Scheduler.Registry.{IsRegistry, failure_lem, unregister_lem}
use service_recovery_schedul.Scheduler.Isolation.{names_update, fail_name}
use service_recovery_schedul.Threads.{Shared}

abbrev pub Present : String → Registry → Type 0
Present name m = (info : ServiceRecoveryInfo) × (lookup name m ≡ some info)

-- the elements that were there are there still
pub record Grows (sh sh' : Shared) : Type 0 where
  pub kept :
      (name : String)
      → Present name sh.registry
      → Present name sh'.registry × (sh'.births name ≡ sh.births name)

-- no change, or a write to the element of one name
pub data Writes (name : String) (m m' : Registry) : Type 0 where
  same : m' ≡ m → Writes name m m'
  wrote :
      (info : ServiceRecoveryInfo)
      → info.service_name ≡ name
      → m' ≡ update name info m
      → Writes name m m'

pub Writes-IsRegistry :
    {name : String} {m m' : Registry} → Writes name m m' → IsRegistry m → IsRegistry m'
Writes-IsRegistry (same e) v = rw e v
Writes-IsRegistry {name} {m} (wrote info h e) v = rw e (names_update name info m v h)

pub update-Present :
    (name j : String) (info : ServiceRecoveryInfo) (m : Registry)
    → Present j m
    → Present j (update name info m)
update-Present name j info m (x, h) =
    (if str_eq name j then info else x, ground (arith, lookup-update name j info m))

pub Writes-Present :
    {name : String} {m m' : Registry} → Writes name m m' → (j : String) → Present j m → Present j m'
Writes-Present (same e) j p = rw e p
Writes-Present {name} {m} (wrote info h e) j p = rw e (update-Present name j info m p)

pub report-Writes :
    (name : String) (current last : RecoveryState) (m : Registry)
    → IsRegistry m
    → Writes name m (on_report_service_state name current last m).1
unfolding on_report_service_state report
report-Writes name current last m v = elim (Option-cases (lookup name m)) [
  | inl e ↦ same (rw (e, on_report_service_state) refl)
  | inr (info, e) ↦
      wrote (report current last info) (v.own_names name info e)
        (rw (e, on_report_service_state) refl)
]

pub failure-Writes :
    (order : Iteration ServiceRecoveryInfo) (name : String) (m m' : Registry)
    → IsRegistry m
    → on_service_failure order name m ≡ ok m'
    → Writes name m m'
failure-Writes order name m m' v h = elim (Option-cases (lookup name m)) [
  | inl e ↦ same (let h' : ok m ≡ ok m' = rw (failure_lem order name m v, e) at h in cc)
  | inr (info, e) ↦
      let h' : (fail info >>= λ next. ok (update name next m)) ≡ ok m' =
        rw (failure_lem order name m v, e) at h in
      let (next, f, g) = bind-ok (fail info) (λ next. ok (update name next m)) h' in
      wrote next (fail_name info next f ∙ v.own_names name info e) (cc)
]

pub unregister-Present :
    (order : Iteration ServiceRecoveryInfo) (name j : String) (m : Registry)
    → IsRegistry m
    → name ≢ j
    → Present j m
    → Present j (on_unregister_service order name m).1
unregister-Present order name j m v n (x, h) = elim (Option-cases (lookup name m)) [
  | inl e ↦ (x, rw (unregister_lem order name m v, e) h)
  | inr (info, e) ↦ (
    x,
    rw (unregister_lem order name m v, e)
        (ground (arith, lookup-erase name j m v.unique, eq_iff name j)),
  )
]

pub unregister-absent :
    (order : Iteration ServiceRecoveryInfo) (name : String) (m : Registry)
    → IsRegistry m
    → lookup name (on_unregister_service order name m).1 ≡ none
unregister-absent order name m v = elim (Option-cases (lookup name m)) [
  | inl e ↦ rw (unregister_lem order name m v, e) e
  | inr (info, e) ↦
      rw (unregister_lem order name m v, e)
        (ground (arith, lookup-erase name name m v.unique, eq_iff name name))
]

pub emplace-Present :
    (name j : String) (info : ServiceRecoveryInfo) (m : Registry)
    → Present j m
    → Present j (emplace name info m)
emplace-Present name j info m (x, h) = (x, ground (arith, lookup-emplace name j info m))

pub emplace_there :
    (name : String) (info : ServiceRecoveryInfo) (m : Registry) (x : ServiceRecoveryInfo)
    → lookup name m ≡ some x
    → emplace name info m ≡ m
unfolding emplace
emplace_there name info m x h = rw (h, emplace) refl

pub Writes-absent :
    {name : String} {m m' : Registry}
    → Writes name m m'
    → (j : String) → lookup j m ≡ none
    → lookup j m' ≡ none
Writes-absent (same e) j h = rw e h
Writes-absent {name} {m} (wrote info own e) j h = rw e (ground (arith, lookup-update name j info m))
