-- ===== src/Scheduler/Cooled.antt =====
-- The registry without the recovery intervals, beside the registry with them: what a record's
-- operations and the map's do to both.
use service_recovery_schedul.Base.{
  ◌≡◌, refl, sym, ap, ◌∙◌, inl, inr, String, Option, none, some, List, [], ◌∷◌, ok, ◌>>=◌, str_eq,
  Option-cases, Bool-cases, Outcome-cases, length,
}
use service_recovery_schedul.Base.Int.{ℤ, minus_one}
use service_recovery_schedul.Base.Map.{lookup, update, erase, emplace, Unique}
use service_recovery_schedul.States.{RecoveryState}
use service_recovery_schedul.Service.{
  ServiceRecoveryInfo, fail, report, new_info, snapshot, action_at, next_cursor,
}
use service_recovery_schedul.Scheduler.{Registry}
use service_recovery_schedul.Scheduler.Registry.{IsRegistry}

abbrev pub cool : ServiceRecoveryInfo → ServiceRecoveryInfo
cool info = record info { recovery_interval = minus_one }

abbrev pub cool? : Option ServiceRecoveryInfo → Option ServiceRecoveryInfo
cool? none = none
cool? (some info) = some (cool info)

unfoldable pub cooled : Registry → Registry
cooled [] = []
cooled ((name, info) ∷ m) = (name, cool info) ∷ cooled m

pub lookup-cooled : (name : String) (m : Registry) → lookup name (cooled m) ≡ cool? (lookup name m)
unfolding lookup cooled
lookup-cooled name [] = refl
lookup-cooled name ((key, info) ∷ m) = elim (Bool-cases (str_eq key name)) [
  | inl e ↦ rw e refl
  | inr e ↦ rw e (lookup-cooled name m)
]

pub absent : (name : String) (m : Registry) → lookup name m ≡ none → lookup name (cooled m) ≡ none
absent name m e = lookup-cooled name m ∙ ap cool? e

pub present :
    (name : String) (m : Registry) (info : ServiceRecoveryInfo)
    → lookup name m ≡ some info
    → lookup name (cooled m) ≡ some (cool info)
present name m info e = lookup-cooled name m ∙ ap cool? e

pub update-cooled :
    (name : String) (info : ServiceRecoveryInfo) (m : Registry)
    → update name (cool info) (cooled m) ≡ cooled (update name info m)
unfolding update cooled
update-cooled name info [] = refl
update-cooled name info ((key, x) ∷ m) = elim (Bool-cases (str_eq key name)) [
  | inl e ↦ rw e refl
  | inr e ↦ rw e (ap (λ (rest : Registry). (key, cool x) ∷ rest) (update-cooled name info m))
]

pub emplace-cooled :
    (name : String) (info : ServiceRecoveryInfo) (m : Registry)
    → emplace name (cool info) (cooled m) ≡ cooled (emplace name info m)
unfolding emplace cooled
emplace-cooled name info m = elim (Option-cases (lookup name m)) [
  | inl e ↦ rw (e, absent name m e, emplace) refl
  | inr (x, e) ↦ rw (e, present name m x e, emplace) refl
]

pub erase-cooled : (name : String) (m : Registry) → erase name (cooled m) ≡ cooled (erase name m)
unfolding erase cooled
erase-cooled name [] = refl
erase-cooled name ((key, x) ∷ m) = elim (Bool-cases (str_eq key name)) [
  | inl e ↦ rw e refl
  | inr e ↦ rw e (ap (λ (rest : Registry). (key, cool x) ∷ rest) (erase-cooled name m))
]

pub fail-cool :
    (info : ServiceRecoveryInfo) → fail (cool info) ≡ (fail info >>= λ next. ok (cool next))
unfolding fail
fail-cool info =
    elim (Outcome-cases (
      action_at info.recovery_actions
        (next_cursor (length info.recovery_actions) info.recovery_action_count))) [
          | inl e ↦ rw e refl
          | inr (a, e) ↦ rw e refl
        ]

pub snapshot-cool : (info : ServiceRecoveryInfo) → snapshot (cool info) ≡ snapshot info
unfolding snapshot
snapshot-cool info = refl

pub new_info-cool :
    (name : String) (actions : List RecoveryState) (interval : ℤ)
    → new_info name actions minus_one ≡ cool (new_info name actions interval)
unfolding new_info
new_info-cool name actions interval = refl

pub report-cool :
    (current last : RecoveryState) (info : ServiceRecoveryInfo)
    → report current last (cool info) ≡ cool (report current last info)
unfolding report
report-cool current last info = refl

cooled-Unique : (m : Registry) → Unique m → Unique (cooled m)
unfolding cooled
cooled-Unique [] u = tt
cooled-Unique ((key, info) ∷ m) u = (lookup-cooled key m ∙ ap cool? u.0, cooled-Unique m u.1)

own_name :
    (name : String) (info : ServiceRecoveryInfo) (m : Registry)
    → IsRegistry m
    → cool? (lookup name m) ≡ some info
    → info.service_name ≡ name
own_name name info m v h = elim (Option-cases (lookup name m)) [
  | inl e ↦ absurd (cc)
  | inr (x, e) ↦
      let h' : some (cool x) ≡ some info = rw e at h in
      let y : cool x ≡ info = cc in
      ap (λ (r : ServiceRecoveryInfo). r.service_name) (sym y) ∙ v.own_names name x e
]

pub cooled-IsRegistry : (m : Registry) → IsRegistry m → IsRegistry (cooled m)
cooled-IsRegistry m v = record {
  unique = cooled-Unique m v.unique;
  own_names = λ name info h. own_name name info m v (sym (lookup-cooled name m) ∙ h);
}
