-- ===== src/Scheduler/Refinement.antt =====
-- The registry implements the abstract services.
use service_recovery_schedul.Base.{
  suc, ◌+◌, ◌%◌, ◌^◌, ◌≤◌, ◌<◌, ◌≡◌, refl, sym, ap, ◌∙◌, String, false, Option, none, some, List,
  [], ◌∷◌, arith, ok, str_eq, eq_iff, length, get_elem?, if◌then◌else◌,
}
use service_recovery_schedul.Base.Int.{ℤ, inc32}
use service_recovery_schedul.Base.Map
use service_recovery_schedul.Base.Map.{
  Iteration, Unique, lookup, update, erase, emplace, lookup-update, lookup-erase, lookup-emplace,
  replaced, or_new,
}
use service_recovery_schedul.States.{RecoveryState, crashed, is_unknown}
use service_recovery_schedul.Service.{
  ServiceRecoveryInfo, requested_or_default, new_info, fail, report,
}
use service_recovery_schedul.Service.Cursor.{period, Cycles}
use service_recovery_schedul.Service.Cycle.{failed, fail_step, action_after}
use service_recovery_schedul.Service.Attempts.{new_info_lem}
use service_recovery_schedul.Scheduler.{Registry}
use service_recovery_schedul.Scheduler.Registry.{IsRegistry}
use service_recovery_schedul.Scheduler.Spec.{
  Entry, Services, nth_action, registered, at, realise, realise?,
}

-- sizes from 1 to 127
abbrev pub Small : Option Entry → Type 0
Small none = Unit
Small (some e) = (0 < length e.policy) × (length e.policy ≤ 127)

-- The map holds, under each name, the record of the abstract entry, and nothing else.
pub record Refines (m : Registry) (s : Services) : Type 0 where
  pub unique : Unique m
  pub agrees : (name : String) → lookup name m ≡ realise? name (s name)
  pub small : (name : String) → Small (s name)

own_name :
    (name : String) (e : Option Entry) (info : ServiceRecoveryInfo)
    → some info ≡ realise? name e
    → info.service_name ≡ name
own_name name none info h = cc
own_name name (some e) info h = ground arith

pub Refines-IsRegistry : {m : Registry} {s : Services} → Refines m s → IsRegistry m
Refines-IsRegistry {m} {s} r = record {
  unique = r.unique;
  own_names = λ name info h. own_name name (s name) info (sym h ∙ r.agrees name);
}

pub requested-Small :
    (actions : List RecoveryState)
    → length actions ≤ 127
    → (0 < length (requested_or_default actions)) × (length (requested_or_default actions) ≤ 127)
unfolding requested_or_default
requested-Small [] h = omega arith
requested-Small (a ∷ rest) h = omega arith

-- the entry after a failure
abbrev pub failed_entry : Entry → Entry
failed_entry e = record e {
  failures = suc e.failures;
  is_online = false;
  current = nth_action e.policy e.failures;
  last = crashed;
}

failed-realise :
    (name : String) (e : Entry) (a : RecoveryState)
    → period (length e.policy) ≡ length e.policy
    → get_elem? e.policy (e.failures % period (length e.policy)) ≡ some a
    → failed (realise name e) (e.failures % period (length e.policy)) a
      ≡ realise name (failed_entry e)
unfolding inc32
failed-realise name e a p q =
    let q' : get_elem? e.policy (e.failures % length e.policy) ≡ some a = rw p at q in
    let n : nth_action e.policy e.failures ≡ a = rw (q', nth_action) in
    let c : (e.failures % 2 ^ 32 + 1) % 2 ^ 32 ≡ suc e.failures % 2 ^ 32 = omega arith in
    λ i. record (realise name (failed_entry e)) {
      crash_count = c i;
      current_recovery_state = sym n i;
    }

-- one failure, on a record and on its entry
pub fail-realise :
    (name : String) (e : Entry)
    → 0 < length e.policy
    → length e.policy ≤ 127
    → fail (realise name e) ≡ ok (realise name (failed_entry e))
fail-realise name e l h =
    let p : period (length e.policy) ≡ length e.policy = omega arith in
    let c : Cycles (length e.policy) = omega arith in
    let (a, q) = action_after (realise name e) e.failures c in
    fail_step (realise name e) e.failures a c refl q ∙ ap ok (failed-realise name e a p q)

-- The same for the other handlers' new records.
pub new_info-realise :
    (name : String) (actions : List RecoveryState) (interval : ℤ)
    → new_info name actions interval ≡ realise name (registered actions interval)
new_info-realise name actions interval = new_info_lem name actions interval

pub report-realise :
    (name : String) (current last : RecoveryState) (e : Entry)
    → report current last (realise name e)
      ≡ realise name
          (record e { current = current; last = if is_unknown last then e.last else last })
unfolding report
report-realise name current last e = refl

module _ {m : Registry} {s : Services} (r : Refines m s) where
  -- A lookup of the map after a write to `name` agrees with the written entry, and with `s` elsewhere.
  written :
      (name : String) (e : Option Entry) (m' : Registry)
      → Unique m'
      → Small e
      → ((j : String) → lookup j m' ≡ (if str_eq name j then realise? j e else lookup j m))
      → Refines m' (at name e s)
  written name e m' u b h = record {
    unique = u;
    agrees = λ j. h j ∙ ground (arith, r.agrees j);
    small = λ j. ground (arith, r.small j);
  }

  pub absent : (name : String) → s name ≡ none → lookup name m ≡ none
  absent name h = r.agrees name ∙ ap (realise? name) h

  pub present :
      (name : String) (e : Entry) → s name ≡ some e → lookup name m ≡ some (realise name e)
  present name e h = r.agrees name ∙ ap (realise? name) h

  pub size_of : (name : String) (e : Entry) → s name ≡ some e → Small (some e)
  size_of name e h = rw h at (r.small name)

  pub unchanged : (name : String) → s name ≡ none → Refines m (at name none s)
  unchanged name h =
      written name none m r.unique tt λ j. ground (arith, eq_iff name j, absent name h)

  pub updated :
      (name : String) (e e' : Entry)
      → s name ≡ some e
      → Small (some e')
      → Refines (update name (realise name e') m) (at name (some e') s)
  updated name e e' h b =
      written name (some e') (update name (realise name e') m)
        (Map.update-Unique name (realise name e') m r.unique) b
        λ j.
          ground (arith, eq_iff name j, lookup-update name j (realise name e') m, present name e h)

  pub emplaced :
      (name : String) (e : Entry)
      → s name ≡ none
      → Small (some e)
      → Refines (emplace name (realise name e) m) (at name (some e) s)
  emplaced name e h b =
      written name (some e) (emplace name (realise name e) m)
        (Map.emplace-Unique name (realise name e) m r.unique) b
        λ j. ground (arith, eq_iff name j, lookup-emplace name j (realise name e) m, absent name h)

  pub erased : (name : String) → Refines (erase name m) (at name none s)
  erased name =
      written name none (erase name m) (Map.erase-Unique name m r.unique) tt
        λ j. ground (arith, lookup-erase name j m r.unique)
