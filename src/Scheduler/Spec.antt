-- ===== src/Scheduler/Spec.antt =====
-- What the scheduler promises, with unbounded numbers and no map: each registered name has a policy,
-- the number of its failures, and the states that were reported or driven last.
use service_recovery_schedul.Base.{
  ℕ, suc, ◌%◌, ◌^◌, ◌≤◌, String, Bool, true, false, Option, none, some, List, [], ◌∷◌, str_eq,
  length, get_elem?, if◌then◌else◌,
}
use service_recovery_schedul.Base.Int.{ℤ, minus_one, int32}
use service_recovery_schedul.States.{RecoveryState, unknown, crashed, is_unknown}
use service_recovery_schedul.Catalogue.{service_names, scan_names}
use service_recovery_schedul.Service.{
  ServiceRecoveryInfo, ServiceSnapshot, no_snapshot, requested_or_default,
}
use service_recovery_schedul.Service.Cursor.{cursor_after}
use service_recovery_schedul.Scheduler.Requests.{Request, registers, unregisters, reports, fails}

pub record Entry : Type 0 where
  pub policy : List RecoveryState
  pub interval : ℤ
  pub failures : ℕ
  pub is_online : Bool
  pub current : RecoveryState
  pub last : RecoveryState

abbrev pub Services : Type 0
Services = String → Option Entry

abbrev pub no_services : Services
no_services name = none

-- the action of the failure after `k` others: the policy is walked in a circle
abbrev pub nth_action : List RecoveryState → ℕ → RecoveryState
nth_action policy k = elim (get_elem? policy (k % length policy)) [ none ↦ unknown | some a ↦ a ]

abbrev pub registered : List RecoveryState → ℤ → Entry
registered actions interval = record {
  policy = requested_or_default actions;
  interval = interval;
  failures = 0;
  is_online = true;
  current = unknown;
  last = unknown;
}

abbrev pub register_entry : Bool → List RecoveryState → ℤ → Option Entry → Option Entry
register_entry valid actions interval none =
    if valid then some (registered actions interval) else none
register_entry valid actions interval (some e) = some (record e { is_online = true })

abbrev pub report_entry : RecoveryState → RecoveryState → Option Entry → Option Entry
report_entry current last none = none
report_entry current last (some e) =
    some (record e { current = current; last = if is_unknown last then e.last else last })

abbrev pub fail_entry : Option Entry → Option Entry
fail_entry none = none
fail_entry (some e) = some (record e {
  failures = suc e.failures;
  is_online = false;
  current = nth_action e.policy e.failures;
  last = crashed;
})

abbrev pub at : String → Option Entry → Services → Services
at name e s = λ j. if str_eq name j then e else s j

-- a name that g_MapServiceNames has
unfoldable pub is_listed : String → Bool
is_listed name = scan_names name false service_names

unfoldable pub spec_step : Request → Services → Services
spec_step (registers name actions interval pid) s =
    at name (register_entry (is_listed name) actions interval (s name)) s
spec_step (unregisters name) s = at name none s
spec_step (reports name current last) s = at name (report_entry current last (s name)) s
spec_step (fails name) s = at name (fail_entry (s name)) s

abbrev pub is_registered : Option Entry → Bool
is_registered none = false
is_registered (some e) = true

unfoldable pub spec_reply : Request → Services → Bool
spec_reply (registers name actions interval pid) s =
    if is_registered (s name) then true else is_listed name
spec_reply (unregisters name) s = is_registered (s name)
spec_reply (reports name current last) s = is_registered (s name)
spec_reply (fails name) s = true

unfoldable pub spec_run : List Request → Services → List Bool × Services
spec_run [] s = ([], s)
spec_run (r ∷ rest) s = let q = spec_run rest (spec_step r s) in (spec_reply r s ∷ q.0, q.1)

-- The record that stands for an entry: its counters as far as their widths go.
abbrev pub realise : String → Entry → ServiceRecoveryInfo
realise name e = record {
  service_name = name;
  pid = minus_one;
  recovery_actions = e.policy;
  recovery_interval = e.interval;
  recovery_action_count = cursor_after (length e.policy) e.failures;
  crash_count = e.failures % 2 ^ 32;
  is_online = e.is_online;
  current_recovery_state = e.current;
  last_action = e.last;
}

abbrev pub realise? : String → Option Entry → Option ServiceRecoveryInfo
realise? name none = none
realise? name (some e) = some (realise name e)

-- the snapshot of an entry
unfoldable pub spec_snapshot : Option Entry → ServiceSnapshot
spec_snapshot none = no_snapshot
spec_snapshot (some e) = record {
  found = true;
  is_online = e.is_online;
  last_action = e.last;
  current_action = e.current;
  next_action = nth_action e.policy e.failures;
  attempt_count = int32 e.failures;
}

-- a policy whose size an int8_t holds
abbrev pub Fits : Request → Type 0
Fits (registers name actions interval pid) = length actions ≤ 127
Fits _ = Unit

abbrev pub All {ℓ κ} : {A : Type ℓ} → (A → Type κ) → List A → Type κ
All P [] = Unit
All P (x ∷ xs) = P x × All P xs
