-- ===== src/Scheduler/Snapshots.antt =====
-- What getServiceState shows of the registry.
use native.Mathlib.Nat.{mod-mod}
use service_recovery_schedul.Base.{
  ℕ, ◌%◌, ◌^◌, ◌≤◌, ◌<◌, ◌≡◌, refl, ap, ◌∙◌, inl, inr, String, some, arith, ok, length, get_elem?,
  Option-cases,
}
use service_recovery_schedul.Base.Int.{int32}
use service_recovery_schedul.Service.{peek_action, snapshot}
use service_recovery_schedul.Service.Cursor.{period, Cycles, cursor_after}
use service_recovery_schedul.Service.Cycle.{action_after}
use service_recovery_schedul.Service.Attempts.{peek_after}
use service_recovery_schedul.Scheduler.{Registry, get_service_state}
use service_recovery_schedul.Scheduler.Spec.{Entry, Services, nth_action, realise, spec_snapshot}
use service_recovery_schedul.Scheduler.Refinement.{Refines, present, absent, size_of}

int32-mod : (n : ℕ) → int32 (n % 2 ^ 32) ≡ int32 n
unfolding int32
int32-mod n = rw (mod-mod n (2 ^ 32)) refl

peek-realise :
    (name : String) (e : Entry)
    → 0 < length e.policy
    → length e.policy ≤ 127
    → peek_action e.policy (cursor_after (length e.policy) e.failures)
      ≡ ok (nth_action e.policy e.failures)
peek-realise name e l h =
    let p : period (length e.policy) ≡ length e.policy = omega arith in
    let c : Cycles (length e.policy) = omega arith in
    let (a, q) = action_after (realise name e) e.failures c in
    let q' : get_elem? e.policy (e.failures % length e.policy) ≡ some a = rw p at q in
    let n : a ≡ nth_action e.policy e.failures = rw (q', nth_action) in
    peek_after (realise name e) e.failures a e.policy refl c (omega arith) q ∙ ap ok n

snapshot-realise :
    (name : String) (e : Entry)
    → 0 < length e.policy
    → length e.policy ≤ 127
    → snapshot (realise name e) ≡ ok (spec_snapshot (some e))
unfolding snapshot spec_snapshot
snapshot-realise name e l h = rw (peek-realise name e l h, int32-mod e.failures) refl

-- Take a registry that stands for abstract services, so that every policy in it has 1 to 127 actions.
-- The snapshot of every name is defined. It shows whether the name is registered, and for a registered one
-- its liveness and states, the number of its failures cast to int, and as the next action the one
-- that comes next in the circle through its policy.
pub get_service_state-spec_snapshot :
    (m : Registry) (s : Services) (name : String)
    → Refines m s
    → get_service_state name m ≡ ok (spec_snapshot (s name))
unfolding get_service_state spec_snapshot
get_service_state-spec_snapshot m s name r = elim (Option-cases (s name)) [
  | inl e ↦ rw (e, absent r name e, get_service_state) refl
  | inr (x, e) ↦
      let (low, high) = size_of r name x e in
      rw (e, present r name x e, get_service_state) (snapshot-realise name x low high)
]
