-- ===== src/Service/Cycle.antt =====
-- Repeated failures of one service: the policy is walked in a circle, or the program leaves it.
use native.Mathlib.Nat.{mod-lt, mod-le}
use service_recovery_schedul.Base.{
  ℕ, zero, suc, ◌+◌, ◌-◌, ◌%◌, ◌^◌, ◌<◌, ◌≡◌, ◌≢◌, refl, ap, ◌∙◌, ◌⊎◌, inl, inr, false, some, arith,
  Outcome, ok, undefined, ◌>>=◌, length, get_elem?, get_elem?-lt, get_elem?-ge,
}
use service_recovery_schedul.Base.Int.{pos, minus_one, inc32}
use service_recovery_schedul.States.{RecoveryState, crashed}
use service_recovery_schedul.Service.{ServiceRecoveryInfo, fail, next_cursor}
use service_recovery_schedul.Service.Cursor.{
  period, Cycles, cursor_after, next_cursor-cursor_after, next_cursor-first, next_cursor-climbs,
  next_cursor-wraps, Cycles-cases,
}

-- the record after a failure that takes the policy's action `next` at `i`
abbrev pub failed : ServiceRecoveryInfo → ℕ → RecoveryState → ServiceRecoveryInfo
failed info i next = record info {
  is_online = false;
  crash_count = inc32 info.crash_count;
  recovery_action_count = pos i;
  last_action = crashed;
  current_recovery_state = next;
}

abbrev pub size : ServiceRecoveryInfo → ℕ
size info = length info.recovery_actions

-- the action of the failure after `k` others
pub action_after :
    (info : ServiceRecoveryInfo) (k : ℕ)
    → Cycles (size info)
    → (a : RecoveryState) × (get_elem? info.recovery_actions (k % period (size info)) ≡ some a)
action_after info k c =
    get_elem?-lt info.recovery_actions (k % period (size info))
      (omega (arith, mod-lt k c.0, mod-le (size info) (2 ^ 8)))

fail_at :
    (info : ServiceRecoveryInfo) (i : ℕ) (a : RecoveryState)
    → next_cursor (size info) info.recovery_action_count ≡ pos i
    → get_elem? info.recovery_actions i ≡ some a
    → fail info ≡ ok (failed info i a)
unfolding fail
fail_at info i a h e = rw (h, e) refl

pub fail_step :
    (info : ServiceRecoveryInfo) (k : ℕ) (a : RecoveryState)
    → Cycles (size info)
    → info.recovery_action_count ≡ cursor_after (size info) k
    → get_elem? info.recovery_actions (k % period (size info)) ≡ some a
    → fail info ≡ ok (failed info (k % period (size info)) a)
fail_step info k a c h e =
    fail_at info (k % period (size info)) a (rw h (next_cursor-cursor_after (size info) k c)) e

-- `k` failures in a row
unfoldable pub fail_times : ℕ → ServiceRecoveryInfo → Outcome ServiceRecoveryInfo
fail_times zero info = ok info
fail_times (suc k) info = fail_times k info >>= fail

-- the record that stood still while it failed `suc k` times
abbrev pub failed_times : ServiceRecoveryInfo → ℕ → RecoveryState → ServiceRecoveryInfo
failed_times info k next = record info {
  is_online = false;
  crash_count = (info.crash_count + suc k) % 2 ^ 32;
  recovery_action_count = pos (k % period (size info));
  last_action = crashed;
  current_recovery_state = next;
}

-- For a service that has not failed yet and has a policy whose size cycles (a size of 1 to 128
-- does), failure number k + 1 has no undefined behaviour and drives action k mod p of the policy,
-- for p the size as int8_t arithmetic sees it; the service is then offline with CRASHED as its last
-- action, the crash count has grown by k + 1 modulo 2^32, and name, pid, policy and interval stay.
pub fail_times-walks :
    (k : ℕ) (info : ServiceRecoveryInfo)
    → Cycles (size info)
    → info.recovery_action_count ≡ minus_one
    → (a : RecoveryState) × (get_elem? info.recovery_actions (k % period (size info)) ≡ some a)
      × (fail_times (suc k) info ≡ ok (failed_times info k a))
unfolding fail_times inc32
fail_times-walks zero info c h =
    let (a, e) = action_after info 0 c in (a, e, fail_step info 0 a c h e)
fail_times-walks (suc k) info c h =
    let (b, _, rest) = fail_times-walks k info c h in
    let (a, e) = action_after info (suc k) c in
    (a, e, rw rest (fail_step (failed_times info k b) (suc k) a c refl e ∙ ap ok (ground arith)))

abbrev Stuck : ℕ → Type 0
Stuck n = (period n ≡ 0) ⊎ (128 < period n)

Stuck-size : (info : ServiceRecoveryInfo) → Stuck (size info) → 0 < size info → 128 < size info
Stuck-size info c n = omega arith

climbs :
    (k : ℕ) (info : ServiceRecoveryInfo)
    → Stuck (size info)
    → 0 < size info
    → info.recovery_action_count ≡ minus_one
    → k < 128
    → (next : ServiceRecoveryInfo) × (fail_times (suc k) info ≡ ok next)
      × (next.recovery_action_count ≡ pos k)
      × (next.recovery_actions ≡ info.recovery_actions)
unfolding fail_times
climbs zero info c n h l =
    let (a, e) = get_elem?-lt info.recovery_actions 0 n in
    (failed info 0 a, fail_at info 0 a (rw h (next_cursor-first (size info) c)) e, refl, refl)
climbs (suc k) info c n h l =
    let (prev, run, at, same) = climbs k info c n h (omega arith) in
    let (a, e) = get_elem?-lt info.recovery_actions (suc k) (omega (arith, Stuck-size info c n)) in
    (
      failed prev (suc k) a,
      rw run (
          fail_at prev (suc k) a (rw (at, same) (next_cursor-climbs (size info) k c (omega arith)))
            (rw same e)),
      refl,
      same,
    )

wraps :
    (info : ServiceRecoveryInfo)
    → Stuck (size info)
    → size info < 2 ^ 63
    → info.recovery_action_count ≡ pos 127
    → fail info ≡ undefined
unfolding fail
wraps info c b h =
    rw (h, next_cursor-wraps (size info) c)
      (rw (get_elem?-ge info.recovery_actions (2 ^ 64 - 1 - 127) (omega arith)) refl)

fail_times-suc :
    (k : ℕ) (info : ServiceRecoveryInfo) → fail_times (suc k) info ≡ (fail_times k info >>= fail)
unfolding fail_times
fail_times-suc k info = refl

-- For a service that has not failed yet and has a policy of any other size that a vector can have
-- (129 to 255, 256, and so on), the first 128 failures are handled and failure number 129 indexes
-- the policy out of bounds.
pub fail_times-undefined :
    (info : ServiceRecoveryInfo)
    → ¬ Cycles (size info)
    → 0 < size info
    → size info < 2 ^ 63
    → info.recovery_action_count ≡ minus_one
    → ((k : ℕ) → k < 128 → fail_times (suc k) info ≢ undefined) × (fail_times 129 info ≡ undefined)
fail_times-undefined info c n b h = elim (Cycles-cases (size info)) [
  | inl y ↦ absurd (c y)
  | inr s ↦
      let (last, run, at, same) = climbs 127 info s n h (omega arith) in
      (
        (λ k l e. let (x, go, _, _) = climbs k info s n h l in cc),
        fail_times-suc 128 info ∙ rw run (wraps last (rw same s) (rw same b) at),
      )
]
