-- ===== src/Tests/Service.antt =====
-- One service: policies of two actions, of 128 and of 200; the codes and texts of states.
use Prim.Native.Nat.{ℕ, zero, suc, ◌<◌}
use service_recovery_schedul.Base.{
  ◌%◌, ◌≡◌, ◌≢◌, refl, true, some, List, [], ◌∷◌, arith, ok, undefined, get_elem?, map,
}
use service_recovery_schedul.Base.Int.{minus_one, inc32}
use service_recovery_schedul.States.{RecoveryState, restart, stop, unknown, to_u8, of_u8, to_string}
use service_recovery_schedul.Wire.{from_wire, translate, notify_state_changed}
use service_recovery_schedul.Wire.Casts.{translate-to_u8}
use service_recovery_schedul.Service.{ServiceRecoveryInfo, ServiceSnapshot, fail, snapshot}
use service_recovery_schedul.Service.Cycle.{
  failed_times, fail_times, fail_times-walks, fail_times-undefined,
}
use service_recovery_schedul.Service.Attempts.{Attempts, next_action-fail, next_action-stale}

-- a service with this policy that has not failed
abbrev fresh : List RecoveryState → ServiceRecoveryInfo
fresh policy = record {
  service_name = "AppA";
  pid = minus_one;
  recovery_actions = policy;
  recovery_interval = minus_one;
  recovery_action_count = minus_one;
  crash_count = 0;
  is_online = true;
  current_recovery_state = unknown;
  last_action = unknown;
}

abbrev repeat : ℕ → List RecoveryState
repeat zero = []
repeat (suc n) = restart ∷ repeat n

abbrev two : List RecoveryState
two = restart ∷ stop ∷ []

-- the third failure of a two-action policy drives the first action again
third_failure : fail_times 3 (fresh two) ≡ ok (failed_times (fresh two) 2 restart)
unfolding fail_times fail inc32
third_failure = refl

unnamed_prints_nothing : to_string (of_u8 7) ≡ ""
unfolding to_string of_u8
unnamed_prints_nothing = refl

fail_times-walks_example :
    (a : RecoveryState) × (get_elem? two 0 ≡ some a)
    × (fail_times 3 (fresh two) ≡ ok (failed_times (fresh two) 2 a))
fail_times-walks_example = fail_times-walks 2 (fresh two) (omega arith) refl

fail_times-undefined_example :
    ((k : ℕ) → k < 128 → fail_times (suc k) (fresh (repeat 200)) ≢ undefined)
    × (fail_times 129 (fresh (repeat 200)) ≡ undefined)
fail_times-undefined_example =
    fail_times-undefined (fresh (repeat 200)) (λ c. omega arith) (omega arith) (omega arith) refl

once-Attempts : Attempts 1 (failed_times (fresh two) 0 restart)
once-Attempts = record { cycles = omega arith; cursor = refl; crashes = refl }

next_action-fail_example :
    (s : ServiceSnapshot) × (next : ServiceRecoveryInfo) × (snapshot
        (failed_times (fresh two) 0 restart)
      ≡ ok s)
    × (fail (failed_times (fresh two) 0 restart) ≡ ok next)
    × (s.next_action ≡ next.current_recovery_state)
next_action-fail_example =
    next_action-fail 1 (failed_times (fresh two) 0 restart) once-Attempts (omega arith)

abbrev long : ServiceRecoveryInfo
long = failed_times (fresh (stop ∷ repeat 127)) 0 stop

long-Attempts : Attempts 1 long
long-Attempts = record { cycles = omega arith; cursor = refl; crashes = refl }

next_action-stale_example :
    (s : ServiceSnapshot) × (next : ServiceRecoveryInfo) × (snapshot long ≡ ok s)
    × (s.next_action ≡ stop)
    × (fail long ≡ ok next)
    × (get_elem? (stop ∷ repeat 127) (suc 0 % 128) ≡ some next.current_recovery_state)
    × Attempts (suc (suc 0)) next
next_action-stale_example = next_action-stale 0 long stop (repeat 127) long-Attempts refl refl

translate-to_u8_example :
    (translate [] (map to_u8 two) ≡ two)
    × ((notify_state_changed "AppA" stop).0 ≡ "AppA")
    × (from_wire (notify_state_changed "AppA" stop).1 ≡ stop)
translate-to_u8_example = translate-to_u8 two "AppA" stop (omega arith) tt
