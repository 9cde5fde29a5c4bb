-- ===== src/Journal/Errors.antt =====
-- How many errors there are in the messages of each handler.
use service_recovery_schedul.Base.{
  ℕ, suc, ◌+◌, ◌≡◌, refl, inl, inr, String, Bool, true, false, List, [], ◌∷◌, Outcome, ok,
  undefined, arith, str_eq, if◌then◌else◌, Bool-cases, Option-cases,
}
use mathlib.Core.List.{◌++◌ as append}
use service_recovery_schedul.Base.Int.{ℤ}
use service_recovery_schedul.Base.Map.{Iteration, lookup}
use service_recovery_schedul.States.{RecoveryState}
use service_recovery_schedul.Catalogue.{scan_names, service_names}
use service_recovery_schedul.Service.{ServiceRecoveryInfo}
use service_recovery_schedul.Scheduler.{Registry, find_service, on_register_service}
use service_recovery_schedul.Logger.{LogLevel, error}
use service_recovery_schedul.Journal.{
  Message, attempt_log, failure_log, register_log, report_log, watch_log,
}

abbrev is_error : LogLevel → Bool
is_error error = true
is_error _ = false

-- the messages of the level "error"
abbrev pub errors : List Message → ℕ
errors [] = 0
errors (x ∷ rest) = if is_error x.level then suc (errors rest) else errors rest

pub errors-append : (a b : List Message) → errors (append a b) ≡ errors a + errors b
errors-append [] b = omega arith
errors-append (x ∷ a) b = ground (arith, errors-append a b)

errors-attempt_log : (o : Outcome ServiceRecoveryInfo) → errors (attempt_log o) ≡ 0
unfolding attempt_log
errors-attempt_log undefined = refl
errors-attempt_log (ok next) = refl

pub errors-failure_log :
    (order : Iteration ServiceRecoveryInfo) (name : String) (m : Registry)
    → errors (failure_log order name m) ≡ 0
unfolding failure_log
errors-failure_log order name m = elim (Option-cases (find_service order name m)) [
  | inl h ↦ rw h refl
  | inr ((key, x), h) ↦ rw h (errors-attempt_log _)
]

pub errors-report_log :
    (name : String) (current last : RecoveryState) (m : Registry)
    → errors (report_log name current last m) ≡ 0
unfolding report_log
errors-report_log name current last m = elim (Option-cases (lookup name m)) [
  | inl h ↦ rw (h, report_log, errors) refl
  | inr (x, h) ↦ rw (h, report_log, errors) refl
]

pub errors-watch_log :
    (accepted : Bool) (name bus : String) (pid : ℤ) → errors (watch_log accepted name bus pid) ≡ 0
unfolding watch_log
errors-watch_log true name bus pid = elim (Bool-cases (str_eq bus "")) [
  | inl h ↦ rw h refl
  | inr h ↦ rw h refl
]
errors-watch_log false name bus pid = refl

pub errors-register_log :
    (name : String) (actions : List RecoveryState) (interval pid : ℤ) (m : Registry)
    → errors (register_log name pid m)
      ≡ (if (on_register_service name actions interval pid m).0 then 0 else 1)
unfolding register_log on_register_service
errors-register_log name actions interval pid m = elim (Option-cases (lookup name m)) [
  | inl h ↦ elim (Bool-cases (scan_names name false service_names)) [
    | inl k ↦ rw (h, k, on_register_service) refl
    | inr k ↦ rw (h, k, on_register_service) refl
  ]
  | inr (x, h) ↦ rw (h, on_register_service) refl
]
