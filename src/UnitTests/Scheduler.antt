-- ===== src/UnitTests/Scheduler.antt =====
-- The tests of gtest/src/CRecoveryScheduler_gtest.cpp, in their order, without the one that compares the
-- addresses of the singleton.
use service_recovery_schedul.Base.{
  ℕ, zero, suc, ◌+◌, Bool, true, false, ◌&&◌, not, List, [], ◌∷◌, ◌==◌,
}
use service_recovery_schedul.Base.Int.{pos, eq_ℤ}
use service_recovery_schedul.States.{RecoveryState, restart, stop, disable, crashed, unknown, to_u8}
use service_recovery_schedul.UnitTests.{
  Statement, asserts_register, expects_register, expects_unregister, expects_report, fails, asserts,
  expects, clears,
}

-- EXPECT_EQ of two states
abbrev pub is_state : RecoveryState → RecoveryState → Bool
is_state a b = to_u8 a == to_u8 b

abbrev pub registered_is_queryable : List Statement
registered_is_queryable =
    asserts_register "AppA" (restart ∷ [])
    ∷ expects "AppA" (λ snap.
      snap.found
      && snap.is_online
      && eq_ℤ snap.attempt_count (pos 0)
      && is_state snap.current_action unknown
      && is_state snap.last_action unknown
      && is_state snap.next_action restart)
    ∷ []

abbrev pub invalid_name_fails : List Statement
invalid_name_fails =
    expects_register false "NotInMap" [] ∷ expects "NotInMap" (λ snap. not snap.found) ∷ []

abbrev pub empty_uses_defaults : List Statement
empty_uses_defaults =
    asserts_register "AppB" [] ∷ expects "AppB" (λ snap. is_state snap.next_action restart) ∷ []

abbrev pub registered_again : List Statement
registered_again =
    asserts_register "AppC" (restart ∷ stop ∷ [])
    ∷ fails "AppC"
    ∷ asserts "AppC" (λ snap. not snap.is_online)
    ∷ expects_register true "AppC" []
    ∷ expects "AppC" (λ snap.
      snap.is_online && eq_ℤ snap.attempt_count (pos 1) && is_state snap.last_action crashed)
    ∷ []

abbrev pub unregister_known : List Statement
unregister_known =
    asserts_register "AppD" []
    ∷ clears
    ∷ expects_unregister true "AppD"
    ∷ expects "AppD" (λ snap. not snap.found)
    ∷ []

abbrev pub unregister_unknown : List Statement
unregister_unknown = expects_unregister false "AppE" ∷ []

abbrev pub report_updates : List Statement
report_updates =
    asserts_register "AppF" (restart ∷ [])
    ∷ expects_report true "AppF" stop restart
    ∷ expects "AppF"
        (λ snap. is_state snap.current_action stop && is_state snap.last_action restart)
    ∷ []

abbrev pub report_keeps_last : List Statement
report_keeps_last =
    asserts_register "AppG" (restart ∷ [])
    ∷ fails "AppG"
    ∷ asserts "AppG" (λ snap. is_state snap.last_action crashed)
    ∷ expects_report true "AppG" restart unknown
    ∷ expects "AppG"
        (λ snap. is_state snap.current_action restart && is_state snap.last_action crashed)
    ∷ []

abbrev pub report_unknown : List Statement
report_unknown = expects_report false "AppH" restart unknown ∷ []

abbrev pub failure_unknown : List Statement
failure_unknown = fails "AppI" ∷ expects "AppI" (λ snap. not snap.found) ∷ []

abbrev pub failure_recorded : List Statement
failure_recorded =
    asserts_register "AppJ" (restart ∷ stop ∷ [])
    ∷ fails "AppJ"
    ∷ expects "AppJ" (λ snap.
      not snap.is_online
      && is_state snap.last_action crashed
      && is_state snap.current_action restart
      && is_state snap.next_action stop
      && eq_ℤ snap.attempt_count (pos 1))
    ∷ []

abbrev pub failures_wrap : List Statement
failures_wrap =
    asserts_register "AppK" (restart ∷ stop ∷ [])
    ∷ fails "AppK"
    ∷ expects "AppK" (λ snap. is_state snap.current_action restart)
    ∷ expects "AppK" (λ snap. is_state snap.next_action stop)
    ∷ fails "AppK"
    ∷ expects "AppK" (λ snap. is_state snap.current_action stop)
    ∷ expects "AppK" (λ snap. is_state snap.next_action restart)
    ∷ fails "AppK"
    ∷ expects "AppK" (λ snap. is_state snap.current_action restart)
    ∷ []

-- the loop of CrashCountIsMonotonic, from a failure number on
abbrev pub crash_loop : ℕ → ℕ → List Statement
crash_loop i zero = []
crash_loop i (suc rounds) =
    fails "AppL"
    ∷ expects "AppL" (λ snap. eq_ℤ snap.attempt_count (pos i))
    ∷ crash_loop (i + 1) rounds

abbrev pub crashes_counted : List Statement
crashes_counted = asserts_register "AppL" (restart ∷ []) ∷ crash_loop 1 5

abbrev pub unknown_not_found : List Statement
unknown_not_found =
    expects "AppM" (λ snap.
      not snap.found
      && not snap.is_online
      && is_state snap.current_action unknown
      && is_state snap.last_action unknown
      && is_state snap.next_action unknown
      && eq_ℤ snap.attempt_count (pos 0))
    ∷ []

abbrev pub next_action_sequence : List Statement
next_action_sequence =
    asserts_register "AppN" (restart ∷ restart ∷ stop ∷ disable ∷ [])
    ∷ expects "AppN" (λ snap. is_state snap.next_action restart)
    ∷ fails "AppN"
    ∷ expects "AppN" (λ snap. is_state snap.next_action restart)
    ∷ fails "AppN"
    ∷ expects "AppN" (λ snap. is_state snap.next_action stop)
    ∷ fails "AppN"
    ∷ expects "AppN" (λ snap. is_state snap.next_action disable)
    ∷ fails "AppN"
    ∷ expects "AppN" (λ snap. is_state snap.next_action restart)
    ∷ []
