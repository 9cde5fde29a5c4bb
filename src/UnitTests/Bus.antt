-- ===== src/UnitTests/Bus.antt =====
-- gtest/src/CRecoverySchedulerStubImpl_gtest.cpp: the fixture StubTest, its recording callbacks and its
-- tests, on any bus.
use service_recovery_schedul.Base.{
  ℕ, ◌≡◌, refl, String, Bool, true, false, ◌&&◌, Option, none, some, List, [], ◌∷◌, map, ok, str_eq,
  ◌==◌, length, get_elem?, Bool-cases, inl, inr, if◌then◌else◌,
}
use service_recovery_schedul.Base.Map.{erase}
use service_recovery_schedul.Base.Int.{ℤ, pos, minus_one, eq_ℤ}
use service_recovery_schedul.States.{
  RecoveryState, restart, stop, disable, crashed, unknown, to_u8, of_u8,
}
use service_recovery_schedul.Wire.{
  RegisterResult, UnregisterResult, QueryResult, null, extract_dbus_unique_name, translate,
  from_wire,
}
use service_recovery_schedul.Wire.Casts.{translate-map}
use service_recovery_schedul.Scheduler.Spec.{All}
use service_recovery_schedul.Stub.{
  Platform, Stub, set_callbacks, record_peer, drop_peer, register_service, unregister_service,
  report_service_state,
}
use service_recovery_schedul.UnitTests.Scheduler.{is_state}

-- the captured arguments of the callback that fired
pub record Captured : Type 0 where
  pub name : String
  pub actions : List RecoveryState
  pub interval : ℤ
  pub current : RecoveryState
  pub last : RecoveryState

abbrev pub no_call : Captured
no_call = record { name = ""; actions = []; interval = pos 0; current = unknown; last = unknown }

abbrev is_state? : Option RecoveryState → RecoveryState → Bool
is_state? none b = false
is_state? (some a) b = is_state a b

-- EXPECT_TRUE(replied == ...)
abbrev replies_ok : RegisterResult → Bool
replies_ok RegisterResult.ok = true
replies_ok _ = false

abbrev replies_invalid : RegisterResult → Bool
replies_invalid RegisterResult.invalid_name = true
replies_invalid _ = false

abbrev unregisters_ok : UnregisterResult → Bool
unregisters_ok UnregisterResult.ok = true
unregisters_ok UnregisterResult.not_found = false

abbrev unregisters_none : UnregisterResult → Bool
unregisters_none UnregisterResult.ok = false
unregisters_none UnregisterResult.not_found = true

abbrev reports_ok : QueryResult → Bool
reports_ok QueryResult.ok = true
reports_ok QueryResult.not_found = false

abbrev reports_none : QueryResult → Bool
reports_none QueryResult.ok = false
reports_none QueryResult.not_found = true

module _ {Connection Token : Type 0} where
  -- SetUp
  abbrev pub fresh_stub : Token → Stub Captured Connection Token
  fresh_stub token = record {
    service_to_bus_name = [];
    signal_conn = none;
    signal_token = token;
    on_register = none;
    on_unregister = none;
    on_failure = none;
    on_report = none;
  }

  unfoldable pub install_all_callbacks :
      Bool → Bool → Bool → Stub Captured Connection Token → Stub Captured Connection Token
  unfolding set_callbacks
  install_all_callbacks register_return unregister_return report_return stub =
      set_callbacks
        (λ name actions interval pid s.
          (register_return, record s { name = name; actions = actions; interval = interval }))
        (λ name s. (unregister_return, record s { name = name }))
        (λ name s. ok (record s { name = name }))
        (λ name current last s.
          (report_return, record s { name = name; current = current; last = last }))
        stub

module _ {Connection Token : Type 0} (platform : Platform Connection Token) (token : Token) where
  unfoldable pub extract_null : Bool
  extract_null = str_eq (extract_dbus_unique_name null) ""

  unfoldable pub report_forwards : Bool
  report_forwards =
      let (replied, (_, seen)) =
        report_service_state {Connection = Connection} null "AppA" (to_u8 crashed) (to_u8 restart)
          (install_all_callbacks true true true (fresh_stub token), no_call) in
      str_eq seen.name "AppA"
      && is_state seen.current crashed
      && is_state seen.last restart
      && reports_ok replied

  unfoldable pub report_refused : Bool
  report_refused =
      let (replied, (_, seen)) =
        report_service_state {Connection = Connection} null "AppB" (to_u8 stop) (to_u8 unknown)
          (install_all_callbacks true true false (fresh_stub token), no_call) in
      reports_none replied && is_state seen.last unknown

  unfoldable pub report_without_callback : Bool
  report_without_callback =
      let (replied, (_, seen)) =
        report_service_state {Connection = Connection} null "AppC" (to_u8 restart) (to_u8 unknown)
          (fresh_stub token, no_call) in
      reports_none replied && str_eq seen.name ""

  unfoldable pub unregister_replies_ok : Bool
  unregister_replies_ok =
      let (replied, (_, seen)) =
        unregister_service {Connection = Connection} null "AppD"
          (install_all_callbacks true true true (fresh_stub token), no_call) in
      str_eq seen.name "AppD" && unregisters_ok replied

  unfoldable pub unregister_refused : Bool
  unregister_refused =
      let (replied, (_, seen)) =
        unregister_service {Connection = Connection} null "AppE"
          (install_all_callbacks true false true (fresh_stub token), no_call) in
      unregisters_none replied

  unfoldable pub unregister_without_callback : Bool
  unregister_without_callback =
      let (replied, (_, seen)) =
        unregister_service {Connection = Connection} null "AppF" (fresh_stub token, no_call) in
      unregisters_none replied

  abbrev wire : List RecoveryState
  wire = restart ∷ stop ∷ disable ∷ []

  unfoldable pub register_translates : Bool
  register_translates =
      let (replied, (_, seen)) =
        register_service platform null "AppG" (map to_u8 wire) (pos 42)
          (install_all_callbacks true true true (fresh_stub token), no_call) in
      str_eq seen.name "AppG"
      && eq_ℤ seen.interval (pos 42)
      && length seen.actions == length wire
      && is_state? (get_elem? seen.actions 0) restart
      && is_state? (get_elem? seen.actions 1) stop
      && is_state? (get_elem? seen.actions 2) disable
      && replies_ok replied

  unfoldable pub register_refused : Bool
  register_refused =
      let (replied, (_, seen)) =
        register_service platform null "AppH" [] minus_one
          (install_all_callbacks false true true (fresh_stub token), no_call) in
      replies_invalid replied

  unfoldable pub register_without_callback : Bool
  register_without_callback =
      let (replied, (_, seen)) =
        register_service platform null "AppI" [] minus_one (fresh_stub token, no_call) in
      replies_invalid replied && str_eq seen.name ""

  abbrev pub stub_tests : List Bool
  stub_tests =
      extract_null ∷ report_forwards ∷ report_refused ∷ report_without_callback
      ∷ unregister_replies_ok ∷ unregister_refused ∷ unregister_without_callback
      ∷ register_translates ∷ register_refused ∷ register_without_callback ∷ []

  stub_tests-pass : All (λ b. b ≡ true) stub_tests
  unfolding extract_null report_forwards report_refused report_without_callback
      unregister_replies_ok unregister_refused unregister_without_callback register_translates
      register_refused register_without_callback install_all_callbacks register_service
      unregister_service report_service_state translate extract_dbus_unique_name from_wire to_u8
      of_u8
  stub_tests-pass =
      (refl, (refl, (refl, (refl, (refl, (refl, (refl, (refl, (refl, (refl, tt))))))))))

  -- A stub with the recording callbacks, whatever they return, hands each method's arguments on as they
  -- came (a policy and states with their casts) and nothing else, calls one callback, replies by
  -- what it returns, and neither forgets nor records a peer for a caller with no bus name.
  pub install_all_callbacks-captures :
      (register_return unregister_return report_return : Bool) (name : String) (wire : List ℕ)
      (interval : ℤ) (current last : ℕ)
      → let s =
          install_all_callbacks register_return unregister_return report_return
            (fresh_stub token) in
        (register_service platform null name wire interval (s, no_call) ≡ (
          if register_return then RegisterResult.ok else RegisterResult.invalid_name,
          (s, record no_call { name = name; actions = map from_wire wire; interval = interval }),
        ))
        × (unregister_service {Connection = Connection} null name (s, no_call) ≡ (
          if unregister_return then UnregisterResult.ok else UnregisterResult.not_found,
          (s, record no_call { name = name }),
        ))
        × (report_service_state {Connection = Connection} null name current last (s, no_call) ≡ (
          if report_return then QueryResult.ok else QueryResult.not_found,
          (s, record no_call { name = name; current = from_wire current; last = from_wire last }),
        ))
  unfolding install_all_callbacks register_service unregister_service report_service_state
      record_peer drop_peer extract_dbus_unique_name erase
  install_all_callbacks-captures a b c name wire interval current last = (
    rw (translate-map wire) (elim (Bool-cases a) [ inl t ↦ rw t refl | inr f ↦ rw f refl ]),
    elim (Bool-cases b) [ inl t ↦ rw t refl | inr f ↦ rw f refl ],
    refl,
  )
