-- ===== src/Daemon.antt =====
-- The service process: CRecoveryScheduler::init and ::run of lib_srs/src/CRecoveryScheduler.cpp join
-- the stub to the registry, and calls off the bus are handled one after the other.
pub mod Invariant
pub mod Registration
pub mod Recording
pub mod Calls
pub mod Loss
pub mod Takeover
pub mod Crash
pub mod Serve
pub mod Subscription
pub mod Contract
pub mod Models
pub mod Fulfils
pub mod Answers
use service_recovery_schedul.Base.{ℕ, String, Bool, none, List, [], ◌∷◌, Outcome, ok, ◌>>=◌}
use service_recovery_schedul.Base.Int.{ℤ}
use service_recovery_schedul.Base.Map.{Iteration}
use service_recovery_schedul.Service.{ServiceRecoveryInfo}
use service_recovery_schedul.Scheduler.{
  Registry, on_service_failure, on_register_service, on_unregister_service, on_report_service_state,
}
use service_recovery_schedul.Wire.{RegisterResult, UnregisterResult, QueryResult, ClientId}
use service_recovery_schedul.Stub
use service_recovery_schedul.Stub.{
  Platform, PeerInfo, Stub, set_callbacks, register_service, unregister_service,
  report_service_state, handle_name_owner_changed,
}

-- What the bus delivers: the three methods of the interface, and NameOwnerChanged with the name, the
-- old and the new owner.
pub data Call : Type 0 where
  registers : ClientId → String → List ℕ → ℤ → Call
  unregisters : ClientId → String → Call
  reports : ClientId → String → ℕ → ℕ → Call
  owner_changed : String → String → String → Call

pub data Reply : Type 0 where
  registered : RegisterResult → Reply
  unregistered : UnregisterResult → Reply
  reported : QueryResult → Reply
  silent : Reply

abbrev pub System : Type 0 → Type 0 → Type 0
System Connection Token = Stub Registry Connection Token × Registry

module _ {Connection Token : Type 0} where
  -- CRecoveryScheduler::init
  unfoldable pub init :
      Iteration ServiceRecoveryInfo
      → Stub Registry Connection Token
      → Stub Registry Connection Token
  unfolding set_callbacks
  init order stub =
      set_callbacks on_register_service (on_unregister_service order) (on_service_failure order)
        on_report_service_state stub

  -- CRecoveryScheduler::run, with the default domain and instance of the stub's `run`
  unfoldable pub run :
      Platform Connection Token
      → Stub Registry Connection Token
      → Bool × Stub Registry Connection Token
  run platform stub = Stub.run platform "local" "com.bmw.recovery.RecoveryScheduler" stub

  -- the members that the constructors make: no callback, no peer, no subscription
  unfoldable pub new_stub : Token → Stub Registry Connection Token
  new_stub token = record {
    service_to_bus_name = [];
    signal_conn = none;
    signal_token = token;
    on_register = none;
    on_unregister = none;
    on_failure = none;
    on_report = none;
  }

  unfoldable pub handle :
      Iteration PeerInfo
      → Platform Connection Token
      → Call
      → System Connection Token
      → Outcome (Reply × System Connection Token)
  handle order platform (registers client name actions interval) sys =
      let (result, sys') = register_service platform client name actions interval sys in
      ok (registered result, sys')
  handle order platform (unregisters client name) sys =
      let (result, sys') = unregister_service client name sys in ok (unregistered result, sys')
  handle order platform (reports client name current last) sys =
      let (result, sys') = report_service_state client name current last sys in
      ok (reported result, sys')
  handle order platform (owner_changed name old_owner new_owner) sys =
      handle_name_owner_changed order name old_owner new_owner sys >>= λ sys'. ok (silent, sys')

  -- One call after the other, each on the platform as it is then.
  unfoldable pub serve :
      Iteration PeerInfo
      → List (Platform Connection Token × Call)
      → System Connection Token
      → Outcome (List Reply × System Connection Token)
  serve order [] sys = ok ([], sys)
  serve order ((platform, call) ∷ rest) sys =
      handle order platform call sys >>= λ p. serve order rest p.1 >>= λ q. ok (p.0 ∷ q.0, q.1)
