-- ===== src/Stub.antt =====
-- CRecoverySchedulerStubImpl: lib_srs/inc/CRecoverySchedulerStubImpl.hpp and
-- lib_srs/src/CRecoverySchedulerStubImpl.cpp. `S` is the state that the installed callbacks work on;
-- CommonAPI and the D-Bus daemon are the record `Platform`, and a method returns the stub, that
-- state and the reply.
pub mod Methods
use service_recovery_schedul.Base.{
  ℕ, String, Bool, true, false, ◌&&◌, Option, none, some, List, [], Outcome, ok, ◌>>=◌, str_eq,
  if◌then◌else◌,
}
use service_recovery_schedul.Base.Int.{ℤ, minus_one, int32}
use service_recovery_schedul.Base.Map.{Map, erase, assign, find_if, Iteration}
use service_recovery_schedul.States.{RecoveryState}
use service_recovery_schedul.Wire.{
  RegisterResult, UnregisterResult, QueryResult, ClientId, from_wire, translate,
  extract_dbus_unique_name,
}

-- CommonAPI and the bus as the stub meets them at one moment. `pid_of` is the raw uint32_t in the
-- reply to GetConnectionUnixProcessID, and none where there is no reply or an error. `offers` is
-- Runtime::registerService for the stub, at a domain and an instance. `connection` is the connection
-- of the stub's adapter, if it has both; `subscribe` is addSignalMemberHandler.
pub record Platform (Connection Token : Type 0) : Type 0 where
  pub is_alive : Connection → Bool
  pub pid_of : Connection → String → Option ℕ
  pub has_runtime : Bool
  pub offers : String → String → Bool
  pub connection : Option Connection
  pub subscribe : Connection → Token

pub record PeerInfo : Type 0 where
  pub unique_bus_name : String
  pub pid : ℤ

-- The std::function members are empty until `set_callbacks`.
pub record Stub (S Connection Token : Type 0) : Type 0 where
  pub service_to_bus_name : Map PeerInfo
  pub signal_conn : Option Connection
  pub signal_token : Token
  pub on_register : Option (String → List RecoveryState → ℤ → ℤ → S → Bool × S)
  pub on_unregister : Option (String → S → Bool × S)
  pub on_failure : Option (String → S → Outcome S)
  pub on_report : Option (String → RecoveryState → RecoveryState → S → Bool × S)

-- The loop stops at the first peer with the bus name and takes it out of the map.
unfoldable pub find_peer : Iteration PeerInfo → String → Map PeerInfo → Option (String × PeerInfo)
find_peer order name peers =
    find_if (λ service peer. str_eq peer.unique_bus_name name) (order.visit peers)

module _ {Connection Token : Type 0} (platform : Platform Connection Token) where
  -- m_SignalConn.lock()
  unfoldable pub lock : Option Connection → Option Connection
  lock none = none
  lock (some c) = if platform.is_alive c then some c else none

  unfoldable pub query_unix_pid_for_bus_name : Option Connection → String → ℤ
  unfolding lock
  query_unix_pid_for_bus_name conn name = elim (lock conn) [
    | none ↦ minus_one
    | some c ↦
        if str_eq name ""
        then minus_one
        else elim (platform.pid_of c name) [ none ↦ minus_one | some raw ↦ int32 raw ]
  ]

module _ {S Connection Token : Type 0} where
  unfoldable pub set_callbacks :
      (String → List RecoveryState → ℤ → ℤ → S → Bool × S)
      → (String → S → Bool × S)
      → (String → S → Outcome S)
      → (String → RecoveryState → RecoveryState → S → Bool × S)
      → Stub S Connection Token
      → Stub S Connection Token
  set_callbacks register unregister failure report_state stub = record stub {
    on_register = some register;
    on_unregister = some unregister;
    on_failure = some failure;
    on_report = some report_state;
  }

  -- the write to `m_ServiceToBusName` after an accepted registration
  unfoldable pub record_peer :
      String → String → ℤ → Stub S Connection Token → Stub S Connection Token
  record_peer name bus pid stub = if str_eq bus "" then stub else record stub {
    service_to_bus_name =
        assign name (record { unique_bus_name = bus; pid = pid }) stub.service_to_bus_name;
  }

  -- the erasure in unregisterService and in handleNameOwnerChanged
  unfoldable pub drop_peer : String → Stub S Connection Token → Stub S Connection Token
  drop_peer name stub = record stub { service_to_bus_name = erase name stub.service_to_bus_name }

  unfoldable pub register_service :
      Platform Connection Token
      → ClientId
      → String
      → List ℕ
      → ℤ
      → Stub S Connection Token × S
      → RegisterResult × (Stub S Connection Token × S)
  register_service platform client name actions interval (stub, s) =
      let bus = extract_dbus_unique_name client in
      let pid = query_unix_pid_for_bus_name platform stub.signal_conn bus in
      let done : Bool × S = elim stub.on_register [
        | none ↦ (false, s)
        | some f ↦ f name (translate [] actions) interval pid s
      ] in
      if done.0
      then (RegisterResult.ok, (record_peer name bus pid stub, done.1))
      else (RegisterResult.invalid_name, (stub, done.1))

  -- The client is not looked at.
  unfoldable pub unregister_service :
      ClientId
      → String
      → Stub S Connection Token × S
      → UnregisterResult × (Stub S Connection Token × S)
  unregister_service client name (stub, s) =
      let done : Bool × S = elim stub.on_unregister [ none ↦ (false, s) | some f ↦ f name s ] in
      if done.0
      then (UnregisterResult.ok, (drop_peer name stub, done.1))
      else (UnregisterResult.not_found, (stub, done.1))

  unfoldable pub report_service_state :
      ClientId
      → String
      → ℕ
      → ℕ
      → Stub S Connection Token × S
      → QueryResult × (Stub S Connection Token × S)
  unfolding from_wire
  report_service_state client name current last (stub, s) =
      let done : Bool × S = elim stub.on_report [
        | none ↦ (false, s)
        | some f ↦ f name (from_wire current) (from_wire last) s
      ] in
      (if done.0 then QueryResult.ok else QueryResult.not_found, (stub, done.1))

  unfoldable pub drive_recovery :
      String → Stub S Connection Token × S → Outcome (Stub S Connection Token × S)
  drive_recovery service (stub, s) =
      if str_eq service "" then ok (stub, s) else elim stub.on_failure [
        | none ↦ ok (stub, s)
        | some f ↦ f service s >>= λ s'. ok (stub, s')
      ]

  unfoldable pub handle_name_owner_changed :
      Iteration PeerInfo
      → String
      → String
      → String
      → Stub S Connection Token × S
      → Outcome (Stub S Connection Token × S)
  handle_name_owner_changed order name old_owner new_owner (stub, s) =
      if str_eq new_owner ""
      then elim (find_peer order name stub.service_to_bus_name) [
        | none ↦ ok (stub, s)
        | some (service, peer) ↦ drive_recovery service (drop_peer service stub, s)
      ]
      else ok (stub, s)

  -- Three strings are read off the message's stream; `read` is DBusInputStream::readValue.
  unfoldable pub on_signal_dbus_message :
      {Stream : Type 0}
      → (Stream → String × Stream)
      → Iteration PeerInfo
      → Stream
      → Stub S Connection Token × S
      → Outcome (Stub S Connection Token × S)
  on_signal_dbus_message read order stream sys =
      let (name, after_name) = read stream in
      let (old_owner, after_old) = read after_name in
      let (new_owner, after_new) = read after_old in
      handle_name_owner_changed order name old_owner new_owner sys

  -- CRecoverySchedulerStubImpl::run, the result and the stub that it leaves
  unfoldable pub run :
      Platform Connection Token
      → String
      → String
      → Stub S Connection Token
      → Bool × Stub S Connection Token
  run platform domain instance_name stub =
      if platform.has_runtime && platform.offers domain instance_name
      then (
        true,
        elim platform.connection [
          | none ↦ stub
          | some c ↦ record stub { signal_conn = some c; signal_token = platform.subscribe c }
        ],
      )
      else (false, stub)

  -- the destructor: the connection and token for which a handler is taken off, if any
  unfoldable pub destroy :
      Platform Connection Token → Stub S Connection Token → Option (Connection × Token)
  unfolding lock
  destroy platform stub = elim (lock platform stub.signal_conn) [
    | none ↦ none
    | some c ↦ some (c, stub.signal_token)
  ]
