-- ===== src/Handlers.antt =====
-- The stub's handlers seen by several threads, lib_srs/src/CRecoverySchedulerStubImpl.cpp, if the bus
-- calls it from more than one: registerService, unregisterService and handleNameOwnerChanged each
-- lock m_NameMutex for their access to m_ServiceToBusName only, and call the scheduler with no lock,
-- so each is two steps, and other handlers come between. A call of the scheduler is one step here;
-- Threads looks into that.
pub mod Whole
pub mod Steps
pub mod Overlap
pub mod Writes
pub mod Begins
pub mod Entering
pub mod Finishing
pub mod Exclusive
pub mod Races
use service_recovery_schedul.Base.{
  String, Bool, true, false, none, some, [], Outcome, ok, ◌>>=◌, str_eq, if◌then◌else◌,
}
use service_recovery_schedul.Base.Int.{ℤ}
use service_recovery_schedul.Base.Map.{Iteration}
use service_recovery_schedul.Scheduler.{Registry}
use service_recovery_schedul.Wire.{
  RegisterResult, UnregisterResult, extract_dbus_unique_name, translate,
}
use service_recovery_schedul.Stub.{
  Platform, PeerInfo, Stub, query_unix_pid_for_bus_name, record_peer, drop_peer, find_peer,
  drive_recovery, report_service_state,
}
use service_recovery_schedul.Daemon.{
  Call, Reply, System, registers, unregisters, reports, owner_changed, registered, unregistered,
  reported, silent,
}

-- Where a thread stands: it has answered its last call, or the scheduler has accepted a registration
-- and the peer is to be recorded, or an unregistration and the peer is to be erased, or the peer of a
-- lost bus name is erased and the scheduler is to be called.
pub data Work : Type 0 where
  answered : Reply → Work
  recording : String → String → ℤ → Work
  erasing : String → Work
  driving : String → Work

module _ {Connection Token : Type 0} where
  -- the handler's part before the others can come between
  unfoldable pub begin_call :
      Iteration PeerInfo
      → Platform Connection Token
      → Call
      → System Connection Token
      → Work × System Connection Token
  begin_call order platform (registers client name actions interval) (stub, s) =
      let bus = extract_dbus_unique_name client in
      let pid = query_unix_pid_for_bus_name platform stub.signal_conn bus in
      let done : Bool × Registry = elim stub.on_register [
        | none ↦ (false, s)
        | some f ↦ f name (translate [] actions) interval pid s
      ] in
      if done.0
      then (recording name bus pid, (stub, done.1))
      else (answered (registered RegisterResult.invalid_name), (stub, done.1))
  begin_call order platform (unregisters client name) (stub, s) =
      let done : Bool × Registry = elim stub.on_unregister [
        | none ↦ (false, s)
        | some f ↦ f name s
      ] in
      if done.0
      then (erasing name, (stub, done.1))
      else (answered (unregistered UnregisterResult.not_found), (stub, done.1))
  begin_call order platform (reports client name current last) sys =
      let (result, sys') = report_service_state client name current last sys in
      (answered (reported result), sys')
  begin_call order platform (owner_changed name old_owner new_owner) (stub, s) =
      if str_eq new_owner ""
      then elim (find_peer order name stub.service_to_bus_name) [
        | none ↦ (answered silent, (stub, s))
        | some (service, peer) ↦ (driving service, (drop_peer service stub, s))
      ]
      else (answered silent, (stub, s))

  -- what is left of it
  unfoldable pub finish_call :
      Work → System Connection Token → Outcome (Reply × System Connection Token)
  finish_call (answered reply) sys = ok (reply, sys)
  finish_call (recording name bus pid) (stub, s) =
      ok (registered RegisterResult.ok, (record_peer name bus pid stub, s))
  finish_call (erasing name) (stub, s) =
      ok (unregistered UnregisterResult.ok, (drop_peer name stub, s))
  finish_call (driving service) sys = drive_recovery service sys >>= λ sys'. ok (silent, sys')
