-- ===== src/Handlers/Whole.antt =====
-- A handler that nothing comes between keeps the contract of the process.
use service_recovery_schedul.Base.{arith, ◌≡◌, refl, ◌∙◌, ok}
use service_recovery_schedul.Base.Map.{Iteration}
use service_recovery_schedul.Service.{ServiceRecoveryInfo}
use service_recovery_schedul.Stub.{
  Platform, PeerInfo, register_service, unregister_service, handle_name_owner_changed,
}
use service_recovery_schedul.Daemon.{
  Call, Reply, System, registers, unregisters, reports, owner_changed, handle,
}
use service_recovery_schedul.Daemon.Contract.{Board, Handles}
use service_recovery_schedul.Daemon.Models.{Models}
use service_recovery_schedul.Daemon.Fulfils.{handle-Fulfils}
use service_recovery_schedul.Daemon.Serve.{FitsCall}
use service_recovery_schedul.Handlers.{begin_call, finish_call}

module _ {Connection Token : Type 0} (peer_order : Iteration PeerInfo)
    (platform : Platform Connection Token) where
  -- the two parts of a handler are the whole one
  begin_call-finish_call :
      (call : Call) (sys : System Connection Token)
      → (let (work, sys') = begin_call peer_order platform call sys in finish_call work sys')
        ≡ handle peer_order platform call sys
  unfolding begin_call finish_call handle register_service unregister_service
      handle_name_owner_changed
  begin_call-finish_call (registers client name actions interval) (stub, s) = ground arith
  begin_call-finish_call (unregisters client name) (stub, s) = ground arith
  begin_call-finish_call (reports client name current last) sys = refl
  begin_call-finish_call (owner_changed name old_owner new_owner) (stub, s) = ground arith

  -- In a state that stands for services and the bus names recorded for them, a call (a registration
  -- with at most 127 actions) whose two parts are done with nothing in between is finished with no
  -- undefined behaviour. It gives a reply and ends in a state for services and bus names, to
  -- which the contract leads by this call with this reply.
  pub begin_call-Handles :
      (order : Iteration ServiceRecoveryInfo) (call : Call) (sys : System Connection Token)
      (a : Board)
      → Models order sys a
      → FitsCall call
      → (reply : Reply) × (sys' : System Connection Token) × (b : Board) × ((let (work, mid) =
              begin_call peer_order platform call sys in
            finish_call work mid)
          ≡ ok (reply, sys'))
        × Handles a call reply b
        × Models order sys' b
  begin_call-Handles order call sys a v h =
      let (reply, sys', b, e, handled, v') =
        handle-Fulfils order peer_order platform call sys a v h in
      (reply, sys', b, begin_call-finish_call call sys ∙ e, handled, v')
