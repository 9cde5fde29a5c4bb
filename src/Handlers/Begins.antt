-- ===== src/Handlers/Begins.antt =====
-- What the first part of a handler comes to, by its callback's answer.
use service_recovery_schedul.Base.{
  ℕ, ◌≡◌, refl, String, Bool, true, false, none, some, List, [], if◌then◌else◌,
}
use service_recovery_schedul.Base.Int.{ℤ}
use service_recovery_schedul.Base.Map.{Iteration}
use service_recovery_schedul.Service.{ServiceRecoveryInfo}
use service_recovery_schedul.Scheduler.{Registry, on_register_service, on_unregister_service}
use service_recovery_schedul.Wire.{
  RegisterResult, UnregisterResult, ClientId, extract_dbus_unique_name, translate,
}
use service_recovery_schedul.Stub.{Platform, PeerInfo, Stub, find_peer, drop_peer}
use service_recovery_schedul.Stub.Methods.{peer_pid}
use service_recovery_schedul.Daemon.{
  registers, unregisters, owner_changed, registered, unregistered, silent,
}
use service_recovery_schedul.Handlers.{answered, recording, erasing, driving, begin_call}

module _ {Connection Token : Type 0} (order : Iteration ServiceRecoveryInfo)
    (peer_order : Iteration PeerInfo) (platform : Platform Connection Token)
    (stub : Stub Registry Connection Token) (m : Registry) where
  pub begin_register_lem :
      (client : ClientId) (name : String) (wire : List ℕ) (interval : ℤ) (b : Bool) (m' : Registry)
      → stub.on_register ≡ some on_register_service
      → on_register_service name (translate [] wire) interval (peer_pid stub m platform client) m
        ≡ (b, m')
      → begin_call peer_order platform (registers client name wire interval) (stub, m) ≡ (
        if b
            then recording name (extract_dbus_unique_name client) (peer_pid stub m platform client)
            else answered (registered RegisterResult.invalid_name),
        (stub, m'),
      )
  unfolding begin_call
  begin_register_lem client name wire interval true m' h e = rw (h, begin_call, e) refl
  begin_register_lem client name wire interval false m' h e = rw (h, begin_call, e) refl

  pub begin_unregister_lem :
      (client : ClientId) (name : String) (b : Bool) (m' : Registry)
      → stub.on_unregister ≡ some (on_unregister_service order)
      → on_unregister_service order name m ≡ (b, m')
      → begin_call peer_order platform (unregisters client name) (stub, m) ≡ (
        if b then erasing name else answered (unregistered UnregisterResult.not_found),
        (stub, m'),
      )
  unfolding begin_call
  begin_unregister_lem client name true m' h e = rw (h, begin_call, e) refl
  begin_unregister_lem client name false m' h e = rw (h, begin_call, e) refl

  pub begin_owner_unknown :
      (bus old_owner : String)
      → find_peer peer_order bus stub.service_to_bus_name ≡ none
      → begin_call peer_order platform (owner_changed bus old_owner "") (stub, m)
        ≡ (answered silent, (stub, m))
  unfolding begin_call
  begin_owner_unknown bus old_owner h = rw (h, begin_call) refl

  pub begin_owner_lost :
      (bus old_owner service : String) (peer : PeerInfo)
      → find_peer peer_order bus stub.service_to_bus_name ≡ some (service, peer)
      → begin_call peer_order platform (owner_changed bus old_owner "") (stub, m)
        ≡ (driving service, (drop_peer service stub, m))
  unfolding begin_call
  begin_owner_lost bus old_owner service peer h = rw (h, begin_call) refl
