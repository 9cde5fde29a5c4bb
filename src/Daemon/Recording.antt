-- ===== src/Daemon/Recording.antt =====
-- Which peers the stub has after a registerService call.
use service_recovery_schedul.Base.{
  ℕ, ◌≤◌, ◌≡◌, refl, inl, inr, String, Bool, true, Option, some, List, [], str_eq, not, ◌&&◌,
  length, if◌then◌else◌, Bool-cases,
}
use service_recovery_schedul.Base.Int.{ℤ}
use service_recovery_schedul.Base.Map.{Iteration, lookup, lookup-assign}
use service_recovery_schedul.Service.{ServiceRecoveryInfo}
use service_recovery_schedul.Scheduler.{Registry}
use service_recovery_schedul.Scheduler.Spec.{Services, is_listed, is_registered}
use service_recovery_schedul.Wire.{ClientId, translate, extract_dbus_unique_name}
use service_recovery_schedul.Stub.{Platform, PeerInfo, Stub, record_peer, register_service}
use service_recovery_schedul.Stub.Methods.{peer_pid}
use service_recovery_schedul.Daemon.Invariant.{IsDaemon}
use service_recovery_schedul.Daemon.Registration.{
  registered_stub, register_result, after_register, register-IsDaemon,
}

pub lookup-record_peer :
    {S Connection Token : Type 0} (stub : Stub S Connection Token) (name bus : String) (pid : ℤ)
    → (j : String)
    → lookup j (record_peer name bus pid stub).service_to_bus_name ≡ (
        if not (str_eq bus "") && str_eq name j
        then some (record { unique_bus_name = bus; pid = pid })
        else lookup j stub.service_to_bus_name)
unfolding record_peer
lookup-record_peer stub name bus pid j = elim (Bool-cases (str_eq bus "")) [
  | inl t ↦ rw (t, record_peer) refl
  | inr f ↦
      let peer : PeerInfo = record { unique_bus_name = bus; pid = pid } in
      rw (f, record_peer) (lookup-assign name j peer stub.service_to_bus_name)
]

module _ {Connection Token : Type 0} (order : Iteration ServiceRecoveryInfo)
    (stub : Stub Registry Connection Token) (m : Registry) (s : Services)
    (v : IsDaemon order (stub, m) s) where
  abbrev pub accepts : String → Bool
  accepts name = if is_registered (s name) then true else is_listed name

  -- the peer of a service after a registration of `name`
  abbrev pub peer_after : Platform Connection Token → ClientId → String → String → Option PeerInfo
  peer_after platform client name j =
      if accepts name && (not (str_eq (extract_dbus_unique_name client) "") && str_eq name j)
      then some (record {
        unique_bus_name = extract_dbus_unique_name client;
        pid = peer_pid stub m platform client;
      })
      else lookup j stub.service_to_bus_name

  lookup-registered_stub :
      (platform : Platform Connection Token) (client : ClientId) (name j : String)
      → lookup j (registered_stub order stub m s v platform client name).service_to_bus_name
        ≡ peer_after platform client name j
  lookup-registered_stub platform client name j = elim (Bool-cases (accepts name)) [
    | inr f ↦ rw f refl
    | inl t ↦ rw t (
        lookup-record_peer stub name (extract_dbus_unique_name client)
          (peer_pid stub m platform client) j)
  ]

  -- In a state in which the process's invariant holds, a registerService call with at most 127 actions
  -- is answered OK exactly where the name is registered already or the catalogue lists it, and
  -- INVALID_NAME otherwise. Accepted, it adds a new service with the translated policy or brings the
  -- old one online with its old policy, and from a caller with a bus name that is not empty it
  -- leaves the service with this bus name, and the pid that the stub finds for it, as its peer,
  -- whatever peer it had.
  -- Other services' peers stay, and so do all where the call is refused or the bus name empty; refused,
  -- no service changes. The process's invariant holds after it.
  pub register_service-lookup :
      (platform : Platform Connection Token) (client : ClientId) (name : String) (wire : List ℕ)
      (interval : ℤ)
      → length wire ≤ 127
      → (stub' : Stub Registry Connection Token) × (m' : Registry) × (register_service platform
            client name wire interval
            (stub, m)
          ≡ (register_result order stub m s v name, (stub', m')))
        × ((j : String) → lookup j stub'.service_to_bus_name ≡ peer_after platform client name j)
        × IsDaemon order
            (stub', m')
            (after_register order stub m s v name (translate [] wire) interval)
  register_service-lookup platform client name wire interval h =
      let (m', e, v') = register-IsDaemon order stub m s v platform client name wire interval h in
      (
        registered_stub order stub m s v platform client name,
        m',
        e,
        lookup-registered_stub platform client name,
        v',
      )
