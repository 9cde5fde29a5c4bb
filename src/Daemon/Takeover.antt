-- ===== src/Daemon/Takeover.antt =====
-- What a lost bus name does after its service was registered again or unregistered.
use service_recovery_schedul.Base.{
  ℕ, ◌≤◌, ◌≡◌, ◌≢◌, refl, ◌∙◌, inl, inr, String, true, false, some, List, arith, ok, str_eq, eq_iff,
  length, Bool-cases,
}
use service_recovery_schedul.Base.Int.{ℤ}
use service_recovery_schedul.Base.Map.{Iteration, lookup, assign, lookup-assign, lookup-erase}
use service_recovery_schedul.Service.{ServiceRecoveryInfo}
use service_recovery_schedul.Scheduler.{Registry}
use service_recovery_schedul.Scheduler.Spec.{Services, is_registered}
use service_recovery_schedul.Wire.{
  RegisterResult, UnregisterResult, ClientId, dbus, extract_dbus_unique_name,
}
use service_recovery_schedul.Stub.{
  Platform, PeerInfo, Stub, record_peer, drop_peer, register_service, unregister_service,
  handle_name_owner_changed,
}
use service_recovery_schedul.Stub.{query_unix_pid_for_bus_name}
use service_recovery_schedul.Stub.Methods.{peer_pid}
use service_recovery_schedul.Base.{eq_refl}
use service_recovery_schedul.Daemon.Recording.{lookup-record_peer}
use service_recovery_schedul.Daemon.Invariant.{IsDaemon}
use service_recovery_schedul.Daemon.Registration.{registered_stub, register-IsDaemon}
use service_recovery_schedul.Daemon.Calls.{unregister-IsDaemon}
use service_recovery_schedul.Daemon.Loss.{NoPeer, name_lost}

-- no peer but the one of this name is known by the bus name
abbrev pub Only :
    {Connection Token : Type 0} → String → String → Stub Registry Connection Token → Type 0
Only name bus stub =
    (service : String) (peer : PeerInfo)
    → name ≢ service
    → lookup service stub.service_to_bus_name ≡ some peer
    → peer.unique_bus_name ≢ bus

recorded-NoPeer :
    {Connection Token : Type 0} (stub : Stub Registry Connection Token) (name bus taker : String)
    (pid : ℤ)
    → Only name bus stub
    → str_eq taker "" ≡ false
    → taker ≢ bus
    → NoPeer bus (record_peer name taker pid stub).service_to_bus_name
unfolding record_peer
recorded-NoPeer stub name bus taker pid o t n service peer l =
    let l' : lookup service
          (assign name (record { unique_bus_name = taker; pid = pid }) stub.service_to_bus_name)
        ≡ some peer =
      rw (t, record_peer) at l in
    elim (Bool-cases (str_eq name service)) [
      | inl q ↦ λ e. n (
          ground (
            arith,
            lookup-assign name service (record { unique_bus_name = taker; pid = pid })
                stub.service_to_bus_name,
          ))
      | inr q ↦ o service peer (ground (arith, eq_iff name service)) (
          ground (
            arith,
            lookup-assign name service (record { unique_bus_name = taker; pid = pid })
                stub.service_to_bus_name,
          ))
    ]

module _ {Connection Token : Type 0} (order : Iteration ServiceRecoveryInfo)
    (peer_order : Iteration PeerInfo) where
  -- a bus name that backs no peer changes nothing when it is lost
  lost_silently :
      (stub : Stub Registry Connection Token) (m : Registry) (s : Services) (bus old_owner : String)
      → IsDaemon order (stub, m) s
      → NoPeer bus stub.service_to_bus_name
      → handle_name_owner_changed peer_order bus old_owner "" (stub, m) ≡ ok (stub, m)
  lost_silently stub m s bus old_owner v n =
      elim (name_lost order peer_order stub m s v bus old_owner) [
        | inl (_, e) ↦ e
        | inr (service, peer, l, b, _) ↦ absurd (n service peer l b)
      ]

  -- In a state in which the process's invariant holds, any client whose bus name is not empty may
  -- register a name that is registered already, with at most 127 actions, and is answered OK. The
  -- name's peer then is that client, by its bus name and the pid that the stub finds for it, and when
  -- another bus name that backs no other service is lost, nothing happens, also where that is the
  -- one of the client that registered first.
  pub takeover :
      (stub : Stub Registry Connection Token) (m : Registry) (s : Services)
      → IsDaemon order (stub, m) s
      → (platform : Platform Connection Token) (name bus taker old_owner : String)
      → (wire : List ℕ) (interval : ℤ) → length wire ≤ 127
      → is_registered (s name) ≡ true
      → Only name bus stub
      → str_eq taker "" ≡ false
      → taker ≢ bus
      → (stub' : Stub Registry Connection Token) × (m' : Registry) × (register_service platform
            (dbus (some taker))
            name
            wire
            interval
            (stub, m)
          ≡ (RegisterResult.ok, (stub', m')))
        × (lookup name stub'.service_to_bus_name
            ≡ some (record {
              unique_bus_name = taker;
              pid = query_unix_pid_for_bus_name platform stub.signal_conn taker;
            }))
        × (handle_name_owner_changed peer_order bus old_owner "" (stub', m') ≡ ok (stub', m'))
  unfolding extract_dbus_unique_name
  takeover stub m s v platform name bus taker old_owner wire interval h r o t n =
      let (m', e, v') =
        register-IsDaemon order stub m s v platform (dbus (some taker)) name wire interval h in
      (
        registered_stub order stub m s v platform (dbus (some taker)) name,
        m',
        e ∙ rw r refl,
        rw r (
            lookup-record_peer stub name taker (peer_pid stub m platform (dbus (some taker))) name
            ∙ rw (t, eq_refl name) refl),
        lost_silently (registered_stub order stub m s v platform (dbus (some taker)) name) m' _ bus
            old_owner v' (rw r (recorded-NoPeer stub name bus taker _ o t n)),
      )

  -- After unregisterService was answered OK, the loss of the bus name that backed the service drives
  -- no recovery (where it backs no other service).
  pub farewell :
      (stub : Stub Registry Connection Token) (m : Registry) (s : Services)
      → IsDaemon order (stub, m) s
      → (client : ClientId) (name bus old_owner : String) → is_registered (s name) ≡ true
      → Only name bus stub
      → (stub' : Stub Registry Connection Token) × (m' : Registry) × (unregister_service client name
            (stub, m)
          ≡ (UnregisterResult.ok, (stub', m')))
        × (handle_name_owner_changed peer_order bus old_owner "" (stub', m') ≡ ok (stub', m'))
  unfolding drop_peer
  farewell stub m s v client name bus old_owner r o =
      let (m', e, v') = unregister-IsDaemon order stub m s v client name in
      let d : IsDaemon order (drop_peer name stub, m') _ = rw r at v' in
      (
        drop_peer name stub,
        m',
        e ∙ rw r refl,
        lost_silently (drop_peer name stub) m' _ bus old_owner d λ service peer l.
            elim (Bool-cases (str_eq name service)) [
              | inl q ↦
                  absurd
                    (ground (arith, lookup-erase name service stub.service_to_bus_name v.unique))
              | inr q ↦
                  o service peer (ground (arith, eq_iff name service))
                    (ground (arith, lookup-erase name service stub.service_to_bus_name v.unique))
            ],
      )
