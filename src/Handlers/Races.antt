-- ===== src/Handlers/Races.antt =====
-- Handlers that overlap, and what is lost.
use service_recovery_schedul.Base.{
  ℕ, ◌≤◌, ◌≡◌, refl, ◌∙◌, inl, inr, String, Bool, true, false, none, some, List, [], arith, ok,
  str_eq, eq_refl, length, if◌then◌else◌, Option-cases,
}
use service_recovery_schedul.Base.Int.{ℤ}
use service_recovery_schedul.Base.Map.{Iteration, lookup}
use service_recovery_schedul.States.{RecoveryState}
use service_recovery_schedul.Service.{ServiceRecoveryInfo}
use service_recovery_schedul.Scheduler.{Registry, on_register_service, on_unregister_service}
use service_recovery_schedul.Scheduler.Spec.{Entry, Services, at, is_listed, is_registered}
use service_recovery_schedul.Scheduler.Refinement.{Refines, failed_entry}
use service_recovery_schedul.Scheduler.Implements.{register-Does, unregister-Does}
use service_recovery_schedul.Wire.{
  RegisterResult, UnregisterResult, ClientId, dbus, translate, extract_dbus_unique_name,
}
use service_recovery_schedul.Wire.Casts.{length-translate}
use service_recovery_schedul.Stub.{Platform, PeerInfo, Stub, find_peer, record_peer, drop_peer}
use service_recovery_schedul.Stub.Methods.{peer_pid}
use service_recovery_schedul.Daemon.{
  Call, registers, unregisters, owner_changed, registered, unregistered, silent,
}
use service_recovery_schedul.Daemon.Invariant.{NamesListed, IsWired, IsDaemon}
use service_recovery_schedul.Daemon.Registration.{accepted, recorded-IsWired, recorded-Unique}
use service_recovery_schedul.Daemon.Calls.{dropped-IsWired}
use service_recovery_schedul.Daemon.Crash.{recorded-here}
use service_recovery_schedul.Daemon.Loss.{NoPeer, find_peer-some}
use service_recovery_schedul.Handlers.Finishing.{finish_driving}
use service_recovery_schedul.Handlers.Writes.{erase-gone}
use service_recovery_schedul.Handlers.{
  answered, recording, erasing, driving, begin_call, finish_call,
}
use service_recovery_schedul.Handlers.Begins.{
  begin_register_lem, begin_unregister_lem, begin_owner_unknown, begin_owner_lost,
}
use service_recovery_schedul.Handlers.Overlap.{Online}

registered-listed :
    (s : Services)
    → NamesListed s
    → (name : String) → is_registered (s name) ≡ true
    → is_listed name ≡ true
registered-listed s l name k = elim (Option-cases (s name)) [
  | inl e ↦ let q : false ≡ true = rw e at k in absurd (cc)
  | inr (x, e) ↦ l name x e
]

module _ {Connection Token : Type 0} (order : Iteration ServiceRecoveryInfo)
    (peer_order : Iteration PeerInfo) (platform : Platform Connection Token) (name bus : String)
    (wire : List ℕ) (interval : ℤ) (fits : length wire ≤ 127) where
  abbrev pub registration : Call
  registration = registers (dbus (some bus)) name wire interval

  -- the scheduler accepts a registration of this name, and the peer is not recorded yet
  accepted_begin :
      (stub : Stub Registry Connection Token) (m : Registry) (s : Services)
      → IsWired order stub
      → Refines m s
      → (if is_registered (s name) then true else is_listed name) ≡ true
      → (pid : ℤ) × (m' : Registry) × (e : Entry) × (begin_call peer_order platform registration
            (stub, m)
          ≡ (recording name bus pid, (stub, m')))
        × Refines m' (at name (some e) s)
        × (e.is_online ≡ true)
  unfolding extract_dbus_unique_name
  accepted_begin stub m s w r h =
      let pid = peer_pid stub m platform (dbus (some bus)) in
      let actions : List RecoveryState = translate [] wire in
      let l : length actions ≤ 127 = omega (arith, length-translate wire) in
      let (m', go, r') = register-Does r name actions interval pid l in
      let b : Bool = if is_registered (s name) then true else is_listed name in
      let go' : on_register_service name actions interval pid m ≡ (b, m') = cc in
      let (e, q, on) = accepted s name actions interval h in
      let eq =
        begin_register_lem order peer_order platform stub m (dbus (some bus)) name wire interval b
          m' w.registers go' in
      (pid, m', e, eq ∙ rw h refl, rw q at r', on)

  -- In a state in which the process's invariant holds, a client whose bus name is not empty and backs no
  -- service registers a name that is registered or listed, with at most 127 actions, and its bus
  -- name loses its owner after the scheduler has accepted the registration and before the stub has
  -- recorded the peer. The loss finds no peer and does nothing.
  -- The registration is then answered OK: the service stays registered and online, with a peer whose
  -- bus name is lost already.
  pub recording-begin_call :
      (stub : Stub Registry Connection Token) (m : Registry) (s : Services) (old_owner : String)
      → IsDaemon order (stub, m) s
      → (if is_registered (s name) then true else is_listed name) ≡ true
      → NoPeer bus stub.service_to_bus_name
      → str_eq bus "" ≡ false
      → (pid : ℤ) × (m' : Registry) × (s' : Services) × (begin_call peer_order platform registration
            (stub, m)
          ≡ (recording name bus pid, (stub, m')))
        × (begin_call peer_order platform (owner_changed bus old_owner "") (stub, m')
            ≡ (answered silent, (stub, m')))
        × (finish_call (recording name bus pid) (stub, m')
            ≡ ok (registered RegisterResult.ok, (record_peer name bus pid stub, m')))
        × (lookup name (record_peer name bus pid stub).service_to_bus_name
            ≡ some (record { unique_bus_name = bus; pid = pid }))
        × Refines m' s'
        × Online s' name
  unfolding finish_call
  recording-begin_call stub m s old_owner v h n t =
      let (pid, m', e, eq, r, on) = accepted_begin stub m s v.wired v.refines h in
      (
        pid,
        m',
        at name (some e) s,
        eq,
        elim (Option-cases (find_peer peer_order bus stub.service_to_bus_name)) [
          | inl k ↦ begin_owner_unknown order peer_order platform stub m' bus old_owner k
          | inr ((service, peer), k) ↦
              let (l, known) =
                find_peer-some peer_order bus stub.service_to_bus_name v.unique service peer k in
              absurd (n service peer l known)
        ],
        refl,
        recorded-here stub name bus pid t,
        r,
        (e, rw (eq_refl name) refl, on),
      )

  -- In a state in which the process's invariant holds, a service's bus name loses its owner, and the
  -- service registers again, with at most 127 actions and from a bus name that is not empty, after
  -- the stub has dropped the old peer and before it calls the scheduler. The registration is
  -- answered OK and its peer recorded; then the failure is driven, and the service is offline although
  -- its new peer is there.
  pub driving-begin_call :
      (stub : Stub Registry Connection Token) (m : Registry) (s : Services)
      (old_bus old_owner : String) (old_peer : PeerInfo)
      → IsDaemon order (stub, m) s
      → find_peer peer_order old_bus stub.service_to_bus_name ≡ some (name, old_peer)
      → str_eq bus "" ≡ false
      → (pid : ℤ) × (m' : Registry) × (m'' : Registry) × (s' : Services) × (e : Entry) × (begin_call
            peer_order platform
            (owner_changed old_bus old_owner "")
            (stub, m)
          ≡ (driving name, (drop_peer name stub, m)))
        × (begin_call peer_order platform registration (drop_peer name stub, m)
            ≡ (recording name bus pid, (drop_peer name stub, m')))
        × (finish_call (recording name bus pid) (drop_peer name stub, m')
            ≡ ok (
              registered RegisterResult.ok,
              (record_peer name bus pid (drop_peer name stub), m'),
            ))
        × (finish_call (driving name) (record_peer name bus pid (drop_peer name stub), m')
            ≡ ok (silent, (record_peer name bus pid (drop_peer name stub), m'')))
        × (lookup name (record_peer name bus pid (drop_peer name stub)).service_to_bus_name
            ≡ some (record { unique_bus_name = bus; pid = pid }))
        × Refines m'' s'
        × (s' name ≡ some e)
        × (e.is_online ≡ false)
  unfolding finish_call
  driving-begin_call stub m s old_bus old_owner old_peer v k t =
      let (l, _) =
        find_peer-some peer_order old_bus stub.service_to_bus_name v.unique name old_peer k in
      let (x, q, _) = v.online name old_peer l in
      let listed : is_listed name ≡ true = v.listed name x q in
      let w = dropped-IsWired stub order name v.wired in
      let (pid, m', e, eq, r, _) =
        accepted_begin (drop_peer name stub) m s w v.refines (rw q refl) in
      let (m'', go, r') =
        finish_driving order (record_peer name bus pid (drop_peer name stub)) m'
          (at name (some e) s) name (recorded-IsWired (drop_peer name stub) order name bus pid w) r
          listed in
      (
        pid,
        m',
        m'',
        _,
        failed_entry e,
        begin_owner_lost order peer_order platform stub m old_bus old_owner name old_peer k,
        eq,
        refl,
        go,
        recorded-here (drop_peer name stub) name bus pid t,
        r',
        rw (eq_refl name) refl,
        refl,
      )

  -- In a state in which the process's invariant holds, a registered service is unregistered, and
  -- registered again, with at most 127 actions and from a bus name that is not empty, after the
  -- scheduler has dropped it and before the stub has. The registration is answered OK, and the
  -- service's peer is then the caller; then the peer is erased, and the service is registered and
  -- online with no peer.
  pub erasing-begin_call :
      (stub : Stub Registry Connection Token) (m : Registry) (s : Services) (client : ClientId)
      → IsDaemon order (stub, m) s
      → is_registered (s name) ≡ true
      → str_eq bus "" ≡ false
      → (pid : ℤ) × (m' : Registry) × (m'' : Registry) × (s' : Services) × (begin_call peer_order
            platform
            (unregisters client name)
            (stub, m)
          ≡ (erasing name, (stub, m')))
        × (begin_call peer_order platform registration (stub, m')
            ≡ (recording name bus pid, (stub, m'')))
        × (finish_call (recording name bus pid) (stub, m'')
            ≡ ok (registered RegisterResult.ok, (record_peer name bus pid stub, m'')))
        × (lookup name (record_peer name bus pid stub).service_to_bus_name
            ≡ some (record { unique_bus_name = bus; pid = pid }))
        × (finish_call (erasing name) (record_peer name bus pid stub, m'')
            ≡ ok (
              unregistered UnregisterResult.ok,
              (drop_peer name (record_peer name bus pid stub), m''),
            ))
        × (lookup name (drop_peer name (record_peer name bus pid stub)).service_to_bus_name ≡ none)
        × Refines m'' s'
        × Online s' name
  unfolding finish_call drop_peer
  erasing-begin_call stub m s client v k t =
      let known : is_listed name ≡ true = registered-listed s v.listed name k in
      let (m', go, r) = unregister-Does v.refines order name in
      let e : on_unregister_service order name m ≡ (is_registered (s name), m') = cc in
      let (pid, m'', x, eq, r', on) =
        accepted_begin stub m' (at name none s) v.wired r (rw (eq_refl name, known) refl) in
      (
        pid,
        m',
        m'',
        _,
        begin_unregister_lem order peer_order platform stub m client name true m'
            v.wired.unregisters (e ∙ rw k refl),
        eq,
        refl,
        recorded-here stub name bus pid t,
        refl,
        erase-gone name (record_peer name bus pid stub).service_to_bus_name
            (recorded-Unique stub name bus pid v.unique),
        r',
        (x, rw (eq_refl name) refl, on),
      )
