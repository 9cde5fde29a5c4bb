-- ===== src/Daemon/Crash.antt =====
-- A service with a connection of its own: from its registration to the loss of its bus name, and back.
use service_recovery_schedul.Base.{
  ℕ, ◌≤◌, ◌≡◌, ◌≢◌, refl, sym, ap, ◌∙◌, inl, inr, String, true, false, Option, some, List, [],
  arith, ok, str_eq, eq_iff, eq_refl, length, Bool-cases, if◌then◌else◌,
}
use service_recovery_schedul.Base.Int.{ℤ}
use service_recovery_schedul.Base.Map.{Iteration, lookup, lookup-assign}
use service_recovery_schedul.Service.{ServiceRecoveryInfo}
use service_recovery_schedul.Scheduler.{Registry, get_service_state}
use service_recovery_schedul.Scheduler.Spec.{
  Entry, Services, is_registered, is_listed, register_entry, spec_snapshot, fail_entry, at,
}
use service_recovery_schedul.Scheduler.Refinement.{Refines, failed_entry}
use service_recovery_schedul.Scheduler.Snapshots.{get_service_state-spec_snapshot}
use service_recovery_schedul.Wire.{RegisterResult, dbus, translate, extract_dbus_unique_name}
use service_recovery_schedul.Stub.{
  Platform, PeerInfo, Stub, record_peer, drop_peer, register_service, handle_name_owner_changed,
}
use service_recovery_schedul.Stub.Methods.{peer_pid}
use service_recovery_schedul.Daemon.Invariant.{IsDaemon}
use service_recovery_schedul.Daemon.Registration.{register-IsDaemon, accepted}
use service_recovery_schedul.Daemon.Loss.{name_lost, Fails}
use service_recovery_schedul.Daemon.Takeover.{Only}

module _ {Connection Token : Type 0} (stub : Stub Registry Connection Token) (name bus : String)
    (pid : ℤ) (t : str_eq bus "" ≡ false) where
  -- what record_peer leaves in the map
  recorded :
      (service : String)
      → lookup service (record_peer name bus pid stub).service_to_bus_name ≡ (
          if str_eq name service
          then some (record { unique_bus_name = bus; pid = pid })
          else lookup service stub.service_to_bus_name)
  unfolding record_peer
  recorded service =
      rw (t, record_peer)
        (lookup-assign name service (record { unique_bus_name = bus; pid = pid })
          stub.service_to_bus_name)

  pub recorded-here :
      lookup name (record_peer name bus pid stub).service_to_bus_name
      ≡ some (record { unique_bus_name = bus; pid = pid })
  recorded-here = recorded name ∙ rw (eq_refl name) refl

  -- the one peer that is known by the bus name
  recorded-Only :
      (service : String) (peer : PeerInfo)
      → Only name bus stub
      → lookup service (record_peer name bus pid stub).service_to_bus_name ≡ some peer
      → peer.unique_bus_name ≡ bus
      → service ≡ name
  recorded-Only service peer o l b = elim (Bool-cases (str_eq name service)) [
    | inl q ↦ sym ((eq_iff name service).0 q)
    | inr q ↦
        let l' : lookup service stub.service_to_bus_name ≡ some peer =
          sym (recorded service ∙ rw q refl) ∙ l in
        absurd (o service peer (ground (arith, eq_iff name service)) l' b)
  ]

-- the snapshot of a known entry
shows :
    (m : Registry) (s : Services) (name : String) (x : Option Entry)
    → Refines m s
    → s name ≡ x
    → get_service_state name m ≡ ok (spec_snapshot x)
shows m s name x r e =
    get_service_state-spec_snapshot m s name r ∙ ap (λ (y : Option Entry). ok (spec_snapshot y)) e

module _ {Connection Token : Type 0} (order : Iteration ServiceRecoveryInfo)
    (peer_order : Iteration PeerInfo) where
  -- the loss of a bus name that only this service is known by
  own_name_lost :
      (stub : Stub Registry Connection Token) (m : Registry) (s : Services) (name bus : String)
      (peer : PeerInfo) (old_owner : String) (v : IsDaemon order (stub, m) s)
      → lookup name stub.service_to_bus_name ≡ some peer
      → peer.unique_bus_name ≡ bus
      → ((service : String) (p : PeerInfo)
          → lookup service stub.service_to_bus_name ≡ some p
          → p.unique_bus_name ≡ bus
          → service ≡ name)
      → Fails order peer_order stub m s v name
          (handle_name_owner_changed peer_order bus old_owner "" (stub, m))
  own_name_lost stub m s name bus peer old_owner v l b o =
      elim (name_lost order peer_order stub m s v bus old_owner) [
        | inl (n, _) ↦ absurd (n name peer l b)
        | inr (service, p, l', b', f) ↦ rw (o service p l' b') at f
      ]

  -- the snapshots of the other names, in services that differ at `name` only
  others :
      (stub stub' : Stub Registry Connection Token) (m m' : Registry) (s s' : Services)
      → IsDaemon order (stub, m) s
      → IsDaemon order (stub', m') s'
      → (other : String) → s' other ≡ s other
      → get_service_state other m' ≡ get_service_state other m
  others stub stub' m m' s s' v v' other e =
      shows m' s' other (s other) v'.refines e ∙ sym (shows m s other (s other) v.refines refl)

  -- an accepted registration over a connection with a bus name
  accepts :
      (stub : Stub Registry Connection Token) (m : Registry) (s : Services)
      → IsDaemon order (stub, m) s
      → (platform : Platform Connection Token) (name bus : String) (wire : List ℕ) (interval : ℤ)
      → length wire ≤ 127
      → (if is_registered (s name) then true else is_listed name) ≡ true
      → (m' : Registry) × (pid : ℤ) × (e : Entry) × (register_service platform
            (dbus (some bus))
            name
            wire
            interval
            (stub, m)
          ≡ (RegisterResult.ok, (record_peer name bus pid stub, m')))
        × (register_entry (is_listed name) (translate [] wire) interval (s name) ≡ some e)
        × IsDaemon order (record_peer name bus pid stub, m') (at name (some e) s)
  unfolding extract_dbus_unique_name
  accepts stub m s v platform name bus wire interval h r =
      let (m', go, w) =
        register-IsDaemon order stub m s v platform (dbus (some bus)) name wire interval h in
      let (e, q, _) = accepted s name (translate [] wire) interval r in
      (m', peer_pid stub m platform (dbus (some bus)), e, go ∙ rw r refl, q, rw (r, q) at w)

  -- A client with a connection of its own (its bus name is not empty and backs no other service)
  -- registers a service with at most 127 actions, under a name that is registered or listed, and then
  -- its bus name loses its owner. The registration is answered OK; the loss drives this service, in
  -- whatever order the maps are visited. Its snapshot shows the new or renewed entry after the first,
  -- and after the second this entry failed once: offline, CRASHED, one attempt more, with the next
  -- action of its policy as the current one. The snapshots of all other names are what they were
  -- before.
  pub crash_after_register :
      (stub : Stub Registry Connection Token) (m : Registry) (s : Services)
      → IsDaemon order (stub, m) s
      → (platform : Platform Connection Token) (name bus old_owner : String) (wire : List ℕ)
        (interval : ℤ)
      → length wire ≤ 127
      → (if is_registered (s name) then true else is_listed name) ≡ true
      → Only name bus stub
      → str_eq bus "" ≡ false
      → (stub' : Stub Registry Connection Token) × (m' : Registry) × (m'' : Registry) × (e : Entry)
        × (register_service platform (dbus (some bus)) name wire interval (stub, m)
            ≡ (RegisterResult.ok, (stub', m')))
        × (register_entry (is_listed name) (translate [] wire) interval (s name) ≡ some e)
        × (get_service_state name m' ≡ ok (spec_snapshot (some e)))
        × (handle_name_owner_changed peer_order bus old_owner "" (stub', m')
            ≡ ok (drop_peer name stub', m''))
        × (get_service_state name m'' ≡ ok (spec_snapshot (some (failed_entry e))))
        × ((other : String)
            → name ≢ other
            → get_service_state other m'' ≡ get_service_state other m)
  crash_after_register stub m s v platform name bus old_owner wire interval h r o t =
      let (m', pid, e, go, q, w) = accepts stub m s v platform name bus wire interval h r in
      let stub' = record_peer name bus pid stub in
      let (m'', lost, w') =
        own_name_lost stub' m' (at name (some e) s) name bus _ old_owner w
          (recorded-here stub name bus pid t) refl
          (λ service p. recorded-Only stub name bus pid t service p o) in
      let here : at name (some e) s name ≡ some e = rw (eq_refl name) refl in
      let after : at name (fail_entry (at name (some e) s name)) (at name (some e) s) name
          ≡ some (failed_entry e) =
        rw (eq_refl name) refl in
      (
        stub',
        m',
        m'',
        e,
        go,
        q,
        shows m' (at name (some e) s) name (some e) w.refines here,
        lost,
        shows m'' _ name (some (failed_entry e)) w'.refines after,
        λ other n.
            others stub (drop_peer name stub') m m'' s _ v w' other
              (ground (arith, eq_iff name other)),
      )
