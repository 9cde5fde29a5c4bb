-- ===== src/Daemon/Calls.antt =====
-- unregisterService and reportServiceState calls keep the process's invariant, with no undefined
-- behaviour.
use service_recovery_schedul.Base.{
  ℕ, ◌≡◌, refl, inl, inr, String, Bool, true, Option, none, some, str_eq, eq_iff, if◌then◌else◌,
  Option-cases, Bool-cases,
}
use service_recovery_schedul.Base.Map
use service_recovery_schedul.Base.Map.{
  Map, Iteration, Unique, Has, lookup, erase, assign, find_if, lookup-Has, find_if-Has,
}
use service_recovery_schedul.States.{RecoveryState, is_unknown}
use service_recovery_schedul.Service.{ServiceRecoveryInfo}
use service_recovery_schedul.Scheduler.{Registry, on_unregister_service, on_report_service_state}
use service_recovery_schedul.Scheduler.Spec.{
  Entry, Services, report_entry, at, is_listed, is_registered,
}
use service_recovery_schedul.Scheduler.Refinement.{Refines}
use service_recovery_schedul.Scheduler.Implements.{unregister-Does, report-Does}
use service_recovery_schedul.Wire.{UnregisterResult, QueryResult, ClientId, from_wire}
use service_recovery_schedul.Stub.{Stub, unregister_service, report_service_state, drop_peer}
use service_recovery_schedul.Stub.Methods.{unregister_service_lem, report_service_state_lem}
use service_recovery_schedul.Daemon.Invariant.{
  PeersOnline, NamesListed, IsWired, IsDaemon, online-unchanged, online-erase, listed-at,
}

module _ (s : Services) (l : NamesListed s) where
  pub reported-Listed :
      (name : String) (current last : RecoveryState) (e : Entry)
      → report_entry current last (s name) ≡ some e
      → is_listed name ≡ true
  reported-Listed name current last e h = elim (Option-cases (s name)) [
    | inl n ↦ let q : none ≡ some e = rw n at h in absurd (cc)
    | inr (x, n) ↦ l name x n
  ]

module _ {Connection Token : Type 0} (stub : Stub Registry Connection Token) where
  pub dropped-IsWired :
      (order : Iteration ServiceRecoveryInfo) (name : String)
      → IsWired order stub
      → IsWired order (drop_peer name stub)
  unfolding drop_peer
  dropped-IsWired order name w = record {
    registers = w.registers;
    unregisters = w.unregisters;
    fails = w.fails;
    reports = w.reports;
  }

module _ {Connection Token : Type 0} (order : Iteration ServiceRecoveryInfo)
    (stub : Stub Registry Connection Token) (m : Registry) (s : Services)
    (v : IsDaemon order (stub, m) s) where
  reported-PeersOnline :
      (name : String) (current last : RecoveryState)
      → PeersOnline stub.service_to_bus_name (at name (report_entry current last (s name)) s)
  reported-PeersOnline name current last j peer e = elim (Bool-cases (str_eq name j)) [
    | inl t ↦
        let (x, f, g) = v.online j peer e in
        let f' : s name ≡ some x = rw ((eq_iff name j).0 t) f in
        (
          record x { current = current; last = if is_unknown last then x.last else last },
          rw (t, f') refl,
          g,
        )
    | inr t ↦ let (x, f, g) = v.online j peer e in (x, rw t f, g)
  ]

  -- a peer is dropped, and its service's entry is set
  pub dropped-IsDaemon :
      (name : String) (x : Option Entry) (m' : Registry)
      → Refines m' (at name x s)
      → NamesListed (at name x s)
      → IsDaemon order (drop_peer name stub, m') (at name x s)
  unfolding drop_peer
  dropped-IsDaemon name x m' r l = record {
    wired = dropped-IsWired stub order name v.wired;
    refines = r;
    unique = Map.erase-Unique name stub.service_to_bus_name v.unique;
    online = online-erase stub.service_to_bus_name s v.online name x v.unique;
    listed = l;
  }

  -- An unregisterService call, from whichever client, is answered OK exactly where the name is
  -- registered, and then the service and its peer are gone; otherwise it is answered NOT_FOUND and
  -- changes nothing. The process's invariant holds after it.
  pub unregister-IsDaemon :
      (client : ClientId) (name : String)
      → (m' : Registry) × (unregister_service client name (stub, m) ≡ (
        if is_registered (s name) then UnregisterResult.ok else UnregisterResult.not_found,
        (if is_registered (s name) then drop_peer name stub else stub, m'),
      ))
        × IsDaemon order
            (if is_registered (s name) then drop_peer name stub else stub, m')
            (at name none s)
  unregister-IsDaemon client name =
      let (m', go, r) = unregister-Does v.refines order name in
      let b : Bool = is_registered (s name) in
      let e : on_unregister_service order name m ≡ (b, m') = cc in
      let l : NamesListed (at name none s) = listed-at s v.listed name none (λ x h. absurd (cc)) in
      (
        m',
        unregister_service_lem stub m (on_unregister_service order) client name b m'
            v.wired.unregisters e,
        elim (Option-cases (s name)) [
          | inl n ↦ rw n (record {
            wired = v.wired;
            refines = r;
            unique = v.unique;
            online = online-unchanged stub.service_to_bus_name s v.online name n;
            listed = l;
          })
          | inr (x, n) ↦ rw n (dropped-IsDaemon name none m' r l)
        ],
      )

  -- A reportServiceState call, from whichever client, is answered OK exactly where the name is
  -- registered, and then the reported states are stored, but for an UNKNOWN last state; otherwise it
  -- is answered NOT_FOUND and changes nothing. The peers stay, and so does the process's invariant.
  pub report-IsDaemon :
      (client : ClientId) (name : String) (current last : ℕ)
      → (m' : Registry) × (report_service_state client name current last (stub, m)
          ≡ (if is_registered (s name) then QueryResult.ok else QueryResult.not_found, (stub, m')))
        × IsDaemon order
            (stub, m')
            (at name (report_entry (from_wire current) (from_wire last) (s name)) s)
  report-IsDaemon client name current last =
      let (m', go, r) = report-Does v.refines name (from_wire current) (from_wire last) in
      let b : Bool = is_registered (s name) in
      let e : on_report_service_state name (from_wire current) (from_wire last) m ≡ (b, m') = cc in
      (
        m',
        report_service_state_lem stub m on_report_service_state client name current last b m'
            v.wired.reports e,
        record {
          wired = v.wired;
          refines = r;
          unique = v.unique;
          online = reported-PeersOnline name (from_wire current) (from_wire last);
          listed =
              listed-at s v.listed name _
                (reported-Listed s v.listed name (from_wire current) (from_wire last));
        },
      )
