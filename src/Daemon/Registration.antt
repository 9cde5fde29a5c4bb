-- ===== src/Daemon/Registration.antt =====
-- A registerService call keeps the process's invariant, with no undefined behaviour.
use service_recovery_schedul.Base.{
  ℕ, ◌≤◌, ◌≡◌, refl, inl, inr, String, Bool, true, false, none, some, List, [], arith, str_eq,
  length, if◌then◌else◌, Option-cases, Bool-cases,
}
use service_recovery_schedul.Base.Int.{ℤ}
use service_recovery_schedul.Base.Map
use service_recovery_schedul.Base.Map.{
  Map, Iteration, Unique, Has, lookup, erase, assign, find_if, lookup-Has, find_if-Has,
}
use service_recovery_schedul.States.{RecoveryState}
use service_recovery_schedul.Service.{ServiceRecoveryInfo}
use service_recovery_schedul.Scheduler.{Registry, on_register_service}
use service_recovery_schedul.Scheduler.Spec.{
  Entry, Services, registered, register_entry, at, is_listed, is_registered,
}
use service_recovery_schedul.Scheduler.Implements.{register-Does}
use service_recovery_schedul.Wire.{RegisterResult, ClientId, translate, extract_dbus_unique_name}
use service_recovery_schedul.Wire.Casts.{length-translate}
use service_recovery_schedul.Stub.{Platform, Stub, register_service, record_peer}
use service_recovery_schedul.Stub.Methods.{peer_pid, register_service_lem}
use service_recovery_schedul.Daemon.Invariant.{
  PeersOnline, NamesListed, IsWired, IsDaemon, online-unchanged, online-kept, online-assign,
  listed-at,
}

module _ (s : Services) where
  -- the new entry of a name that is accepted is online
  pub accepted :
      (name : String) (actions : List RecoveryState) (interval : ℤ)
      → (if is_registered (s name) then true else is_listed name) ≡ true
      → (x : Entry) × (register_entry (is_listed name) actions interval (s name) ≡ some x)
        × (x.is_online ≡ true)
  accepted name actions interval h = elim (Option-cases (s name)) [
    | inl e ↦
        let l : is_listed name ≡ true = rw e at h in
        (registered actions interval, rw (e, l) refl, refl)
    | inr (x, e) ↦ (record x { is_online = true }, rw e refl, refl)
  ]

  pub refused :
      (name : String) (actions : List RecoveryState) (interval : ℤ)
      → (if is_registered (s name) then true else is_listed name) ≡ false
      → (s name ≡ none) × (register_entry (is_listed name) actions interval (s name) ≡ none)
  refused name actions interval h = elim (Option-cases (s name)) [
    | inl e ↦ let l : is_listed name ≡ false = rw e at h in (e, rw (e, l) refl)
    | inr (x, e) ↦ let l : true ≡ false = rw e at h in absurd (cc)
  ]

module _ (s : Services) (l : NamesListed s) where
  pub registered-Listed :
      (name : String) (actions : List RecoveryState) (interval : ℤ) (e : Entry)
      → register_entry (is_listed name) actions interval (s name) ≡ some e
      → is_listed name ≡ true
  registered-Listed name actions interval e h = elim (Option-cases (s name)) [
    | inl n ↦ elim (Bool-cases (is_listed name)) [
      | inl k ↦ k
      | inr k ↦ let q : none ≡ some e = rw (n, k) at h in absurd (cc)
    ]
    | inr (x, n) ↦ l name x n
  ]

module _ {Connection Token : Type 0} (stub : Stub Registry Connection Token) where
  pub recorded-IsWired :
      (order : Iteration ServiceRecoveryInfo) (name bus : String) (pid : ℤ)
      → IsWired order stub
      → IsWired order (record_peer name bus pid stub)
  unfolding record_peer
  recorded-IsWired order name bus pid w = elim (Bool-cases (str_eq bus "")) [
    | inl t ↦ rw (t, record_peer) w
    | inr f ↦
        rw (f, record_peer)
          (record {
            registers = w.registers;
            unregisters = w.unregisters;
            fails = w.fails;
            reports = w.reports;
          })
  ]

  pub recorded-Unique :
      (name bus : String) (pid : ℤ)
      → Unique stub.service_to_bus_name
      → Unique (record_peer name bus pid stub).service_to_bus_name
  unfolding record_peer
  recorded-Unique name bus pid u = elim (Bool-cases (str_eq bus "")) [
    | inl t ↦ rw (t, record_peer) u
    | inr f ↦ rw (f, record_peer) (Map.assign-Unique name _ stub.service_to_bus_name u)
  ]

module _ {Connection Token : Type 0} (order : Iteration ServiceRecoveryInfo)
    (stub : Stub Registry Connection Token) (m : Registry) (s : Services)
    (v : IsDaemon order (stub, m) s) where
  -- what the services are after a registration
  abbrev pub after_register : String → List RecoveryState → ℤ → Services
  after_register name actions interval =
      at name (register_entry (is_listed name) actions interval (s name)) s

  abbrev pub register_result : String → RegisterResult
  register_result name =
      if (if is_registered (s name) then true else is_listed name)
      then RegisterResult.ok
      else RegisterResult.invalid_name

  recorded-PeersOnline :
      (name bus : String) (pid : ℤ) (x : Entry)
      → x.is_online ≡ true
      → PeersOnline (record_peer name bus pid stub).service_to_bus_name (at name (some x) s)
  unfolding record_peer
  recorded-PeersOnline name bus pid x on = elim (Bool-cases (str_eq bus "")) [
    | inl t ↦ rw (t, record_peer) (online-kept stub.service_to_bus_name s v.online name x on)
    | inr f ↦
        rw (f, record_peer)
          (online-assign stub.service_to_bus_name s v.online name x
            (record { unique_bus_name = bus; pid = pid }) on)
  ]

  -- the stub after a registration
  abbrev pub registered_stub :
      Platform Connection Token → ClientId → String → Stub Registry Connection Token
  registered_stub platform client name =
      if (if is_registered (s name) then true else is_listed name)
      then record_peer name (extract_dbus_unique_name client) (peer_pid stub m platform client) stub
      else stub

  -- A registerService call with at most 127 actions is answered OK exactly where the name is
  -- registered already or the catalogue lists it, and INVALID_NAME otherwise. Accepted, it adds a
  -- new service with the translated policy or brings the old one online with its old policy, and
  -- the stub is what `record_peer` makes of it; refused, the stub and the services stay as they were.
  -- The process's invariant holds after it.
  pub register-IsDaemon :
      (platform : Platform Connection Token) (client : ClientId) (name : String) (wire : List ℕ)
      (interval : ℤ)
      → length wire ≤ 127
      → (m' : Registry) × (register_service platform client name wire interval (stub, m)
          ≡ (register_result name, (registered_stub platform client name, m')))
        × IsDaemon order
            (registered_stub platform client name, m')
            (after_register name (translate [] wire) interval)
  register-IsDaemon platform client name wire interval h =
      let bus = extract_dbus_unique_name client in
      let pid = peer_pid stub m platform client in
      let actions : List RecoveryState = translate [] wire in
      let b : Bool = if is_registered (s name) then true else is_listed name in
      let l : length actions ≤ 127 = omega (arith, length-translate wire) in
      let (m', go, r) = register-Does v.refines name actions interval pid l in
      let e : on_register_service name actions interval pid m ≡ (b, m') = cc in
      let names =
        listed-at s v.listed name _ (registered-Listed s v.listed name actions interval) in
      (
        m',
        register_service_lem stub m on_register_service platform client name wire interval b m'
            v.wired.registers e,
        elim (Bool-cases b) [
          | inl t ↦
              let (x, q, on) = accepted s name actions interval t in
              rw t (record {
                wired = recorded-IsWired stub order name bus pid v.wired;
                refines = r;
                unique = recorded-Unique stub name bus pid v.unique;
                online = rw q (recorded-PeersOnline name bus pid x on);
                listed = names;
              })
          | inr f ↦
              let (n, q) = refused s name actions interval f in
              rw f (record {
                wired = v.wired;
                refines = r;
                unique = v.unique;
                online = rw q (online-unchanged stub.service_to_bus_name s v.online name n);
                listed = names;
              })
        ],
      )
