-- ===== src/Tests/Bus.antt =====
-- The process: two services over one connection, and the calls of the bus on them.
use service_recovery_schedul.Base.{
  ℕ, ◌≡◌, ◌≢◌, ◌⊎◌, refl, true, String, none, some, List, [], ◌∷◌, arith, ok, eq_iff, Outcome,
  str_eq, Bool-cases, inl, inr,
}
use service_recovery_schedul.Base.Int.{pos, minus_one}
use service_recovery_schedul.Base.Map.{Iteration, lookup, emplace, stored_order}
use service_recovery_schedul.States.{restart, stop, unknown}
use service_recovery_schedul.Catalogue.{scan_names}
use service_recovery_schedul.Service.{ServiceRecoveryInfo}
use service_recovery_schedul.Scheduler.{Registry}
use service_recovery_schedul.Scheduler.Spec.{
  Entry, Services, no_services, at, realise, is_listed, report_entry,
}
use service_recovery_schedul.Scheduler.Refinement.{Refines, emplaced}
use service_recovery_schedul.Scheduler.Implements.{empty-Refines}
use service_recovery_schedul.Wire.{UnregisterResult, QueryResult, null, dbus, translate, from_wire}
use service_recovery_schedul.Stub.{
  Platform, PeerInfo, Stub, register_service, unregister_service, report_service_state,
  handle_name_owner_changed, drop_peer,
}
use service_recovery_schedul.Daemon.{init, new_stub}
use service_recovery_schedul.Daemon.Invariant.{IsDaemon, listed-at}
use service_recovery_schedul.Daemon.Registration.{after_register, register_result}
use service_recovery_schedul.Daemon.Recording.{peer_after, register_service-lookup}
use service_recovery_schedul.Daemon.Calls.{unregister-IsDaemon, report-IsDaemon}
use service_recovery_schedul.Daemon.Loss.{NoPeer, Fails, name_lost, shared_name_missed}

abbrev pub order : Iteration ServiceRecoveryInfo
order = stored_order ServiceRecoveryInfo

abbrev pub peer_order : Iteration PeerInfo
peer_order = stored_order PeerInfo

-- a bus on which everything works, and every process has number 77
abbrev pub office : Platform ℕ ℕ
office = record {
  is_alive = λ c. true;
  pid_of = λ c name. some 77;
  has_runtime = true;
  offers = λ domain instance_name. true;
  connection = some 5;
  subscribe = λ c. 9;
}

abbrev pub entry : Entry
entry = record {
  policy = restart ∷ stop ∷ [];
  interval = minus_one;
  failures = 0;
  is_online = true;
  current = unknown;
  last = unknown;
}

abbrev one_service : Services
one_service = at "AppB" (some entry) no_services

abbrev two_services : Services
two_services = at "AppA" (some entry) one_service

abbrev one_registry : Registry
one_registry = emplace "AppB" (realise "AppB" entry) []

abbrev two_registry : Registry
two_registry = emplace "AppA" (realise "AppA" entry) one_registry

abbrev pub peer : PeerInfo
peer = record { unique_bus_name = ":1.42"; pid = pos 77 }

-- both services came over the connection :1.42
abbrev shared : Stub Registry ℕ ℕ
shared = record (init order (new_stub 9)) {
  service_to_bus_name = ("AppA", peer) ∷ ("AppB", peer) ∷ [];
}

pub AppA_listed : is_listed "AppA" ≡ true
unfolding is_listed scan_names
AppA_listed = refl

pub AppB_listed : is_listed "AppB" ≡ true
unfolding is_listed scan_names
AppB_listed = refl

two-Refines : Refines two_registry two_services
two-Refines =
    emplaced (emplaced (empty-Refines order) "AppB" entry refl (omega arith)) "AppA" entry refl
      (omega arith)

shared-IsDaemon : IsDaemon order (shared, two_registry) two_services
unfolding lookup init new_stub
shared-IsDaemon = record {
  wired = record { registers = refl; unregisters = refl; fails = refl; reports = refl };
  refines = two-Refines;
  unique = (refl, (refl, tt));
  online = λ name p h. elim (Bool-cases (str_eq "AppA" name)) [
    | inl t ↦ (entry, rw t refl, refl)
    | inr f ↦ elim (Bool-cases (str_eq "AppB" name)) [
      | inl t ↦ (entry, rw (f, t) refl, refl)
      | inr g ↦ absurd (let q : none ≡ some p = rw (f, lookup, g) at h in cc)
    ]
  ];
  listed =
      listed-at one_service
        (listed-at no_services (λ name e h. absurd (cc)) "AppB" (some entry) (λ e h. AppB_listed))
        "AppA" (some entry) (λ e h. AppA_listed);
}

-- what the lost connection does to the two services
abbrev lost : Outcome (Stub Registry ℕ ℕ × Registry)
lost = handle_name_owner_changed peer_order ":1.42" ":1.42" "" (shared, two_registry)

name_lost_example :
    (NoPeer ":1.42" shared.service_to_bus_name × (lost ≡ ok (shared, two_registry)))
    ⊎ ((service : String) × (p : PeerInfo) × (lookup service shared.service_to_bus_name ≡ some p)
        × (p.unique_bus_name ≡ ":1.42")
        × Fails order peer_order shared two_registry two_services shared-IsDaemon service lost)
name_lost_example =
    name_lost order peer_order shared two_registry two_services shared-IsDaemon ":1.42" ":1.42"

AppA_not_AppB : ◌≢◌ {A = String} "AppA" "AppB"
AppA_not_AppB = ground (arith, eq_iff "AppA" "AppB")

shared_name_missed_example :
    (left : String) × (p : PeerInfo) × (stub' : Stub Registry ℕ ℕ) × (m' : Registry)
    × (s' : Services) × ((left ≡ "AppA") ⊎ (left ≡ "AppB"))
    × (lost ≡ ok (stub', m'))
    × IsDaemon order (stub', m') s'
    × (lookup left stub'.service_to_bus_name ≡ some p)
    × (p.unique_bus_name ≡ ":1.42")
    × (s' left ≡ two_services left)
unfolding lookup
shared_name_missed_example =
    shared_name_missed order peer_order shared two_registry two_services shared-IsDaemon ":1.42"
      ":1.42" "AppA" "AppB" peer peer AppA_not_AppB refl refl refl refl

abbrev pub wire : List ℕ
wire = 0 ∷ 1 ∷ []

register_service-lookup_example :
    (stub' : Stub Registry ℕ ℕ) × (m' : Registry) × (register_service office
        (dbus (some ":1.7"))
        "AppA"
        wire
        minus_one
        (shared, two_registry)
      ≡ (
        register_result order shared two_registry two_services shared-IsDaemon "AppA",
        (stub', m'),
      ))
    × ((j : String)
        → lookup j stub'.service_to_bus_name
          ≡ peer_after order shared two_registry two_services shared-IsDaemon office
              (dbus (some ":1.7"))
              "AppA"
              j)
    × IsDaemon order
        (stub', m')
        (after_register order shared two_registry two_services shared-IsDaemon "AppA"
          (translate [] wire)
          minus_one)
register_service-lookup_example =
    register_service-lookup order shared two_registry two_services shared-IsDaemon office
      (dbus (some ":1.7")) "AppA" wire minus_one (omega arith)

unregister-IsDaemon_example :
    (m' : Registry) × (unregister_service null "AppA" (shared, two_registry)
      ≡ (UnregisterResult.ok, (drop_peer "AppA" shared, m')))
    × IsDaemon order (drop_peer "AppA" shared, m') (at "AppA" none two_services)
unregister-IsDaemon_example =
    unregister-IsDaemon order shared two_registry two_services shared-IsDaemon null "AppA"

report-IsDaemon_example :
    (m' : Registry) × (report_service_state null "AppB" 1 255 (shared, two_registry)
      ≡ (QueryResult.ok, (shared, m')))
    × IsDaemon order
        (shared, m')
        (at "AppB" (report_entry (from_wire 1) (from_wire 255) (two_services "AppB")) two_services)
report-IsDaemon_example =
    report-IsDaemon order shared two_registry two_services shared-IsDaemon null "AppB" 1 255
