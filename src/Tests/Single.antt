-- ===== src/Tests/Single.antt =====
-- The process: one service on a connection of its own, and runs from the start.
use service_recovery_schedul.Base.{
  ℕ, map, ◌≡◌, ◌≢◌, refl, String, none, some, List, [], ◌∷◌, arith, ok, eq_iff, str_eq, Bool-cases,
  inl, inr,
}
use service_recovery_schedul.Base.Int.{minus_one}
use service_recovery_schedul.Base.Map.{lookup, emplace}
use service_recovery_schedul.Scheduler.{Registry, get_service_state}
use service_recovery_schedul.Scheduler.Spec.{
  Entry, Services, no_services, at, realise, is_listed, register_entry, spec_snapshot,
}
use service_recovery_schedul.Scheduler.Refinement.{emplaced, failed_entry}
use service_recovery_schedul.Scheduler.Implements.{empty-Refines}
use service_recovery_schedul.Wire.{RegisterResult, UnregisterResult, null, dbus, translate}
use service_recovery_schedul.Stub.{
  query_unix_pid_for_bus_name, Platform, Stub, register_service, unregister_service,
  handle_name_owner_changed, drop_peer,
}
use service_recovery_schedul.Daemon.{
  Call, Reply, System, registers, unregisters, reports, owner_changed, init, new_stub, serve,
}
use service_recovery_schedul.Daemon.Invariant.{IsDaemon, listed-at}
use service_recovery_schedul.Daemon.Crash.{crash_after_register}
use service_recovery_schedul.Daemon.Takeover.{Only, takeover, farewell}
use service_recovery_schedul.Daemon.{registered, reported, silent, unregistered}
use service_recovery_schedul.Daemon.Contract.{Board, no_board, Serves}
use service_recovery_schedul.Daemon.Models.{Models}
use service_recovery_schedul.Console.{start}
use service_recovery_schedul.Console.Fulfilled.{start-Serves, start-answers}
use service_recovery_schedul.Catalogue.{scan_names}
use service_recovery_schedul.Wire.{QueryResult}
use service_recovery_schedul.Tests.Bus.{
  order, peer_order, office, entry, peer, wire, AppA_listed, AppB_listed,
}

-- AppA alone on its connection
abbrev pub alone : Stub Registry ℕ ℕ
alone = record (init order (new_stub 9)) { service_to_bus_name = ("AppA", peer) ∷ [] }

abbrev pub one_name : Services
one_name = at "AppA" (some entry) no_services

abbrev pub its_registry : Registry
its_registry = emplace "AppA" (realise "AppA" entry) []

pub alone-IsDaemon : IsDaemon order (alone, its_registry) one_name
unfolding lookup init new_stub
alone-IsDaemon = record {
  wired = record { registers = refl; unregisters = refl; fails = refl; reports = refl };
  refines = emplaced (empty-Refines order) "AppA" entry refl (omega arith);
  unique = (refl, tt);
  online = λ name p h. elim (Bool-cases (str_eq "AppA" name)) [
    | inl t ↦ (entry, rw t refl, refl)
    | inr f ↦ absurd (let q : none ≡ some p = rw (f, lookup) at h in cc)
  ];
  listed = listed-at no_services (λ name e h. absurd (cc)) "AppA" (some entry) (λ e h. AppA_listed);
}

alone-Only : Only "AppA" ":1.42" alone
unfolding lookup
alone-Only service p n h = absurd (ground (arith, eq_iff "AppA" service))

pub taker_differs : ◌≢◌ {A = String} ":1.7" ":1.42"
taker_differs = ground (arith, eq_iff ":1.7" ":1.42")

takeover_example :
    (stub' : Stub Registry ℕ ℕ) × (m' : Registry) × (register_service office
        (dbus (some ":1.7"))
        "AppA"
        wire
        minus_one
        (alone, its_registry)
      ≡ (RegisterResult.ok, (stub', m')))
    × (lookup "AppA" stub'.service_to_bus_name
        ≡ some (record {
          unique_bus_name = ":1.7";
          pid = query_unix_pid_for_bus_name office alone.signal_conn ":1.7";
        }))
    × (handle_name_owner_changed peer_order ":1.42" ":1.42" "" (stub', m') ≡ ok (stub', m'))
takeover_example =
    takeover order peer_order alone its_registry one_name alone-IsDaemon office "AppA" ":1.42"
      ":1.7" ":1.42" wire minus_one (omega arith) refl alone-Only refl taker_differs

farewell_example :
    (stub' : Stub Registry ℕ ℕ) × (m' : Registry) × (unregister_service null "AppA"
        (alone, its_registry)
      ≡ (UnregisterResult.ok, (stub', m')))
    × (handle_name_owner_changed peer_order ":1.42" ":1.42" "" (stub', m') ≡ ok (stub', m'))
farewell_example =
    farewell order peer_order alone its_registry one_name alone-IsDaemon null "AppA" ":1.42" ":1.42"
      refl alone-Only

pub new_connection-Only : Only "AppB" ":1.7" alone
unfolding lookup
new_connection-Only service p n h e = ground (arith, eq_iff "AppA" service, taker_differs)

crash_after_register_example :
    (stub' : Stub Registry ℕ ℕ) × (m' : Registry) × (m'' : Registry) × (e : Entry)
    × (register_service office (dbus (some ":1.7")) "AppB" wire minus_one (alone, its_registry)
        ≡ (RegisterResult.ok, (stub', m')))
    × (register_entry (is_listed "AppB") (translate [] wire) minus_one (one_name "AppB") ≡ some e)
    × (get_service_state "AppB" m' ≡ ok (spec_snapshot (some e)))
    × (handle_name_owner_changed peer_order ":1.7" ":1.7" "" (stub', m')
        ≡ ok (drop_peer "AppB" stub', m''))
    × (get_service_state "AppB" m'' ≡ ok (spec_snapshot (some (failed_entry e))))
    × ((other : String)
        → ◌≢◌ {A = String} "AppB" other
        → get_service_state other m'' ≡ get_service_state other its_registry)
crash_after_register_example =
    crash_after_register order peer_order alone its_registry one_name alone-IsDaemon office "AppB"
      ":1.7" ":1.7" wire minus_one (omega arith) AppB_listed new_connection-Only refl

abbrev calls : List (Platform ℕ ℕ × Call)
calls =
    (office, registers (dbus (some ":1.42")) "AppA" wire minus_one)
    ∷ (office, reports null "AppA" 0 255)
    ∷ (office, owner_changed ":1.42" ":1.42" "")
    ∷ (office, unregisters null "AppA")
    ∷ []

start-Serves_example :
    (replies : List Reply) × (sys : System ℕ ℕ) × (b : Board) × (serve peer_order calls
        (start order office 9 ("app_srs" ∷ [])).1
      ≡ ok (replies, sys))
    × Serves (map (λ p. p.1) calls) no_board replies b
    × Models order sys b
start-Serves_example =
    start-Serves order office 9 peer_order ("app_srs" ∷ []) calls
      (omega arith, (tt, (tt, (tt, tt))))

-- the replies to these calls, computed from the calls
start-answers_example :
    (sys : System ℕ ℕ) × (serve peer_order calls (start order office 9 ("app_srs" ∷ [])).1
      ≡ ok (
        registered RegisterResult.ok
            ∷ reported QueryResult.ok
            ∷ silent
            ∷ unregistered UnregisterResult.ok
            ∷ [],
        sys,
      ))
unfolding is_listed scan_names
start-answers_example =
    start-answers order office 9 peer_order ("app_srs" ∷ []) calls
      (omega arith, (tt, (tt, (tt, tt))))
