-- ===== src/Tests/Clients.antt =====
-- A sample client against a process that has just started.
use service_recovery_schedul.Base.{ℕ, ◌≡◌, true, false, String, some, [], ◌∷◌, map, ok, str_eq}
use service_recovery_schedul.Base.Map.{Iteration, stored_order}
use service_recovery_schedul.Service.{ServiceRecoveryInfo}
use service_recovery_schedul.Scheduler.Spec.{Services, no_services}
use service_recovery_schedul.Wire.{RegisterResult, QueryResult, dbus}
use service_recovery_schedul.Stub.{Platform, PeerInfo}
use service_recovery_schedul.Daemon.{System, registered, reported, init, new_stub, serve}
use service_recovery_schedul.Daemon.Invariant.{IsDaemon}
use service_recovery_schedul.Daemon.Serve.{init-IsDaemon}
use service_recovery_schedul.Clients.{client_b, app_main}
use service_recovery_schedul.Clients.Runs.{app_name, enrolled, app_main-enrolled}

abbrev order : Iteration ServiceRecoveryInfo
order = stored_order ServiceRecoveryInfo

abbrev peer_order : Iteration PeerInfo
peer_order = stored_order PeerInfo

abbrev bus : Platform ℕ ℕ
bus = record {
  is_alive = λ c. true;
  pid_of = λ c name. some 77;
  has_runtime = true;
  offers = λ domain instance_name. true;
  connection = some 5;
  subscribe = λ c. 9;
}

app_main-enrolled_example :
    (sys : System ℕ ℕ) × (s' : Services) × (serve peer_order
        (map (λ call. (bus, call)) (app_main client_b true (dbus (some ":1.42"))))
        (init order (new_stub 9), [])
      ≡ ok (registered RegisterResult.ok ∷ reported QueryResult.ok ∷ [], sys))
    × IsDaemon order sys s'
    × (s' (app_name client_b) ≡ some (enrolled client_b (no_services (app_name client_b))))
    × ((j : String) → str_eq (app_name client_b) j ≡ false → s' j ≡ no_services j)
app_main-enrolled_example =
    app_main-enrolled order peer_order client_b (dbus (some ":1.42")) bus (init order (new_stub 9))
      [] no_services (init-IsDaemon order peer_order 9)
