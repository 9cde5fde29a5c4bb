-- ===== src/Clients.antt =====
-- The sample clients other_apps_dummy/appA.cpp, appB.cpp and appC.cpp: the calls that each makes on
-- the daemon. Each then sleeps for ever; the wait for the proxy and the subscription make no call.
pub mod Runs
use service_recovery_schedul.Base.{Bool, true, false, String, none, some, List, [], ◌∷◌, map}
use service_recovery_schedul.Base.Int.{minus_one}
use service_recovery_schedul.States.{RecoveryState, restart, stop, disable, unknown, to_u8}
use service_recovery_schedul.Catalogue.{ServiceId, app_a, app_b, app_c, service_names, find_name}
use service_recovery_schedul.Wire.{ClientId}
use service_recovery_schedul.Daemon.{Call, registers, reports}

pub data App : Type 0 where
  client_a client_b client_c : App

-- g_MapServiceNames[id]: operator[] makes an empty name for an id that is not there
unfoldable pub name_at : ServiceId → String
name_at id = elim (find_name id service_names) [ none ↦ "" | some name ↦ name ]

-- the two calls of appA's main, if the proxy could be built
unfoldable pub app_a_main : Bool → ClientId → List Call
app_a_main false client = []
app_a_main true client =
    registers client (name_at app_a) (map to_u8 (restart ∷ restart ∷ restart ∷ stop ∷ disable ∷ []))
      minus_one
    ∷ reports client (name_at app_a) (to_u8 restart) (to_u8 unknown)
    ∷ []

unfoldable pub app_b_main : Bool → ClientId → List Call
app_b_main false client = []
app_b_main true client =
    registers client (name_at app_b) (map to_u8 (stop ∷ disable ∷ [])) minus_one
    ∷ reports client (name_at app_b) (to_u8 stop) (to_u8 unknown)
    ∷ []

unfoldable pub app_c_main : Bool → ClientId → List Call
app_c_main false client = []
app_c_main true client =
    registers client (name_at app_c) (map to_u8 (disable ∷ restart ∷ stop ∷ [])) minus_one
    ∷ reports client (name_at app_c) (to_u8 disable) (to_u8 unknown)
    ∷ []

unfoldable pub app_main : App → Bool → ClientId → List Call
app_main client_a = app_a_main
app_main client_b = app_b_main
app_main client_c = app_c_main
