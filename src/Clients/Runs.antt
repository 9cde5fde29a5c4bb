-- ===== src/Clients/Runs.antt =====
-- The sample clients against the daemon.
use service_recovery_schedul.Base.{
  ℕ, ◌≤◌, ◌≡◌, refl, ap, ◌∙◌, true, false, String, Option, none, some, List, [], ◌∷◌, map, arith,
  ok, str_eq, eq_refl, length, if◌then◌else◌,
}
use service_recovery_schedul.Base.Int.{minus_one}
use service_recovery_schedul.Base.Map.{Iteration}
use service_recovery_schedul.States.{
  RecoveryState, restart, stop, disable, unknown, to_u8, of_u8, is_unknown,
}
use service_recovery_schedul.Catalogue.{scan_names, find_name, to_u32}
use service_recovery_schedul.Service.{ServiceRecoveryInfo, requested_or_default}
use service_recovery_schedul.Scheduler.{Registry}
use service_recovery_schedul.Scheduler.Spec.{
  Entry, Services, register_entry, report_entry, is_listed, is_registered,
}
use service_recovery_schedul.Wire.{RegisterResult, QueryResult, ClientId, translate, from_wire}
use service_recovery_schedul.Wire.Casts.{translate-to_u8}
use service_recovery_schedul.Stub.{Platform, PeerInfo, Stub, register_service, report_service_state}
use service_recovery_schedul.Daemon.{
  registers, reports, System, registered as registered_reply, reported, handle, serve,
}
use service_recovery_schedul.Daemon.Invariant.{IsDaemon}
use service_recovery_schedul.Daemon.Registration.{
  registered_stub, after_register, register-IsDaemon,
}
use service_recovery_schedul.Daemon.Calls.{report-IsDaemon}
use service_recovery_schedul.Clients.{
  App, client_a, client_b, client_c, app_a_main, app_b_main, app_c_main, name_at, app_main,
}

-- what each client says of itself
abbrev pub app_name : App → String
app_name client_a = "AppA"
app_name client_b = "AppB"
app_name client_c = "AppC"

abbrev pub policy_of : App → List RecoveryState
policy_of client_a = restart ∷ restart ∷ restart ∷ stop ∷ disable ∷ []
policy_of client_b = stop ∷ disable ∷ []
policy_of client_c = disable ∷ restart ∷ stop ∷ []

abbrev pub state_of : App → RecoveryState
state_of client_a = restart
state_of client_b = stop
state_of client_c = disable

app_main-calls :
    (app : App) (client : ClientId)
    → app_main app true client
      ≡ registers client (app_name app) (map to_u8 (policy_of app)) minus_one
        ∷ reports client (app_name app) (to_u8 (state_of app)) (to_u8 unknown)
        ∷ []
unfolding app_main app_a_main app_b_main app_c_main name_at find_name to_u32
app_main-calls client_a client = refl
app_main-calls client_b client = refl
app_main-calls client_c client = refl

app_name-is_listed : (app : App) → is_listed (app_name app) ≡ true
unfolding is_listed scan_names
app_name-is_listed client_a = refl
app_name-is_listed client_b = refl
app_name-is_listed client_c = refl

sent : (app : App) → translate [] (map to_u8 (policy_of app)) ≡ policy_of app
sent client_a = (translate-to_u8 (policy_of client_a) "" unknown (omega arith) tt).0
sent client_b = (translate-to_u8 (policy_of client_b) "" unknown (omega arith) tt).0
sent client_c = (translate-to_u8 (policy_of client_c) "" unknown (omega arith) tt).0

fits : (app : App) → length (map to_u8 (policy_of app)) ≤ 127
fits client_a = omega arith
fits client_b = omega arith
fits client_c = omega arith

pushed : (app : App) → from_wire (to_u8 (state_of app)) ≡ state_of app
unfolding from_wire to_u8 of_u8
pushed client_a = refl
pushed client_b = refl
pushed client_c = refl

-- the entry of a client that has registered and pushed its state
abbrev pub enrolled : App → Option Entry → Entry
enrolled app none = record {
  policy = policy_of app;
  interval = minus_one;
  failures = 0;
  is_online = true;
  current = state_of app;
  last = unknown;
}
enrolled app (some e) = record e { is_online = true; current = state_of app }

kept : (app : App) → requested_or_default (policy_of app) ≡ policy_of app
unfolding requested_or_default
kept client_a = refl
kept client_b = refl
kept client_c = refl

register_entry-enrolled :
    (app : App) (old : Option Entry)
    → report_entry (from_wire (to_u8 (state_of app))) (from_wire (to_u8 unknown)) (
        register_entry
          (is_listed (app_name app))
          (translate [] (map to_u8 (policy_of app)))
          minus_one
          old)
      ≡ some (enrolled app old)
unfolding is_unknown from_wire to_u8 of_u8
register_entry-enrolled app none = rw (app_name-is_listed app, sent app, kept app, pushed app) refl
register_entry-enrolled app (some e) = rw (pushed app) refl

replies_ok :
    (app : App) (old : Option Entry)
    → ((if (if is_registered old then true else is_listed (app_name app))
          then RegisterResult.ok
          else RegisterResult.invalid_name)
        ≡ RegisterResult.ok)
      × ((if is_registered (
              register_entry
                (is_listed (app_name app))
                (translate [] (map to_u8 (policy_of app)))
                minus_one
                old)
            then QueryResult.ok
            else QueryResult.not_found)
          ≡ QueryResult.ok)
replies_ok app none = (rw (app_name-is_listed app) refl, rw (app_name-is_listed app) refl)
replies_ok app (some e) = (refl, refl)

module _ {Connection Token : Type 0} (order : Iteration ServiceRecoveryInfo)
    (peer_order : Iteration PeerInfo) where
  two_replies :
      (app : App) (client : ClientId) (platform : Platform Connection Token)
      (sys sys1 sys2 : System Connection Token) (r : RegisterResult) (q : QueryResult)
      → register_service platform client (app_name app) (map to_u8 (policy_of app)) minus_one sys
        ≡ (r, sys1)
      → report_service_state client (app_name app) (to_u8 (state_of app)) (to_u8 unknown) sys1
        ≡ (q, sys2)
      → serve peer_order (map (λ call. (platform, call)) (app_main app true client)) sys
        ≡ ok (registered_reply r ∷ reported q ∷ [], sys2)
  unfolding serve handle
  two_replies app client platform sys sys1 sys2 r q e1 e2 =
      rw (app_main-calls app client, e1, e2) refl

  -- A sample client whose proxy could be built makes two calls, and in every state of the process that
  -- its invariant holds of both are answered OK: the catalogue lists its name, and its policy and state
  -- arrive as it sent them. After them the invariant holds, and the client's service is online with
  -- the state that it pushed, with the client's own policy and no failures if it is new and with its old
  -- policy, count and last action if it is not. No other service is touched.
  pub app_main-enrolled :
      (app : App) (client : ClientId) (platform : Platform Connection Token)
      (stub : Stub Registry Connection Token) (m : Registry) (s : Services)
      → IsDaemon order (stub, m) s
      → (sys : System Connection Token) × (s' : Services) × (serve peer_order
            (map (λ call. (platform, call)) (app_main app true client))
            (stub, m)
          ≡ ok (registered_reply RegisterResult.ok ∷ reported QueryResult.ok ∷ [], sys))
        × IsDaemon order sys s'
        × (s' (app_name app) ≡ some (enrolled app (s (app_name app))))
        × ((j : String) → str_eq (app_name app) j ≡ false → s' j ≡ s j)
  app_main-enrolled app client platform stub m s v =
      let name : String = app_name app in
      let wire : List ℕ = map to_u8 (policy_of app) in
      let (m1, e1, v1) =
        register-IsDaemon order stub m s v platform client name wire minus_one (fits app) in
      let stub1 = registered_stub order stub m s v platform client name in
      let s1 : Services = after_register order stub m s v name (translate [] wire) minus_one in
      let (m2, e2, v2) =
        report-IsDaemon order stub1 m1 s1 v1 client name (to_u8 (state_of app)) (to_u8 unknown) in
      let (granted, found) = replies_ok app (s name) in
      (
        (stub1, m2),
        _,
        two_replies app client platform (stub, m) (stub1, m1) (stub1, m2) RegisterResult.ok
            QueryResult.ok (e1 ∙ ap (λ r. (r, (stub1, m1))) granted)
            (e2 ∙ rw (eq_refl name) (ap (λ q. (q, (stub1, m2))) found)),
        v2,
        rw (eq_refl name) (register_entry-enrolled app (s name)),
        λ j f. rw f refl,
      )
