-- ===== src/Journal.antt =====
-- What the handlers log: the LOG_ statements of lib_srs/src/CRecoveryScheduler.cpp and
-- lib_srs/src/CRecoverySchedulerStubImpl.cpp, in the order in which a call comes to them. The
-- callbacks are the scheduler's handlers.
pub mod Errors
pub mod Audit
pub mod Verbatim
pub mod Forgery
pub mod Startup
use Prim.Native.String.{◌++◌}
use service_recovery_schedul.Base.{
  ℕ, suc, String, Bool, true, false, Option, none, some, List, [], ◌∷◌, Outcome, ok, undefined,
  str_eq, if◌then◌else◌,
}
use mathlib.Core.List.{◌++◌ as append}
use service_recovery_schedul.Base.Int.{ℤ, pos}
use service_recovery_schedul.Base.Map.{Iteration, lookup}
use service_recovery_schedul.States.{RecoveryState, to_string}
use service_recovery_schedul.Catalogue.{service_names, scan_names}
use service_recovery_schedul.Service.{ServiceRecoveryInfo, fail}
use service_recovery_schedul.Scheduler.{Registry, find_service, on_register_service}
use service_recovery_schedul.Wire.{from_wire, translate, extract_dbus_unique_name}
use service_recovery_schedul.Stub.{Platform, PeerInfo, query_unix_pid_for_bus_name, find_peer}
use service_recovery_schedul.Daemon.{
  Call, Reply, System, registers, unregisters, reports, owner_changed, handle,
}
use service_recovery_schedul.Logger.{LogLevel, debug, info, warn, error, Logger, Moment, log}
use service_recovery_schedul.Logger.Text.{decimal_ℤ}

-- a LOG_ statement that is come to: the level, the context id, __func__, __LINE__ and the message
pub record Message : Type 0 where
  pub level : LogLevel
  pub ctid : String
  pub func : String
  pub line : ℕ
  pub text : String

abbrev pub message : LogLevel → String → String → ℕ → String → Message
message level ctid func line text = record {
  level = level;
  ctid = ctid;
  func = func;
  line = line;
  text = text;
}

-- onServiceFailure, once it has the record and `fail` has given the next one
unfoldable pub attempt_log : Outcome ServiceRecoveryInfo → List Message
attempt_log undefined = []
attempt_log (ok next) =
    message debug "CORE" "onServiceFailure" 33 (
      "attempt="
      ++ decimal_ℤ next.recovery_action_count
      ++ " nextAction="
      ++ to_string next.current_recovery_state)
    ∷ []

unfoldable pub failure_log : Iteration ServiceRecoveryInfo → String → Registry → List Message
failure_log order name m =
    message warn "CORE" "onServiceFailure" 17 ("service failure detected: " ++ name)
    ∷ elim (find_service order name m) [ none ↦ [] | some (key, x) ↦ attempt_log (fail x) ]

unfoldable pub register_log : String → ℤ → Registry → List Message
register_log name pid m =
    message debug "CORE" "onRegisterService" 57
      ("registerService req name=" ++ name ++ " pid=" ++ decimal_ℤ pid)
    ∷ elim (lookup name m) [
      | none ↦
          if scan_names name false service_names
          then message info "CORE" "onRegisterService" 92
              ("service registered: " ++ name ++ " pid=" ++ decimal_ℤ pid)
            ∷ []
          else message error "CORE" "onRegisterService" 96 ("invalid service name: " ++ name) ∷ []
      | some x ↦
          message warn "CORE" "onRegisterService" 106
            ("already registered service (now back online): " ++ name)
          ∷ []
    ]

unfoldable pub report_log : String → RecoveryState → RecoveryState → Registry → List Message
report_log name current last m = elim (lookup name m) [
  | none ↦
      message warn "CORE" "onReportServiceState" 135
        ("reportServiceState for unknown service: " ++ name)
      ∷ []
  | some x ↦
      message info "CORE" "onReportServiceState" 145 (
        "state pushed name="
        ++ name
        ++ " current="
        ++ to_string current
        ++ " last="
        ++ to_string last)
      ∷ []
]

-- registerService of the stub, after the callback has answered
unfoldable pub watch_log : Bool → String → String → ℤ → List Message
watch_log accepted name bus pid =
    if accepted
    then if str_eq bus ""
      then []
      else message info "DBUS" "registerService" 73 (
          "watching bus name '"
          ++ bus
          ++ "' pid="
          ++ decimal_ℤ pid
          ++ " for service '"
          ++ name
          ++ "'")
        ∷ []
    else []

unfoldable pub loss_log : String → String → PeerInfo → Message
loss_log service bus peer = message error "DBUS" "handleNameOwnerChanged" 142 (
    "peer lost service='"
    ++ service
    ++ "' bus="
    ++ bus
    ++ " pid="
    ++ decimal_ℤ peer.pid
    ++ " - driving recovery")

-- `run` of the stub
unfoldable pub run_log :
    {Connection Token : Type 0} → Platform Connection Token → String → String → List Message
run_log platform domain instance_name =
    if platform.has_runtime
    then if platform.offers domain instance_name
      then message info "CAPI" "run" 207
          ("CommonAPI service registered " ++ domain ++ ":" ++ instance_name)
        ∷ []
      else message error "CAPI" "run" 202 (
          "registerService FAILED for " ++ domain ++ ":" ++ instance_name
          ++ " - check COMMONAPI_CONFIG points at fidl/commonapi4dbus.ini and that the routing key"
          ++ " matches the versioned CAPI address (see fidl/commonapi4dbus.ini).")
        ∷ []
    else message error "CAPI" "run" 187
        "CommonAPI::Runtime::get() returned null - cannot register service"
      ∷ []

module _ {Connection Token : Type 0} (order : Iteration ServiceRecoveryInfo)
    (peer_order : Iteration PeerInfo) where
  -- No statement of unregisterService logs.
  unfoldable pub call_log :
      Platform Connection Token → Call → System Connection Token → List Message
  call_log platform (registers client name actions interval) (stub, m) =
      let bus = extract_dbus_unique_name client in
      let pid = query_unix_pid_for_bus_name platform stub.signal_conn bus in
      append (register_log name pid m)
        (watch_log (on_register_service name (translate [] actions) interval pid m).0 name bus pid)
  call_log platform (unregisters client name) sys = []
  call_log platform (reports client name current last) (stub, m) =
      report_log name (from_wire current) (from_wire last) m
  call_log platform (owner_changed name old_owner new_owner) (stub, m) =
      if str_eq new_owner ""
      then elim (find_peer peer_order name stub.service_to_bus_name) [
        | none ↦ []
        | some (service, peer) ↦
            if str_eq service ""
            then []
            else loss_log service name peer ∷ failure_log order service m
      ]
      else []

  -- the log of one call after the other
  unfoldable pub serve_log :
      List (Platform Connection Token × Call) → System Connection Token → List Message
  serve_log [] sys = []
  serve_log ((platform, call) ∷ rest) sys =
      append (call_log platform call sys) (elim (handle peer_order platform call sys) [
        | undefined ↦ []
        | ok (reply, sys') ↦ serve_log rest sys'
      ])

-- what is printed for a message, and for the messages, the first one at the moment `times k`
unfoldable pub print_one : Logger → Moment → Message → String
print_one logger now x =
    let (printed, _) =
      log logger now x.level (some "SRSC") (some x.ctid) (some x.func) (pos x.line)
        (λ (s : Unit {0}). (x.text, s)) tt in
    elim printed [ none ↦ "" | some line ↦ line ]

unfoldable pub print_all : Logger → (ℕ → Moment) → ℕ → List Message → String
print_all logger times k [] = ""
print_all logger times k (x ∷ rest) =
    print_one logger (times k) x ++ print_all logger times (suc k) rest
