-- ===== src/Tests/Console.antt =====
-- Runs of the console and of main.
use service_recovery_schedul.Base.{
  ℕ, ◌<◌, ◌≡◌, ◌↔◌, refl, true, false, String, none, some, List, [], ◌∷◌, arith, ok,
}
use service_recovery_schedul.Base.Int.{pos, negsuc, minus_one}
use service_recovery_schedul.Base.Map.{Iteration, emplace, stored_order}
use service_recovery_schedul.States.{restart, stop, unknown}
use service_recovery_schedul.Service.{ServiceRecoveryInfo}
use service_recovery_schedul.Scheduler.{Registry}
use service_recovery_schedul.Scheduler.Spec.{Entry, Services, no_services, at, realise}
use service_recovery_schedul.Scheduler.Refinement.{Refines, emplaced}
use service_recovery_schedul.Scheduler.Implements.{empty-Refines}
use service_recovery_schedul.Stub.{Platform, PeerInfo, destroy}
use service_recovery_schedul.Daemon.Invariant.{IsDaemon}
use service_recovery_schedul.Console.Input.{read_int, ignore_line, clear, get_line}
use service_recovery_schedul.Console.{
  Event, Ending, aborted, interactive, queries, rejects, exit_requested, stdin_closed, console_loop,
  print_snapshot, start,
}
use service_recovery_schedul.Console.Progress.{left_over, console_loop-ends}
use service_recovery_schedul.Console.Session.{
  session, unread, answers, printed, console_loop-session, print_snapshot-printed,
}
use service_recovery_schedul.Wire.{dbus}
use service_recovery_schedul.Daemon.{Call, Reply, System, registers, owner_changed, serve}
use service_recovery_schedul.Daemon.Subscription.{subscribed}
use service_recovery_schedul.Console.Life.{start-destroy}
use service_recovery_schedul.Console.Start.{comes_up, AsksConsole, start-IsDaemon}

abbrev order : Iteration ServiceRecoveryInfo
order = stored_order ServiceRecoveryInfo

minus_read : (read_int (unread " -42x")).0 ≡ some (negsuc 41)
unfolding read_int
minus_read = refl

too_large : (read_int (unread "2147483648\n")).0 ≡ none
unfolding read_int
too_large = refl

-- garbage, an unknown option, a name, and the end of the input
mixed :
    console_loop 9 (unread "x 1\n 7\n1\nAppA")
    ≡ some (rejects (pos 7) ∷ queries "AppA" ∷ [], stdin_closed)
unfolding console_loop read_int ignore_line clear get_line
mixed = refl

console_loop-ends_example :
    (events : List Event) × (ending : Ending) × ((n : ℕ)
      → left_over (unread "1\nAppA") < n
      → console_loop n (unread "1\nAppA") ≡ some (events, ending))
console_loop-ends_example = console_loop-ends (unread "1\nAppA")

console_loop-session_example :
    console_loop 4 (unread (session ("AppA" ∷ "" ∷ "nobody" ∷ []) "1\n"))
    ≡ some (answers ("AppA" ∷ "" ∷ "nobody" ∷ []), exit_requested)
console_loop-session_example =
    console_loop-session ("AppA" ∷ "" ∷ "nobody" ∷ []) "1\n" 4 (ground arith) (omega arith)

abbrev entry : Entry
entry = record {
  policy = restart ∷ stop ∷ [];
  interval = minus_one;
  failures = 3;
  is_online = false;
  current = restart;
  last = unknown;
}

abbrev services : Services
services = at "AppB" (some entry) no_services

abbrev registry : Registry
registry = emplace "AppB" (realise "AppB" entry) []

registry-Refines : Refines registry services
registry-Refines = emplaced (empty-Refines order) "AppB" entry refl (omega arith)

print_snapshot-printed_example :
    print_snapshot "AppB" registry ≡ ok (printed "AppB" (services "AppB"))
print_snapshot-printed_example = print_snapshot-printed registry services "AppB" registry-Refines

abbrev bus : Platform ℕ ℕ
bus = record {
  is_alive = λ c. true;
  pid_of = λ c name. some 77;
  has_runtime = true;
  offers = λ domain instance_name. true;
  connection = some 5;
  subscribe = λ c. 9;
}

abbrev argv : List String
argv = "app_srs" ∷ "mode=console" ∷ []

start-IsDaemon_example :
    IsDaemon order (start order bus 3 argv).1 no_services
    × (((start order bus 3 argv).0 ≡ aborted) ↔ (comes_up bus ≡ false))
    × (((start order bus 3 argv).0 ≡ interactive) ↔ ((comes_up bus ≡ true) × AsksConsole argv))
start-IsDaemon_example = start-IsDaemon order bus 3 argv

abbrev bus_calls : List (Platform ℕ ℕ × Call)
bus_calls =
    (bus, registers (dbus (some ":1.42")) "AppA" (0 ∷ 1 ∷ []) minus_one)
    ∷ (bus, owner_changed ":1.42" ":1.42" "")
    ∷ []

start-destroy_example :
    (replies : List Reply) × (sys : System ℕ ℕ) × (serve
        (stored_order PeerInfo)
        bus_calls
        (start order bus 3 argv).1
      ≡ ok (replies, sys))
    × (destroy bus sys.0 ≡ subscribed bus bus)
start-destroy_example =
    start-destroy order (stored_order PeerInfo) bus bus 3 argv bus_calls refl (omega arith)
