-- ===== src/Console.antt =====
-- main.cpp: the arguments, the interactive console and the choice between them.
pub mod Input
pub mod Progress
pub mod Session
pub mod Start
pub mod Life
pub mod Fulfilled
use service_recovery_schedul.Base.{
  ℕ, zero, suc, String, Bool, true, false, Option, none, some, List, [], ◌∷◌, ◌++◌, map, Outcome,
  ok, ◌>>=◌, str_eq, if◌then◌else◌,
}
use service_recovery_schedul.Base.Int.{ℤ, pos, eq_ℤ}
use service_recovery_schedul.Base.Map.{Iteration}
use service_recovery_schedul.States.{to_string}
use service_recovery_schedul.Catalogue.{service_names}
use service_recovery_schedul.Service.{ServiceRecoveryInfo, ServiceSnapshot}
use service_recovery_schedul.Scheduler.{Registry, get_service_state}
use service_recovery_schedul.Stub.{Platform, Stub}
use service_recovery_schedul.Daemon.{System, new_stub, init, run}
use service_recovery_schedul.Console.Input.{Stdin, read_int, clear, ignore_line, get_line, is_empty}

-- what printSnapshot logs: name, liveness, last, current and next action, number of attempts
pub data Line : Type 0 where
  shown : String → String → String → String → String → ℤ → Line
  not_registered : String → Line

-- the streamed fields of a snapshot
unfoldable pub line_of : String → ServiceSnapshot → Line
line_of name snap =
    if snap.found
    then shown name (if snap.is_online then "ONLINE" else "CRASHED") (to_string snap.last_action)
        (to_string snap.current_action) (to_string snap.next_action) snap.attempt_count
    else not_registered name

unfoldable pub print_snapshot : String → Registry → Outcome Line
unfolding line_of
print_snapshot name m = do snap ← get_service_state name m; ok (line_of name snap)

-- What an iteration of the loop does: printSnapshot of a name, or the warning of an unknown option.
pub data Event : Type 0 where
  queries : String → Event
  rejects : ℤ → Event

pub data Ending : Type 0 where
  exit_requested stdin_closed : Ending

-- the break with its reason, or the next iteration with the input that is left
pub data Turn : Type 0 where
  stops : Ending → Turn
  goes : List Event → Stdin → Turn

-- the test on `lName.empty()`
unfoldable pub queries_of : String → List Event
queries_of name =
    if is_empty name then map (λ entry. queries entry.1) service_names else queries name ∷ []

-- the rest of an iteration that has read an option
unfoldable pub chosen : ℤ → Stdin → Turn
unfolding queries_of
chosen input s =
    if eq_ℤ input (pos 0)
    then stops exit_requested
    else if eq_ℤ input (pos 1)
    then elim (get_line s).0 [
      | none ↦ goes [] (get_line s).1
      | some name ↦ goes (queries_of name) (get_line s).1
    ]
    else goes (rejects input ∷ []) s

-- one iteration of consoleLoop
unfoldable pub turn : Stdin → Turn
unfolding chosen
turn s =
    let (input, s') = read_int s in
    elim input [
      | none ↦ if s'.eof then stops stdin_closed else goes [] (ignore_line (clear s'))
      | some option ↦ chosen option (ignore_line s')
    ]

-- consoleLoop, with the number of iterations that it may make at most
unfoldable pub console_loop : ℕ → Stdin → Option (List Event × Ending)
unfolding turn
console_loop zero s = none
console_loop (suc n) s = elim (turn s) [
  | stops ending ↦ some ([], ending)
  | goes events s' ↦ elim (console_loop n s') [
    | none ↦ none
    | some (rest, ending) ↦ some (events ++ rest, ending)
  ]
]

-- the scan of the arguments after the program's own name
unfoldable pub scan_args : Bool → List String → Bool
scan_args mode [] = mode
scan_args mode (arg ∷ rest) = scan_args (if str_eq arg "mode=console" then true else mode) rest

unfoldable pub console_mode : List String → Bool
unfolding scan_args
console_mode [] = false
console_mode (program ∷ args) = scan_args false args

-- what main goes on with
pub data Mode : Type 0 where
  aborted interactive headless : Mode

module _ {Connection Token : Type 0} where
  -- main up to the console or the endless sleep, with the system that it has then
  unfoldable pub start :
      Iteration ServiceRecoveryInfo
      → Platform Connection Token
      → Token
      → List String
      → Mode × System Connection Token
  unfolding console_mode
  start order platform token argv =
      let (up, stub) = run platform (init order (new_stub token)) in
      (if up then (if console_mode argv then interactive else headless) else aborted, (stub, []))
