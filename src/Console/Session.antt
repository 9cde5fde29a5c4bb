-- ===== src/Console/Session.antt =====
-- What the console makes of the lines that a user types, and what it prints.
use Prim.Native.String.{[] as nil, ◌∷◌ as ◌▸◌}
use service_recovery_schedul.Base.{
  ℕ, zero, suc, ◌<◌, ◌≡◌, refl, ap, String, false, some, Option, none, List, [], ◌∷◌, ◌++◌, arith,
  length, ok, if◌then◌else◌,
}
use service_recovery_schedul.Base.Int.{int32}
use service_recovery_schedul.States.{to_string}
use service_recovery_schedul.Scheduler.{Registry}
use service_recovery_schedul.Scheduler.Spec.{Services, Entry, All, nth_action, spec_snapshot}
use service_recovery_schedul.Scheduler.Refinement.{Refines}
use service_recovery_schedul.Scheduler.Snapshots.{get_service_state-spec_snapshot}
use service_recovery_schedul.Console.Input.{
  Stdin, read_int, take_line, ignore_line, get_line, is_newline,
}
use service_recovery_schedul.Console.{
  Event, Line, queries, exit_requested, shown, not_registered, print_snapshot, line_of, queries_of,
  turn, goes, stops, console_loop,
}

-- a text, and then the others
abbrev pub typed : String → String → String
typed nil t = t
typed (c ▸ s) t = c ▸ typed s t

abbrev pub IsLine : String → Type 0
IsLine nil = Unit
IsLine (c ▸ s) = (is_newline c ≡ false) × IsLine s

-- a question for each name, then the exit, then anything
abbrev pub session : List String → String → String
session [] after = typed "0\n" after
session (name ∷ rest) after = typed "1\n" (typed name (typed "\n" (session rest after)))

abbrev pub unread : String → Stdin
unread text = record { rest = text; eof = false; failed = false }

-- a query for each service of the catalogue
abbrev pub all_queries : List Event
all_queries =
    queries "AppA"
    ∷ queries "AppB"
    ∷ queries "AppC"
    ∷ queries "AppD"
    ∷ queries "AppE"
    ∷ queries "AppF"
    ∷ queries "AppG"
    ∷ queries "AppH"
    ∷ queries "AppI"
    ∷ queries "AppJ"
    ∷ queries "AppK"
    ∷ queries "AppL"
    ∷ queries "AppM"
    ∷ queries "AppN"
    ∷ queries "AppO"
    ∷ queries "AppP"
    ∷ queries "AppQ"
    ∷ queries "AppR"
    ∷ queries "AppS"
    ∷ queries "AppT"
    ∷ []

-- what a line asks for: one name, or all where nothing is typed
abbrev pub asked : String → List Event
asked nil = all_queries
asked (c ▸ s) = queries (c ▸ s) ∷ []

abbrev pub answers : List String → List Event
answers [] = []
answers (name ∷ rest) = asked name ++ answers rest

queries_of-asked : (name : String) → queries_of name ≡ asked name
unfolding queries_of
queries_of-asked nil = refl
queries_of-asked (c ▸ s) = refl

take_line-typed :
    (name t : String) → IsLine name → take_line (typed name (typed "\n" t)) ≡ (name, (false, t))
unfolding take_line
take_line-typed nil t h = refl
take_line-typed (c ▸ s) t h = rw (h.0, take_line-typed s t h.1) refl

get_line-typed :
    (name t : String)
    → IsLine name
    → get_line (unread (typed name (typed "\n" t))) ≡ (some name, unread t)
unfolding get_line
get_line-typed name t h = rw (take_line-typed name t h) refl

turn-query :
    (name t : String)
    → IsLine name
    → turn (unread (typed "1\n" (typed name (typed "\n" t)))) ≡ goes (queries_of name) (unread t)
unfolding turn read_int ignore_line
turn-query name t h =
    ap
      (λ (r : Option String × Stdin). elim r.0 [
        | none ↦ goes [] r.1
        | some line ↦ goes (queries_of line) r.1
      ])
      (get_line-typed name t h)

turn-exit : (t : String) → turn (unread (typed "0\n" t)) ≡ stops exit_requested
unfolding turn read_int ignore_line
turn-exit t = refl

-- For lines typed at the console, each a 1 and then a name or nothing, and last a 0: the loop answers
-- each name by one query and each empty line by twenty queries, for AppA to AppT in this order, in
-- the order in which they were typed, and exits at the 0, whatever is typed after it. One iteration
-- for each question and one for the 0 are enough.
pub console_loop-session :
    (names : List String) (after : String) (n : ℕ)
    → All IsLine names
    → length names < n
    → console_loop n (unread (session names after)) ≡ some (answers names, exit_requested)
unfolding console_loop
console_loop-session [] after zero h l = absurd (omega arith)
console_loop-session [] after (suc n) h l = rw (console_loop, turn-exit after) refl
console_loop-session (name ∷ rest) after zero h l = absurd (omega arith)
console_loop-session (name ∷ rest) after (suc n) h l =
    let more = console_loop-session rest after n h.1 (omega arith) in
    rw (console_loop, turn-query name (session rest after) h.0, more, queries_of-asked name) refl

-- what is printed for an entry
abbrev pub printed : String → Option Entry → Line
printed name none = not_registered name
printed name (some e) =
    shown name (if e.is_online then "ONLINE" else "CRASHED") (to_string e.last)
      (to_string e.current) (to_string (nth_action e.policy e.failures)) (int32 e.failures)

line_of-printed :
    (name : String) (e : Option Entry) → line_of name (spec_snapshot e) ≡ printed name e
unfolding line_of spec_snapshot
line_of-printed name none = refl
line_of-printed name (some e) = refl

-- Take a registry that stands for abstract services, so that every policy in it has 1 to 127 actions.
-- printSnapshot is defined on it. For a registered service it shows its name, liveness, last and
-- current action, the action that comes next in the circle through its policy and the number of its
-- failures cast to int; for another name it says that it is not registered.
pub print_snapshot-printed :
    (m : Registry) (s : Services) (name : String)
    → Refines m s
    → print_snapshot name m ≡ ok (printed name (s name))
unfolding print_snapshot
print_snapshot-printed m s name r =
    rw (get_service_state-spec_snapshot m s name r) (ap ok (line_of-printed name (s name)))
