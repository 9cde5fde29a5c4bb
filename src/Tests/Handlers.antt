-- ===== src/Tests/Handlers.antt =====
-- Handlers that overlap: AppA loses its connection while AppB registers, and the races.
use service_recovery_schedul.Base.{
  ℕ, set, ◌==◌, Bool-cases, inl, inr, ◌≡◌, refl, false, String, str_eq, none, some, [], arith, ok,
  eq_iff,
}
use service_recovery_schedul.Base.Int.{inc32, ℤ, minus_one}
use service_recovery_schedul.Base.Map.{lookup, emplace, update, find_if}
use service_recovery_schedul.Catalogue.{scan_names}
use service_recovery_schedul.Service.{new_info, fail}
use service_recovery_schedul.Scheduler.{
  Registry, find_service, on_register_service, on_service_failure,
}
use service_recovery_schedul.Scheduler.Spec.{realise, Entry, Services}
use service_recovery_schedul.Scheduler.Refinement.{Refines, failed_entry}
use service_recovery_schedul.Wire.{
  RegisterResult, UnregisterResult, null, dbus, translate, extract_dbus_unique_name,
}
use service_recovery_schedul.Stub.{
  record_peer, drop_peer, drive_recovery, find_peer, query_unix_pid_for_bus_name, lock,
}
use service_recovery_schedul.Daemon.{
  init, new_stub, Call, Reply, System, registers, unregisters, owner_changed, registered,
  unregistered, silent,
}
use service_recovery_schedul.Daemon.Invariant.{IsDaemon}
use service_recovery_schedul.Daemon.Loss.{NoPeer}
use service_recovery_schedul.Handlers.{
  answered, recording, erasing, driving, begin_call, finish_call,
}
use service_recovery_schedul.Handlers.Whole.{begin_call-Handles}
use service_recovery_schedul.Daemon.Contract.{Board, no_board, point, Handles}
use service_recovery_schedul.Daemon.Models.{Models}
use service_recovery_schedul.Handlers.Steps.{
  Process, IsFree, Apart, Step, begins, finishes, Reach, here, later,
}
use service_recovery_schedul.Handlers.Overlap.{Online}
use service_recovery_schedul.Handlers.Finishing.{worked}
use service_recovery_schedul.Handlers.Exclusive.{Reach-IsDaemon, Reach-finish_call}
use service_recovery_schedul.Handlers.Races.{
  recording-begin_call, driving-begin_call, erasing-begin_call,
}
use service_recovery_schedul.Tests.Bus.{order, peer_order, office, entry, peer, wire, AppB_listed}
use service_recovery_schedul.Tests.Single.{
  taker_differs, alone, one_name, its_registry, alone-IsDaemon,
}

abbrev app_b : Call
app_b = registers (dbus (some ":1.7")) "AppB" wire minus_one

-- the services and the bus names of a process with AppA alone
abbrev board : Board
board = record { services = one_name; peers = point "AppA" (some ":1.42") no_board.peers }

alone-Models : Models order (alone, its_registry) board
unfolding lookup
alone-Models = record {
  valid = alone-IsDaemon;
  known = λ name. elim (Bool-cases (str_eq "AppA" name)) [
    | inl t ↦ rw (t, lookup) refl
    | inr f ↦ rw (f, lookup) refl
  ];
}

begin_call-Handles_example :
    (reply : Reply) × (sys' : System ℕ ℕ) × (b : Board) × ((let (work, mid) =
          begin_call peer_order office app_b (alone, its_registry) in
        finish_call work mid)
      ≡ ok (reply, sys'))
    × Handles board app_b reply b
    × Models order sys' b
begin_call-Handles_example =
    begin_call-Handles peer_order office order app_b (alone, its_registry) board alone-Models
      (omega arith)

abbrev resting : Process ℕ ℕ
resting = record { system = (alone, its_registry); thread = λ i. answered silent }

abbrev loss : Call
loss = owner_changed ":1.42" ":1.42" ""

abbrev both_registry : Registry
both_registry = (on_register_service "AppB" (translate [] wire) minus_one minus_one its_registry).1

app_b_begins :
    begin_call peer_order office app_b resting.system
    ≡ (recording "AppB" ":1.7" minus_one, (alone, both_registry))
unfolding begin_call on_register_service scan_names lookup init new_stub emplace
    extract_dbus_unique_name query_unix_pid_for_bus_name lock
app_b_begins = refl

loss_begins :
    begin_call peer_order office loss (alone, both_registry)
    ≡ (driving "AppA", (drop_peer "AppA" alone, both_registry))
unfolding begin_call find_peer find_if
loss_begins = refl

-- The scheduler has accepted AppB.
abbrev first : Process ℕ ℕ
first = record {
  system = (alone, both_registry);
  thread = set resting.thread 0 (recording "AppB" ":1.7" minus_one);
}

first-Reach : Reach peer_order resting first
first-Reach =
    let st : Step peer_order resting (record {
      system = (begin_call peer_order office app_b resting.system).1;
      thread = set resting.thread 0 (begin_call peer_order office app_b resting.system).0;
    }) =
      begins 0 office app_b tt (omega arith) (λ i service c b. b) in
    later here (rw app_b_begins at st)

app_b_unknown : lookup "AppB" alone.service_to_bus_name ≡ none
unfolding lookup
app_b_unknown = refl

loss-Apart : Apart first loss
loss-Apart i service (p, l, _) busy = elim (Bool-cases (0 == i)) [
  | inl t ↦
      let q : ◌≡◌ {A = String} "AppB" service = rw t at busy in
      let l' : none ≡ some p = rw (← q, app_b_unknown) at l in absurd (cc)
  | inr f ↦ rw f at busy
]

-- And the peer of AppA is dropped.
abbrev both : Process ℕ ℕ
both = record {
  system = (drop_peer "AppA" alone, both_registry);
  thread = set first.thread 1 (driving "AppA");
}

both-Reach : Reach peer_order resting both
both-Reach =
    let st : Step peer_order first (record {
      system = (begin_call peer_order office loss first.system).1;
      thread = set first.thread 1 (begin_call peer_order office loss first.system).0;
    }) =
      begins 1 office loss tt tt loss-Apart in
    later first-Reach (rw loss_begins at st)

abbrev lost_registry : Registry
lost_registry = update "AppA" (realise "AppA" (failed_entry entry)) both_registry

loss_finishes :
    finish_call (driving "AppA") both.system ≡ ok (silent, (drop_peer "AppA" alone, lost_registry))
unfolding finish_call drive_recovery drop_peer init on_service_failure find_service find_if
    on_register_service lookup emplace scan_names new_info fail inc32
loss_finishes = refl

-- Both have finished.
abbrev settled : Process ℕ ℕ
settled = record {
  system = (record_peer "AppB" ":1.7" minus_one (drop_peer "AppA" alone), lost_registry);
  thread = set (set both.thread 1 (answered silent)) 0 (answered (registered RegisterResult.ok));
}

settled-Reach : Reach peer_order resting settled
unfolding finish_call
settled-Reach =
    later
      (later both-Reach (finishes 1 silent (drop_peer "AppA" alone, lost_registry) loss_finishes))
      (finishes 0 (registered RegisterResult.ok)
        (record_peer "AppB" ":1.7" minus_one (drop_peer "AppA" alone), lost_registry) refl)

settled-IsFree : (i : ℕ) → IsFree (settled.thread i)
settled-IsFree i = elim (Bool-cases (0 == i)) [
  | inl t ↦ rw t tt
  | inr f ↦ rw f (elim (Bool-cases (1 == i)) [ inl t' ↦ rw t' tt | inr f' ↦ rw f' tt ])
]

Reach-IsDaemon_example : (s : Services) × IsDaemon order settled.system s
Reach-IsDaemon_example =
    Reach-IsDaemon order peer_order resting settled one_name alone-IsDaemon (λ i. tt) settled-Reach
      settled-IsFree

Reach-finish_call_example :
    (reply : Reply) × (sys : System ℕ ℕ) × (s : Services) × Refines both.system.1 s
    × (finish_call (both.thread 1) both.system ≡ ok (reply, sys))
    × Refines sys.1 (worked (both.thread 1) s)
Reach-finish_call_example =
    Reach-finish_call order peer_order resting both one_name 1 alone-IsDaemon (λ i. tt) both-Reach

nobody_there : NoPeer ":1.7" alone.service_to_bus_name
unfolding lookup
nobody_there service p h e = ground (arith, eq_iff "AppA" service, taker_differs)

recording-begin_call_example :
    (pid : ℤ) × (m' : Registry) × (s' : Services) × (begin_call peer_order office app_b
        (alone, its_registry)
      ≡ (recording "AppB" ":1.7" pid, (alone, m')))
    × (begin_call peer_order office (owner_changed ":1.7" ":1.7" "") (alone, m')
        ≡ (answered silent, (alone, m')))
    × (finish_call (recording "AppB" ":1.7" pid) (alone, m')
        ≡ ok (registered RegisterResult.ok, (record_peer "AppB" ":1.7" pid alone, m')))
    × (lookup "AppB" (record_peer "AppB" ":1.7" pid alone).service_to_bus_name
        ≡ some (record { unique_bus_name = ":1.7"; pid = pid }))
    × Refines m' s'
    × Online s' "AppB"
recording-begin_call_example =
    recording-begin_call order peer_order office "AppB" ":1.7" wire minus_one (omega arith) alone
      its_registry one_name ":1.7" alone-IsDaemon AppB_listed nobody_there refl

-- AppA again, over another connection
abbrev app_a : Call
app_a = registers (dbus (some ":1.7")) "AppA" wire minus_one

driving-begin_call_example :
    (pid : ℤ) × (m' : Registry) × (m'' : Registry) × (s' : Services) × (e : Entry) × (begin_call
        peer_order office loss
        (alone, its_registry)
      ≡ (driving "AppA", (drop_peer "AppA" alone, its_registry)))
    × (begin_call peer_order office app_a (drop_peer "AppA" alone, its_registry)
        ≡ (recording "AppA" ":1.7" pid, (drop_peer "AppA" alone, m')))
    × (finish_call (recording "AppA" ":1.7" pid) (drop_peer "AppA" alone, m')
        ≡ ok (
          registered RegisterResult.ok,
          (record_peer "AppA" ":1.7" pid (drop_peer "AppA" alone), m'),
        ))
    × (finish_call (driving "AppA") (record_peer "AppA" ":1.7" pid (drop_peer "AppA" alone), m')
        ≡ ok (silent, (record_peer "AppA" ":1.7" pid (drop_peer "AppA" alone), m'')))
    × (lookup "AppA" (record_peer "AppA" ":1.7" pid (drop_peer "AppA" alone)).service_to_bus_name
        ≡ some (record { unique_bus_name = ":1.7"; pid = pid }))
    × Refines m'' s'
    × (s' "AppA" ≡ some e)
    × (e.is_online ≡ false)
unfolding find_peer find_if
driving-begin_call_example =
    driving-begin_call order peer_order office "AppA" ":1.7" wire minus_one (omega arith) alone
      its_registry one_name ":1.42" ":1.42" peer alone-IsDaemon refl refl

erasing-begin_call_example :
    (pid : ℤ) × (m' : Registry) × (m'' : Registry) × (s' : Services) × (begin_call peer_order office
        (unregisters null "AppA")
        (alone, its_registry)
      ≡ (erasing "AppA", (alone, m')))
    × (begin_call peer_order office app_a (alone, m') ≡ (recording "AppA" ":1.7" pid, (alone, m'')))
    × (finish_call (recording "AppA" ":1.7" pid) (alone, m'')
        ≡ ok (registered RegisterResult.ok, (record_peer "AppA" ":1.7" pid alone, m'')))
    × (lookup "AppA" (record_peer "AppA" ":1.7" pid alone).service_to_bus_name
        ≡ some (record { unique_bus_name = ":1.7"; pid = pid }))
    × (finish_call (erasing "AppA") (record_peer "AppA" ":1.7" pid alone, m'')
        ≡ ok (
          unregistered UnregisterResult.ok,
          (drop_peer "AppA" (record_peer "AppA" ":1.7" pid alone), m''),
        ))
    × (lookup "AppA" (drop_peer "AppA" (record_peer "AppA" ":1.7" pid alone)).service_to_bus_name
        ≡ none)
    × Refines m'' s'
    × Online s' "AppA"
erasing-begin_call_example =
    erasing-begin_call order peer_order office "AppA" ":1.7" wire minus_one (omega arith) alone
      its_registry one_name null alone-IsDaemon refl refl
