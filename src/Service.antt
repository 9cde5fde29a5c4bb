-- ===== src/Service.antt =====
-- What the scheduler keeps for one service: SServiceRecoveryInfo and SServiceSnapshot of
-- lib_srs/inc/CRecoveryScheduler.hpp, and the parts of the handlers in
-- lib_srs/src/CRecoveryScheduler.cpp that read and write one of these records.
pub mod Cursor
pub mod Cycle
pub mod Attempts
use service_recovery_schedul.Base.{
  ℕ, ◌+◌, String, Bool, true, false, Option, none, some, List, [], ◌∷◌, ◌++◌, Outcome, ok,
  undefined, ◌>>=◌, or_undefined, length, get_elem?, if◌then◌else◌,
}
use service_recovery_schedul.Base.Int.{
  ℤ, pos, minus_one, eq_ℤ, leb_ℤ, succ_ℤ, int8, int32, size_of_int, inc32,
}
use service_recovery_schedul.States.{
  RecoveryState, restart, stop, disable, crashed, unknown, is_unknown,
}

-- `recovery_action_count` is an int8_t, `crash_count` a uint32_t.
pub record ServiceRecoveryInfo : Type 0 where
  pub service_name : String
  pub pid : ℤ
  pub recovery_actions : List RecoveryState
  pub recovery_interval : ℤ
  pub recovery_action_count : ℤ
  pub crash_count : ℕ
  pub is_online : Bool
  pub current_recovery_state : RecoveryState
  pub last_action : RecoveryState

pub record ServiceSnapshot : Type 0 where
  pub found : Bool
  pub is_online : Bool
  pub last_action : RecoveryState
  pub current_action : RecoveryState
  pub next_action : RecoveryState
  pub attempt_count : ℤ

-- a default-constructed snapshot
abbrev pub no_snapshot : ServiceSnapshot
no_snapshot = record {
  found = false;
  is_online = false;
  last_action = unknown;
  current_action = unknown;
  next_action = unknown;
  attempt_count = pos 0;
}

-- the loop of `push`: a push_back for each action
unfoldable pub push_all : List RecoveryState → List RecoveryState → List RecoveryState
push_all policy [] = policy
push_all policy (a ∷ rest) = push_all (policy ++ a ∷ []) rest

unfoldable pub push : List RecoveryState → ServiceRecoveryInfo → ServiceRecoveryInfo
unfolding push_all
push actions info = record info { recovery_actions = push_all info.recovery_actions actions }

abbrev pub default_actions : List RecoveryState
default_actions = restart ∷ restart ∷ stop ∷ disable ∷ []

-- the test on `recoveryActions.empty()`
unfoldable pub requested_or_default : List RecoveryState → List RecoveryState
requested_or_default [] = default_actions
requested_or_default (a ∷ rest) = a ∷ rest

-- the record that a first registration fills in
unfoldable pub new_info : String → List RecoveryState → ℤ → ServiceRecoveryInfo
unfolding push requested_or_default
new_info name actions interval = push (requested_or_default actions) (record {
  service_name = name;
  pid = minus_one;
  recovery_actions = [];
  recovery_interval = interval;
  recovery_action_count = minus_one;
  crash_count = 0;
  is_online = true;
  current_recovery_state = unknown;
  last_action = unknown;
})

-- the cursor after `++` and the test against the policy's size, both in int8_t
unfoldable pub next_cursor : ℕ → ℤ → ℤ
next_cursor size cursor =
    let stepped = int8 (succ_ℤ cursor) in if eq_ℤ stepped (int8 (pos size)) then pos 0 else stepped

-- `recoveryActions[static_cast<size_t>(cursor)]`
unfoldable pub action_at : List RecoveryState → ℤ → Outcome RecoveryState
action_at actions cursor = or_undefined (get_elem? actions (size_of_int cursor))

-- The body of onServiceFailure. Each branch of its switch is an empty placeholder.
unfoldable pub fail : ServiceRecoveryInfo → Outcome ServiceRecoveryInfo
unfolding next_cursor action_at
fail info = do
  let cursor = next_cursor (length info.recovery_actions) info.recovery_action_count
  next ← action_at info.recovery_actions cursor
  ok (record info {
    is_online = false;
    crash_count = inc32 info.crash_count;
    recovery_action_count = cursor;
    last_action = crashed;
    current_recovery_state = next;
  })

-- the body of onReportServiceState
unfoldable pub report : RecoveryState → RecoveryState → ServiceRecoveryInfo → ServiceRecoveryInfo
unfolding is_unknown
report current last info = record info {
  current_recovery_state = current;
  last_action = if is_unknown last then info.last_action else last;
}

-- the index that getServiceState peeks at
unfoldable pub peek_cursor : ℕ → ℤ → ℤ
peek_cursor size cursor =
    if leb_ℤ (int8 (pos size)) (succ_ℤ cursor) then pos 0 else int8 (succ_ℤ cursor)

unfoldable pub peek_action : List RecoveryState → ℤ → Outcome RecoveryState
unfolding peek_cursor action_at
peek_action [] cursor = ok unknown
peek_action (a ∷ rest) cursor = action_at (a ∷ rest) (peek_cursor (length (a ∷ rest)) cursor)

-- the body of getServiceState
unfoldable pub snapshot : ServiceRecoveryInfo → Outcome ServiceSnapshot
unfolding peek_action
snapshot info = do
  next ← peek_action info.recovery_actions info.recovery_action_count
  ok (record {
    found = true;
    is_online = info.is_online;
    last_action = info.last_action;
    current_action = info.current_recovery_state;
    next_action = next;
    attempt_count = int32 info.crash_count;
  })
