-- ===== src/Wire.antt =====
-- What crosses the bus: the enumerations of fidl/RecoveryScheduler.fidl, the client's identity, and
-- the casts and texts that lib_srs/src/CRecoverySchedulerStubImpl.cpp makes of them.
pub mod Casts
use service_recovery_schedul.Base.{ℕ, ◌%◌, ◌^◌, String, Option, none, some, List, [], ◌∷◌, ◌++◌}
use service_recovery_schedul.States.{RecoveryState, of_u8, to_u8}

-- The enumerations of fidl/RecoveryScheduler.fidl that the replies carry.
pub data RegisterResult : Type 0 where
  ok invalid_name already_exists internal_error : RegisterResult

pub data UnregisterResult : Type 0 where
  ok not_found : UnregisterResult

pub data QueryResult : Type 0 where
  ok not_found : QueryResult

-- What a CommonAPI client id can turn out to be: null, of another binding, or of D-Bus, where the
-- id's text may be null.
pub data ClientId : Type 0 where
  null other : ClientId
  dbus : Option String → ClientId

-- static_cast<RecoveryState>(static_cast<uint8_t>(w)) for a value `w` off the wire
unfoldable pub from_wire : ℕ → RecoveryState
from_wire w = of_u8 (w % 2 ^ 8)

-- the loop that fills `lActions`
unfoldable pub translate : List RecoveryState → List ℕ → List RecoveryState
unfolding from_wire
translate actions [] = actions
translate actions (w ∷ rest) = translate (actions ++ from_wire w ∷ []) rest

unfoldable pub extract_dbus_unique_name : ClientId → String
extract_dbus_unique_name (dbus (some id)) = id
extract_dbus_unique_name _ = ""

-- the arguments of the broadcast that notifyStateChanged fires
unfoldable pub notify_state_changed : String → RecoveryState → String × ℕ
notify_state_changed name action = (name, to_u8 action)
