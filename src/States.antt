-- ===== src/States.antt =====
-- RecoveryState of lib_srs/inc/Common.hpp: the enumeration, its uint8_t values and its text.
pub mod Codes
use service_recovery_schedul.Base.{ℕ, String, Bool, true, false, ◌==◌, if◌then◌else◌, ◌%◌, ◌^◌}

-- `unnamed n` is a uint8_t value `n` that no enumerator has: a cast of a byte off the wire can make
-- one.
pub data RecoveryState : Type 0 where
  restart stop disable crashed unknown : RecoveryState
  unnamed : ℕ → RecoveryState

-- the enumerator's value
unfoldable pub to_u8 : RecoveryState → ℕ
to_u8 restart = 0
to_u8 stop = 1
to_u8 disable = 2
to_u8 crashed = 3
to_u8 unknown = 255
to_u8 (unnamed n) = n

-- static_cast<RecoveryState> of a uint8_t
unfoldable pub of_u8 : ℕ → RecoveryState
of_u8 n =
    if n == 0
    then restart
    else if n == 1
    then stop
    else if n == 2
    then disable
    else if n == 3
    then crashed
    else if n == 255
    then unknown
    else unnamed n

-- `s != RecoveryState::UNKNOWN` is false
unfoldable pub is_unknown : RecoveryState → Bool
is_unknown unknown = true
is_unknown _ = false

-- The switch leaves the text empty where no enumerator fits.
unfoldable pub to_string : RecoveryState → String
to_string restart = "RESTART"
to_string stop = "STOP"
to_string disable = "DISABLE"
to_string crashed = "CRASHED"
to_string unknown = "UNKNOWN"
to_string (unnamed n) = ""
