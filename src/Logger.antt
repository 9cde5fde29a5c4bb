-- ===== src/Logger.antt =====
-- lib_srs/inc/Logger.hpp: the levels, the threshold test of the LOG_ macros and the line that
-- Logger::write prints.
pub mod Text
pub mod Lines
use Prim.Native.String.{◌++◌}
use service_recovery_schedul.Base.{
  ℕ, ◌+◌, String, Bool, true, false, Option, none, some, leb, if◌then◌else◌,
}
use service_recovery_schedul.Base.Int.{ℤ}
use service_recovery_schedul.Logger.Text.{decimal, decimal_ℤ, set_right, set_left}

pub data LogLevel : Type 0 where
  trace debug info warn error fatal : LogLevel

unfoldable pub severity : LogLevel → ℕ
severity trace = 0
severity debug = 1
severity info = 2
severity warn = 3
severity error = 4
severity fatal = 5

-- the statics of `threshold` and `useColor`, which callers may reassign
pub record Logger : Type 0 where
  pub threshold : LogLevel
  pub use_color : Bool

-- their first values; `is_tty` is what isatty says of stdout
abbrev pub default_logger : Bool → Logger
default_logger is_tty = record { threshold = trace; use_color = is_tty }

-- The local time as localtime_r gives it, with `year` and `month` as they are printed, the
-- microseconds of the second, and the thread's id.
pub record Moment : Type 0 where
  pub year : ℕ
  pub month : ℕ
  pub day : ℕ
  pub hour : ℕ
  pub minute : ℕ
  pub second : ℕ
  pub microseconds : ℕ
  pub thread : ℕ

unfoldable pub level_text : LogLevel → String
level_text trace = "TRC"
level_text debug = "DBG"
level_text info = "INF"
level_text warn = "WRN"
level_text error = "ERR"
level_text fatal = "FAT"

unfoldable pub symbol : LogLevel → String
symbol trace = "▫"
symbol debug = "⚙"
symbol info = "ℹ"
symbol warn = "⚠"
symbol error = "✘"
symbol fatal = "☠"

unfoldable pub color : LogLevel → String
color trace = "\u{1b}[90m"
color debug = "\u{1b}[36m"
color info = "\u{1b}[32m"
color warn = "\u{1b}[33m"
color error = "\u{1b}[31m"
color fatal = "\u{1b}[1;31m"

abbrev pub or_text : String → Option String → String
or_text default none = default
or_text default (some s) = s

-- std::put_time with "%Y-%m-%d %H:%M:%S", and the microseconds
unfoldable pub time_text : Moment → String
time_text now =
    decimal now.year
    ++ "-"
    ++ set_right 2 "0" (decimal now.month)
    ++ "-"
    ++ set_right 2 "0" (decimal now.day)
    ++ " "
    ++ set_right 2 "0" (decimal now.hour)
    ++ ":"
    ++ set_right 2 "0" (decimal now.minute)
    ++ ":"
    ++ set_right 2 "0" (decimal now.second)
    ++ "."
    ++ set_right 6 "0" (decimal now.microseconds)

-- what Logger::write prints; a text that is none is a null pointer
unfoldable pub write :
    Logger → Moment → LogLevel → Option String → Option String → Option String → ℤ → String → String
write logger now level apid ctid func line message =
    (if logger.use_color then color level else "")
    ++ time_text now
    ++ " [t"
    ++ set_right 6 " " (decimal now.thread)
    ++ "] "
    ++ level_text level
    ++ " "
    ++ symbol level
    ++ " ["
    ++ set_left 4 (or_text "    " apid)
    ++ "] ["
    ++ set_left 4 (or_text "    " ctid)
    ++ "] {"
    ++ or_text "?" func
    ++ ":"
    ++ decimal_ℤ line
    ++ "} "
    ++ message
    ++ (if logger.use_color then "\u{1b}[0m" else "")
    ++ "\n"

-- SRS_LOG_: the message is computed, with its effects on `s`, only if the level reaches the
-- threshold. The result is the line that is printed, if any, and the state.
unfoldable pub log :
    {S : Type 0}
    → Logger
    → Moment
    → LogLevel
    → Option String
    → Option String
    → Option String
    → ℤ
    → (S → String × S)
    → S
    → Option String × S
unfolding severity
log logger now level apid ctid func line expr s =
    if leb (severity logger.threshold) (severity level)
    then (some (write logger now level apid ctid func line (expr s).0), (expr s).1)
    else (none, s)
