-- ===== src/Tests/Logger.antt =====
-- Records of the log.
use service_recovery_schedul.Base.{◌≡◌, refl, false, none, some}
use service_recovery_schedul.Base.Int.{pos}
use service_recovery_schedul.Logger.{
  Logger, Moment, warn, error, time_text, level_text, symbol, write,
}
use service_recovery_schedul.Logger.Text.{digit, digits, set_right, set_left, decimal_ℤ}

abbrev quiet : Logger
quiet = record { threshold = warn; use_color = false }

abbrev noon : Moment
noon = record {
  year = 2026;
  month = 4;
  day = 1;
  hour = 12;
  minute = 0;
  second = 7;
  microseconds = 52;
  thread = 4711;
}

printed_line :
    write quiet noon error (some "SRSC") (some "CLI") none (pos 96) "bye"
    ≡ "2026-04-01 12:00:07.000052 [t  4711] ERR ✘ [SRSC] [CLI ] {?:96} bye\n"
unfolding write time_text level_text symbol set_right set_left decimal_ℤ digits digit
printed_line = refl
