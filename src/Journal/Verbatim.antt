-- ===== src/Journal/Verbatim.antt =====
-- Where a message stands in what is printed for it.
use Prim.Native.String.{◌++◌}
use text.Mathlib.TextLemmas.{append_assoc}
use service_recovery_schedul.Base.{
  ℕ, ◌≡◌, refl, ap, ◌∙◌, String, Bool, true, false, some, arith, if◌then◌else◌,
}
use service_recovery_schedul.Base.Int.{pos}
use service_recovery_schedul.Logger.{
  severity, trace, debug, info, warn, error, fatal, Logger, LogLevel, Moment, default_logger,
  time_text, level_text, symbol, color, write, log,
}
use service_recovery_schedul.Logger.Text.{decimal, decimal_ℤ, set_right, set_left}
use service_recovery_schedul.Logger.Lines.{newlines, newlines-append, newlines-write}
use service_recovery_schedul.Journal.{message, print_one}

-- what comes before the message, and what after
abbrev pub preamble : Logger → Moment → LogLevel → String → String → ℕ → String
preamble logger now level ctid func line =
    (if logger.use_color then color level else "")
    ++ time_text now
    ++ " [t"
    ++ set_right 6 " " (decimal now.thread)
    ++ "] "
    ++ level_text level
    ++ " "
    ++ symbol level
    ++ " ["
    ++ set_left 4 "SRSC"
    ++ "] ["
    ++ set_left 4 ctid
    ++ "] {"
    ++ func
    ++ ":"
    ++ decimal_ℤ (pos line)
    ++ "} "

abbrev pub postamble : Logger → String
postamble logger = (if logger.use_color then "\u{1b}[0m" else "") ++ "\n"

newlines-postamble : (is_tty : Bool) → newlines (postamble (default_logger is_tty)) ≡ 1
newlines-postamble true = refl
newlines-postamble false = refl

module _ (is_tty : Bool) (now : Moment) (level : LogLevel) (ctid func : String) (line : ℕ) where
  write-around :
      (text : String)
      → write
          (default_logger is_tty)
          now
          level
          (some "SRSC")
          (some ctid)
          (some func)
          (pos line)
          text
        ≡ preamble (default_logger is_tty) now level ctid func line
          ++ (text ++ postamble (default_logger is_tty))
  unfolding write
  write-around text = simp append_assoc

  -- no line end before the message, and one after it
  pub plain-around :
      newlines ctid ≡ 0
      → newlines func ≡ 0
      → (newlines (preamble (default_logger is_tty) now level ctid func line) ≡ 0)
        × (newlines (postamble (default_logger is_tty)) ≡ 1)
  plain-around c f =
      let first = preamble (default_logger is_tty) now level ctid func line in
      let last = postamble (default_logger is_tty) in
      let after : newlines last ≡ 1 = newlines-postamble is_tty in
      let total =
        newlines-write (default_logger is_tty) now level (some "SRSC") (some ctid) (some func)
          (pos line) refl c f "" in
      let split = ap newlines (write-around "") in
      (
        omega (
          arith,
          total,
          split,
          after,
          newlines-append first ("" ++ last),
          newlines-append "" last,
        ),
        after,
      )

-- the default logger prints every message
print_one-write :
    (is_tty : Bool) (now : Moment) (level : LogLevel) (ctid func : String) (line : ℕ)
    (text : String)
    → print_one (default_logger is_tty) now (message level ctid func line text)
      ≡ write
          (default_logger is_tty)
          now
          level
          (some "SRSC")
          (some ctid)
          (some func)
          (pos line)
          text
unfolding print_one log severity
print_one-write is_tty now trace ctid func line text = refl
print_one-write is_tty now debug ctid func line text = refl
print_one-write is_tty now info ctid func line text = refl
print_one-write is_tty now warn ctid func line text = refl
print_one-write is_tty now error ctid func line text = refl
print_one-write is_tty now fatal ctid func line text = refl

pub print_one-around :
    (is_tty : Bool) (now : Moment) (level : LogLevel) (ctid func : String) (line : ℕ)
    (text : String)
    → print_one (default_logger is_tty) now (message level ctid func line text)
      ≡ preamble (default_logger is_tty) now level ctid func line
        ++ (text ++ postamble (default_logger is_tty))
print_one-around is_tty now level ctid func line text =
    print_one-write is_tty now level ctid func line text
    ∙ write-around is_tty now level ctid func line text
