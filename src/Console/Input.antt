-- ===== src/Console/Input.antt =====
-- The reads that main.cpp makes of std::cin: `>>` into an int, `ignore` up to a line's end and
-- std::getline, in the C locale. A character of several bytes has no byte of a digit, sign or space.
use Prim.Native.Char.{Char, code}
use Prim.Native.String.{[], ◌∷◌}
use service_recovery_schedul.Base.{
  ℕ, ◌+◌, ◌-◌, ◌*◌, ◌^◌, String, Bool, true, false, not, ◌&&◌, ◌||◌, Option, none, some, ◌==◌, leb,
  if◌then◌else◌,
}
use service_recovery_schedul.Base.Int.{ℤ, pos, negsuc}

-- what is still to be read, and the stream's eofbit and failbit
pub record Stdin : Type 0 where
  pub rest : String
  pub eof : Bool
  pub failed : Bool

abbrev pub is_space : Char → Bool
is_space c = code c == 32 || (leb 9 (code c) && leb (code c) 13)

abbrev pub is_digit : Char → Bool
is_digit c = leb 48 (code c) && leb (code c) 57

abbrev pub is_newline : Char → Bool
is_newline c = code c == 10

unfoldable pub skip_spaces : String → String
skip_spaces [] = []
skip_spaces (c ∷ s) = if is_space c then skip_spaces s else c ∷ s

-- whether there is a minus sign, and what comes after the sign
unfoldable pub read_sign : String → Bool × String
read_sign [] = (false, [])
read_sign (c ∷ s) =
    if code c == 45 then (true, s) else if code c == 43 then (false, s) else (false, c ∷ s)

unfoldable pub has_digit : String → Bool
has_digit [] = false
has_digit (c ∷ s) = is_digit c

unfoldable pub read_digits : ℕ → String → ℕ × String
read_digits n [] = (n, [])
read_digits n (c ∷ s) = if is_digit c then read_digits (n * 10 + (code c - 48)) s else (n, c ∷ s)

abbrev pub signed : Bool → ℕ → ℤ
signed false n = pos n
signed true n = if n == 0 then pos 0 else negsuc (n - 1)

-- whether an int holds the number
abbrev pub int_holds : Bool → ℕ → Bool
int_holds false n = leb n (2 ^ 31 - 1)
int_holds true n = leb n (2 ^ 31)

abbrev pub is_empty : String → Bool
is_empty [] = true
is_empty (c ∷ s) = false

-- the number at the front of a text that does not begin with a space
unfoldable pub read_number : String → Option ℤ × Stdin
unfolding read_sign has_digit read_digits
read_number text =
    let (minus, body) = read_sign text in
    let (n, left) = read_digits 0 body in
    let good : Bool = has_digit body && int_holds minus n in
    (
      if good then some (signed minus n) else none,
      record { rest = left; eof = is_empty left; failed = not good },
    )

-- `std::cin >> input`: the number, if the read succeeds
unfoldable pub read_int : Stdin → Option ℤ × Stdin
unfolding skip_spaces read_number
read_int s =
    if s.eof || s.failed
    then (none, record s { failed = true })
    else elim (is_empty (skip_spaces s.rest)) [
      | true ↦ (none, record { rest = []; eof = true; failed = true })
      | false ↦ read_number (skip_spaces s.rest)
    ]

-- `std::cin.clear()`
unfoldable pub clear : Stdin → Stdin
clear s = record s { eof = false; failed = false }

-- the characters before the first line end, whether there is none, and what comes after it
unfoldable pub take_line : String → String × (Bool × String)
take_line [] = ([], (true, []))
take_line (c ∷ s) =
    let (line, (at_end, left)) = take_line s in
    if is_newline c then ([], (false, s)) else (c ∷ line, (at_end, left))

-- `std::cin.ignore(max, '\n')`
unfoldable pub ignore_line : Stdin → Stdin
unfolding take_line
ignore_line s =
    let (line, (at_end, left)) = take_line s.rest in
    if s.eof || s.failed
    then record s { failed = true }
    else record { rest = left; eof = at_end; failed = false }

-- `std::getline`: the line, if the read succeeds
unfoldable pub get_line : Stdin → Option String × Stdin
unfolding take_line
get_line s =
    let (line, (at_end, left)) = take_line s.rest in
    if s.eof || s.failed
    then (none, record s { failed = true })
    else if at_end && is_empty line
    then (none, record { rest = left; eof = true; failed = true })
    else (some line, record { rest = left; eof = at_end; failed = false })
