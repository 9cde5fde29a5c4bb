-- ===== src/Logger/Text.antt =====
-- What Logger::write puts on std::cout: numbers in decimal, and std::setw with std::setfill.
use Prim.Native.Char.{Char}
use Prim.Native.String.{[], ◌∷◌, ◌++◌}
use service_recovery_schedul.Base.{ℕ, zero, suc, ◌-◌, ◌/◌, ◌%◌, String, ltb, if◌then◌else◌}
use service_recovery_schedul.Base.Int.{ℤ, pos, negsuc}

unfoldable pub digit : ℕ → Char
digit zero = "0"
digit (suc zero) = "1"
digit (suc (suc zero)) = "2"
digit (suc (suc (suc zero))) = "3"
digit (suc (suc (suc (suc zero)))) = "4"
digit (suc (suc (suc (suc (suc zero))))) = "5"
digit (suc (suc (suc (suc (suc (suc zero)))))) = "6"
digit (suc (suc (suc (suc (suc (suc (suc zero))))))) = "7"
digit (suc (suc (suc (suc (suc (suc (suc (suc zero)))))))) = "8"
digit n = "9"

-- the digits of a number before a text; each round takes one digit off, and `fuel` bounds the rounds
unfoldable pub digits : ℕ → ℕ → String → String
digits zero n after = after
digits (suc fuel) n after =
    let more = digits fuel (n / 10) (digit (n % 10) ∷ after) in
    if ltb n 10 then digit n ∷ after else more

unfoldable pub decimal : ℕ → String
decimal n = digits (suc n) n []

-- `<<` of an int or a long
unfoldable pub decimal_ℤ : ℤ → String
unfolding decimal
decimal_ℤ (pos n) = decimal n
decimal_ℤ (negsuc n) = "-" ∷ decimal (suc n)

abbrev pub size : String → ℕ
size [] = 0
size (c ∷ s) = suc (size s)

unfoldable pub fill : ℕ → Char → String → String
fill zero c s = s
fill (suc n) c s = c ∷ fill n c s

-- std::setw(width) with std::right, and with std::left and a blank
unfoldable pub set_right : ℕ → Char → String → String
unfolding fill
set_right width c s = fill (width - size s) c s

unfoldable pub set_left : ℕ → String → String
unfolding fill
set_left width s = s ++ fill (width - size s) " " []
