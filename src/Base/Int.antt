-- ===== src/Base/Int.antt =====
-- Signed integers over the native numbers, and the conversions of the C++ integer types that the
-- program uses: int8_t, int32_t (int, pid_t), uint32_t and size_t. Narrowing keeps the low bits.
use service_recovery_schedul.Base.{
  ℕ, ◌+◌, ◌-◌, ◌%◌, ◌^◌, Bool, false, true, ltb, leb, ◌==◌, if◌then◌else◌,
}

-- `negsuc n` is -(n + 1).
pub data ℤ : Type 0 where
  pos : ℕ → ℤ
  negsuc : ℕ → ℤ

abbrev pub minus_one : ℤ
minus_one = negsuc 0

abbrev pub eq_ℤ : ℤ → ℤ → Bool
eq_ℤ (pos a) (pos b) = a == b
eq_ℤ (negsuc a) (negsuc b) = a == b
eq_ℤ (pos a) (negsuc b) = false
eq_ℤ (negsuc a) (pos b) = false

abbrev pub leb_ℤ : ℤ → ℤ → Bool
leb_ℤ (pos a) (pos b) = leb a b
leb_ℤ (negsuc a) (negsuc b) = leb b a
leb_ℤ (pos a) (negsuc b) = false
leb_ℤ (negsuc a) (pos b) = true

-- `c + 1` in int
abbrev pub succ_ℤ : ℤ → ℤ
succ_ℤ (pos n) = pos (n + 1)
succ_ℤ (negsuc n) = if n == 0 then pos 0 else negsuc (n - 1)

-- the low eight bits of an int
abbrev pub low8 : ℤ → ℕ
low8 (pos n) = n % 2 ^ 8
low8 (negsuc n) = 255 - n % 2 ^ 8

-- static_cast<int8_t>
abbrev pub int8 : ℤ → ℤ
int8 z = if ltb (low8 z) 128 then pos (low8 z) else negsuc (255 - low8 z)

-- static_cast<int> and static_cast<pid_t> of a uint32_t
unfoldable pub int32 : ℕ → ℤ
int32 n = if ltb (n % 2 ^ 32) (2 ^ 31) then pos (n % 2 ^ 32) else negsuc (2 ^ 32 - 1 - n % 2 ^ 32)

-- static_cast<size_t> of a negative value wraps round
abbrev pub size_of_int : ℤ → ℕ
size_of_int (pos n) = n
size_of_int (negsuc n) = 2 ^ 64 - 1 - n

-- ++ on a uint32_t
unfoldable pub inc32 : ℕ → ℕ
inc32 n = (n + 1) % 2 ^ 32
