-- ===== src/Service/Cursor.antt =====
-- The arithmetic of the int8_t cursor.
use native.Mathlib.Nat.{mod-lt}
use service_recovery_schedul.Base.{
  ℕ, zero, suc, ◌%◌, ◌^◌, ◌≤◌, ◌<◌, ◌≡◌, ◌⊎◌, arith, ◌==◌, if◌then◌else◌, mod_step,
}
use service_recovery_schedul.Base.Int.{ℤ, pos, negsuc, minus_one}
use service_recovery_schedul.Service.{next_cursor, peek_cursor}

-- How many actions the cursor goes through before it starts again, for a policy of `n` actions:
-- the size as the comparison in int8_t sees it.
abbrev pub period : ℕ → ℕ
period n = n % 2 ^ 8

-- the sizes at which the comparison can hold
abbrev pub Cycles : ℕ → Type 0
Cycles n = (0 < period n) × (period n ≤ 128)

-- the cursor after `k` failures
abbrev pub cursor_after : ℕ → ℕ → ℤ
cursor_after n zero = minus_one
cursor_after n (suc k) = pos (k % period n)

pub next_cursor-pos :
    (n i : ℕ)
    → Cycles n
    → i < period n
    → next_cursor n (pos i) ≡ (if suc i == period n then pos 0 else pos (suc i))
unfolding next_cursor
next_cursor-pos n i c h = ground arith

pub next_cursor-cursor_after :
    (n k : ℕ) → Cycles n → next_cursor n (cursor_after n k) ≡ cursor_after n (suc k)
unfolding next_cursor
next_cursor-cursor_after n zero c = ground arith
next_cursor-cursor_after n (suc k) c =
    ground
      (arith, next_cursor-pos n (k % period n) c, mod-lt k {m = period n}, mod_step k (period n))

-- Where the size fits an int8_t, the peek looks at the action of the next failure.
pub peek_cursor-cursor_after :
    (n k : ℕ) → Cycles n → period n < 128 → peek_cursor n (cursor_after n k) ≡ pos (k % period n)
unfolding peek_cursor
peek_cursor-cursor_after n zero c h = ground arith
peek_cursor-cursor_after n (suc k) c h =
    ground (arith, mod-lt k {m = period n}, mod_step k (period n))

-- Where it is negative there, the peek looks at the first action whatever the cursor is.
pub peek_cursor-big : (n k : ℕ) → 128 ≤ period n → peek_cursor n (pos k) ≡ pos 0
unfolding peek_cursor
peek_cursor-big n k h = ground arith

-- Where the comparison cannot hold, the cursor climbs to the end of int8_t.
pub next_cursor-climbs :
    (n i : ℕ) → (period n ≡ 0) ⊎ (128 < period n) → i < 127 → next_cursor n (pos i) ≡ pos (suc i)
unfolding next_cursor
next_cursor-climbs n i c h = ground arith

pub next_cursor-first :
    (n : ℕ) → (period n ≡ 0) ⊎ (128 < period n) → next_cursor n minus_one ≡ pos 0
unfolding next_cursor
next_cursor-first n c = ground arith

pub next_cursor-wraps :
    (n : ℕ) → (period n ≡ 0) ⊎ (128 < period n) → next_cursor n (pos 127) ≡ negsuc 127
unfolding next_cursor
next_cursor-wraps n c = ground arith

pub Cycles-cases : (n : ℕ) → Cycles n ⊎ ((period n ≡ 0) ⊎ (128 < period n))
Cycles-cases n = omega arith
