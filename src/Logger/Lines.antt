-- ===== src/Logger/Lines.antt =====
-- What a record of the log is: how many lines it takes, and how its numbers read.
use Prim.Native.Char.{Char, code}
use Prim.Native.String.{[], ◌∷◌, ◌++◌}
use text.Mathlib.TextLemmas.{cons-append, nil-append}
use service_recovery_schedul.Base.{
  ℕ, zero, suc, ◌+◌, ◌-◌, ◌*◌, ◌/◌, ◌%◌, ◌<◌, ◌≤◌, ◌≡◌, refl, ◌∙◌, ap, inl, inr, String, Bool, true,
  false, Option, none, some, arith, ltb, Bool-cases, if◌then◌else◌,
}
use service_recovery_schedul.Base.Int.{ℤ, pos, negsuc}
use service_recovery_schedul.Console.Input.{is_digit, is_newline, has_digit, read_digits}
use service_recovery_schedul.Logger.{
  LogLevel, Logger, Moment, trace, debug, info, warn, error, fatal, severity, level_text, symbol,
  color, or_text, time_text, write, log,
}
use service_recovery_schedul.Logger.Text.{
  digit, digits, decimal, decimal_ℤ, size, fill, set_right, set_left,
}

abbrev pub newlines : String → ℕ
newlines [] = 0
newlines (c ∷ s) = (if is_newline c then 1 else 0) + newlines s

pub newlines-append : (s t : String) → newlines (s ++ t) ≡ newlines s + newlines t
newlines-append [] t = rw (nil-append t) (omega arith)
newlines-append (c ∷ s) t = rw (cons-append c s t) (omega (arith, newlines-append s t))

code-digit : (n : ℕ) → n < 10 → code (digit n) ≡ 48 + n
unfolding digit
code-digit zero h = refl
code-digit (suc zero) h = refl
code-digit (suc (suc zero)) h = refl
code-digit (suc (suc (suc zero))) h = refl
code-digit (suc (suc (suc (suc zero)))) h = refl
code-digit (suc (suc (suc (suc (suc zero))))) h = refl
code-digit (suc (suc (suc (suc (suc (suc zero)))))) h = refl
code-digit (suc (suc (suc (suc (suc (suc (suc zero))))))) h = refl
code-digit (suc (suc (suc (suc (suc (suc (suc (suc zero)))))))) h = refl
code-digit (suc (suc (suc (suc (suc (suc (suc (suc (suc zero))))))))) h = refl
code-digit (suc (suc (suc (suc (suc (suc (suc (suc (suc (suc n)))))))))) h = absurd (omega arith)

newlines-fill :
    (n : ℕ) (c : Char) (s : String) → is_newline c ≡ false → newlines (fill n c s) ≡ newlines s
unfolding fill
newlines-fill zero c s h = refl
newlines-fill (suc n) c s h = rw h (omega (arith, newlines-fill n c s h))

newlines-digits : (f n : ℕ) (after : String) → newlines (digits f n after) ≡ newlines after
unfolding digits
newlines-digits zero n after = refl
newlines-digits (suc f) n after = elim (Bool-cases (ltb n 10)) [
  | inl t ↦ rw t (let e = code-digit n (ground arith) in ground (arith, e))
  | inr g ↦
      let e = code-digit (n % 10) (omega arith) in
      rw g (newlines-digits f (n / 10) (digit (n % 10) ∷ after) ∙ ground (arith, e))
]

digits-append :
    (f n : ℕ) (after rest : String) → digits f n after ++ rest ≡ digits f n (after ++ rest)
unfolding digits
digits-append zero n after rest = refl
digits-append (suc f) n after rest = elim (Bool-cases (ltb n 10)) [
  | inl t ↦ rw t (cons-append (digit n) after rest)
  | inr g ↦ rw g (
      digits-append f (n / 10) (digit (n % 10) ∷ after) rest
      ∙ ap (digits f (n / 10)) (cons-append (digit (n % 10)) after rest))
]

read_digit :
    (acc n : ℕ) (rest : String)
    → n < 10
    → read_digits acc (digit n ∷ rest) ≡ read_digits (acc * 10 + n) rest
unfolding read_digits
read_digit acc n rest h =
    let e = code-digit n h in
    let t : is_digit (digit n) ≡ true = ground (arith, e) in
    rw t (ap (λ (k : ℕ). read_digits k rest) (omega (arith, e)))

read_digits-digits :
    (f n : ℕ) (after : String) → n < f → read_digits 0 (digits f n after) ≡ read_digits n after
unfolding digits
read_digits-digits zero n after h = absurd (omega arith)
read_digits-digits (suc f) n after h = elim (Bool-cases (ltb n 10)) [
  | inl t ↦
      rw t (read_digit 0 n after (ground arith) ∙ ap (λ (k : ℕ). read_digits k after) (omega arith))
  | inr g ↦ rw g (
      read_digits-digits f (n / 10) (digit (n % 10) ∷ after) (ground arith)
      ∙ read_digit (n / 10) (n % 10) after (omega arith)
      ∙ ap (λ (k : ℕ). read_digits k after) (omega arith))
]

stop_reading : (n : ℕ) (rest : String) → has_digit rest ≡ false → read_digits n rest ≡ (n, rest)
unfolding read_digits has_digit
stop_reading n [] h = refl
stop_reading n (c ∷ s) h = rw h refl

-- A number that the logger prints is read back from the text by the console's reading of digits, with
-- whatever comes after it, as long as that does not begin with a digit.
pub read_digits-decimal :
    (n : ℕ) (rest : String) → has_digit rest ≡ false → read_digits 0 (decimal n ++ rest) ≡ (n, rest)
unfolding decimal
read_digits-decimal n rest h =
    ap (read_digits 0) (digits-append (suc n) n [] rest ∙ ap (digits (suc n) n) (nil-append rest))
    ∙ read_digits-digits (suc n) n rest (omega arith)
    ∙ stop_reading n rest h

newlines-decimal : (n : ℕ) → newlines (decimal n) ≡ 0
unfolding decimal
newlines-decimal n = newlines-digits (suc n) n []

pub newlines-decimal_ℤ : (n : ℤ) → newlines (decimal_ℤ n) ≡ 0
unfolding decimal_ℤ
newlines-decimal_ℤ (pos n) = newlines-decimal n
newlines-decimal_ℤ (negsuc n) = omega (arith, newlines-decimal (suc n))

newlines-number :
    (width n : ℕ) (c : Char) → is_newline c ≡ false → newlines (set_right width c (decimal n)) ≡ 0
unfolding set_right
newlines-number width n c h =
    newlines-fill (width - size (decimal n)) c (decimal n) h ∙ newlines-decimal n

newlines-set_left : (width : ℕ) (s : String) → newlines (set_left width s) ≡ newlines s
unfolding set_left
newlines-set_left width s =
    let e = newlines-fill (width - size s) " " [] refl in
    omega (arith, newlines-append s (fill (width - size s) " " []))

plain_level :
    (level : LogLevel)
    → (newlines (level_text level) ≡ 0)
      × (newlines (symbol level) ≡ 0)
      × (newlines (color level) ≡ 0)
unfolding level_text symbol color
plain_level trace = (refl, refl, refl)
plain_level debug = (refl, refl, refl)
plain_level info = (refl, refl, refl)
plain_level warn = (refl, refl, refl)
plain_level error = (refl, refl, refl)
plain_level fatal = (refl, refl, refl)

-- a text with no line end, or a null pointer
abbrev pub OneLine : Option String → Type 0
OneLine none = Unit
OneLine (some s) = newlines s ≡ 0

newlines-or_text :
    (default : String) (s : Option String)
    → newlines default ≡ 0
    → OneLine s
    → newlines (or_text default s) ≡ 0
newlines-or_text default none h k = h
newlines-or_text default (some s) h k = k

newlines-if : (b : Bool) (s : String) → newlines s ≡ 0 → newlines (if b then s else "") ≡ 0
newlines-if true s h = h
newlines-if false s h = refl

module _ (logger : Logger) (now : Moment) (level : LogLevel) (apid ctid func : Option String)
    (line : ℤ) (a : OneLine apid) (c : OneLine ctid) (f : OneLine func) where
  pub newlines-write :
      (message : String)
      → newlines (write logger now level apid ctid func line message) ≡ suc (newlines message)
  unfolding write time_text
  newlines-write message =
      let (t, y, k) = plain_level level in
      simp
        (
          newlines-append,
          newlines-set_left,
          newlines-number,
          newlines-decimal,
          newlines-decimal_ℤ line,
          newlines-or_text "    " apid refl a,
          newlines-or_text "    " ctid refl c,
          newlines-or_text "?" func refl f,
          newlines-if logger.use_color (color level) k,
          newlines-if logger.use_color "\u{1b}[0m" refl,
          t,
          y,
        )
        (omega arith)

  -- A LOG_ statement whose ids and function name hold no line end prints nothing where its level is below
  -- the threshold, and does not run the effects of its message either. Otherwise it runs them and
  -- prints one text, which takes one line more than the message has line ends: it is a single line only
  -- if the message is.
  pub log-newlines :
      {S : Type 0} (expr : S → String × S) (s : S)
      → (severity level < severity logger.threshold
          → log logger now level apid ctid func line expr s ≡ (none, s))
        × (severity logger.threshold ≤ severity level
            → (text : String) × (log logger now level apid ctid func line expr s
                ≡ (some text, (expr s).1))
              × (newlines text ≡ suc (newlines (expr s).0)))
  unfolding log
  log-newlines expr s = (
    (λ h. ground arith),
    (λ h. (
      write logger now level apid ctid func line (expr s).0,
      ground arith,
      newlines-write (expr s).0,
    )),
  )
