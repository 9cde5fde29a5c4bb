-- ===== src/Console/Progress.antt =====
-- The console loop comes to an end: an iteration that goes on has read something or met the end.
use Prim.Native.Char.{code}
use Prim.Native.String.{[] as nil, ◌∷◌ as ◌▸◌}
use service_recovery_schedul.Base.{
  ℕ, zero, suc, ◌+◌, ◌-◌, ◌*◌, ◌≤◌, ◌<◌, ◌≡◌, ◌⊎◌, refl, inl, inr, String, true, false, none, some,
  List, [], ◌∷◌, ◌++◌, arith, ◌||◌, Bool-cases, Option-cases, if◌then◌else◌,
}
use service_recovery_schedul.Base.Int.{ℤ, pos, eq_ℤ}
use service_recovery_schedul.Console.Input.{
  Stdin, skip_spaces, read_sign, has_digit, read_digits, read_number, read_int, clear, take_line,
  ignore_line, get_line, is_newline, is_empty,
}
use service_recovery_schedul.Console.{
  Event, Ending, Turn, stops, goes, rejects, exit_requested, stdin_closed, chosen, turn,
  console_loop, queries_of,
}

abbrev pub size : String → ℕ
size nil = 0
size (c ▸ s) = suc (size s)

-- the characters to be read, and the end to be met
abbrev pub left_over : Stdin → ℕ
left_over s = 2 * size s.rest + (if s.eof then 0 else 1)

size-skip_spaces : (s : String) → size (skip_spaces s) ≤ size s
unfolding skip_spaces
size-skip_spaces nil = omega arith
size-skip_spaces (c ▸ s) = ground (arith, size-skip_spaces s)

size-read_sign : (s : String) → size (read_sign s).1 ≤ size s
unfolding read_sign
size-read_sign nil = omega arith
size-read_sign (c ▸ s) = ground arith

size-read_digits : (n : ℕ) (s : String) → size (read_digits n s).1 ≤ size s
unfolding read_digits
size-read_digits n nil = omega arith
size-read_digits n (c ▸ s) =
    let rest = size-read_digits (n * 10 + (code c - 48)) s in ground (arith, rest)

size-digit : (s : String) → has_digit s ≡ true → size (read_digits 0 s).1 < size s
unfolding read_digits has_digit
size-digit nil h = absurd (cc)
size-digit (c ▸ s) h = let rest = size-read_digits (0 + (code c - 48)) s in ground (arith, rest)

-- a line is shorter with its end, and a line without an end takes all
take_line-shrinks :
    (s : String)
    → 2 * size (take_line s).1.1 + (if (take_line s).1.0 then 0 else 1) < 2 * size s + 1
unfolding take_line
take_line-shrinks nil = omega arith
take_line-shrinks (c ▸ s) = elim (Bool-cases (is_newline c)) [
  | inl t ↦ rw t (omega arith)
  | inr f ↦ rw f (omega (arith, take_line-shrinks s))
]

left_over-ignore_line : (s : Stdin) → left_over (ignore_line s) ≤ 2 * size s.rest + 1
unfolding ignore_line
left_over-ignore_line s = elim (Bool-cases (s.eof || s.failed)) [
  | inl t ↦ rw t (ground arith)
  | inr f ↦ rw f (let h = take_line-shrinks s.rest in omega arith)
]

left_over-clear : (s : Stdin) → left_over (ignore_line (clear s)) < 2 * size s.rest + 1
unfolding ignore_line clear
left_over-clear s = take_line-shrinks s.rest

left_over-get_line : (s : Stdin) → left_over (get_line s).1 ≤ left_over s
unfolding get_line
left_over-get_line s = let h = take_line-shrinks s.rest in ground (arith, h)

size-read_number : (s : String) → size (read_number s).1.rest ≤ size s
unfolding read_number
size-read_number s =
    let h = size-read_sign s in let k = size-read_digits 0 (read_sign s).1 in omega arith

size-number :
    (s : String) (i : ℤ) → (read_number s).0 ≡ some i → size (read_number s).1.rest < size s
unfolding read_number
size-number s i h = elim (Bool-cases (has_digit (read_sign s).1)) [
  | inl t ↦ let a = size-read_sign s in let b = size-digit (read_sign s).1 t in omega arith
  | inr f ↦ absurd (let q : none ≡ some i = rw f at h in cc)
]

read_int-some :
    (s : Stdin) (i : ℤ) → (read_int s).0 ≡ some i → 2 * size (read_int s).1.rest + 1 < left_over s
unfolding read_int
read_int-some s i h = elim (Bool-cases (s.eof || s.failed)) [
  | inl t ↦ absurd (let q : none ≡ some i = rw t at h in cc)
  | inr f ↦ elim (Bool-cases (is_empty (skip_spaces s.rest))) [
    | inl e ↦ absurd (let q : none ≡ some i = rw (f, e) at h in cc)
    | inr e ↦
        let k : (read_number (skip_spaces s.rest)).0 ≡ some i = rw (f, e) at h in
        let a = size-number (skip_spaces s.rest) i k in
        let b = size-skip_spaces s.rest in rw (f, e) (ground (arith, a, b, f))
  ]
]

-- where the read fails before the end of the input
read_int-none :
    (s : Stdin) → (read_int s).1.eof ≡ false → 2 * size (read_int s).1.rest + 1 ≤ left_over s
unfolding read_int
read_int-none s h = elim (Bool-cases (s.eof || s.failed)) [
  | inl t ↦ let k : s.eof ≡ false = rw t at h in rw (t, k) (omega arith)
  | inr f ↦ elim (Bool-cases (is_empty (skip_spaces s.rest))) [
    | inl e ↦ absurd (let q : true ≡ false = rw (f, e) at h in cc)
    | inr e ↦
        let a = size-read_number (skip_spaces s.rest) in
        let b = size-skip_spaces s.rest in rw (f, e) (ground (arith, a, b, f))
  ]
]

Turn-cases :
    (t : Turn)
    → ((ending : Ending) × (t ≡ stops ending))
      ⊎ ((events : List Event) × (s : Stdin) × (t ≡ goes events s))
Turn-cases (stops ending) = inl (ending, refl)
Turn-cases (goes events s) = inr (events, s, refl)

chosen-shrinks :
    (input : ℤ) (s s' : Stdin) (events : List Event)
    → chosen input s ≡ goes events s'
    → left_over s' ≤ left_over s
unfolding chosen
chosen-shrinks input s s' events h = elim (Bool-cases (eq_ℤ input (pos 0))) [
  | inl t ↦ absurd (let q : stops exit_requested ≡ goes events s' = rw t at h in cc)
  | inr f ↦ elim (Bool-cases (eq_ℤ input (pos 1))) [
    | inr g ↦
        let q : goes (rejects input ∷ []) s ≡ goes events s' = rw (f, g) at h in
        let r : s ≡ s' = cc in rw r (omega arith)
    | inl g ↦ elim (Option-cases (get_line s).0) [
      | inl e ↦
          let q : goes [] (get_line s).1 ≡ goes events s' = rw (f, g, e) at h in
          let r : (get_line s).1 ≡ s' = cc in rw (← r) (left_over-get_line s)
      | inr (name, e) ↦
          let q : goes (queries_of name) (get_line s).1 ≡ goes events s' = rw (f, g, e) at h in
          let r : (get_line s).1 ≡ s' = cc in rw (← r) (left_over-get_line s)
    ]
  ]
]

turn-shrinks :
    (s s' : Stdin) (events : List Event) → turn s ≡ goes events s' → left_over s' < left_over s
unfolding turn
turn-shrinks s s' events h = elim (Option-cases (read_int s).0) [
  | inl e ↦ elim (Bool-cases (read_int s).1.eof) [
    | inl t ↦ absurd (let q : stops stdin_closed ≡ goes events s' = rw (turn, e, t) at h in cc)
    | inr f ↦
        let q : goes [] (ignore_line (clear (read_int s).1)) ≡ goes events s' =
          rw (turn, e, f) at h in
        let r : ignore_line (clear (read_int s).1) ≡ s' = cc in
        let a = left_over-clear (read_int s).1 in
        let b = read_int-none s f in rw (← r) (omega arith)
  ]
  | inr (i, e) ↦
      let q : chosen i (ignore_line (read_int s).1) ≡ goes events s' = rw (turn, e) at h in
      let a = chosen-shrinks i (ignore_line (read_int s).1) s' events q in
      let b = left_over-ignore_line (read_int s).1 in let c = read_int-some s i e in omega arith
]

loop-ends :
    (n : ℕ) (s : Stdin)
    → left_over s < n
    → (events : List Event) × (ending : Ending) × (console_loop n s ≡ some (events, ending))
unfolding console_loop
loop-ends zero s h = absurd (omega arith)
loop-ends (suc n) s h = elim (Turn-cases (turn s)) [
  | inl (ending, e) ↦ ([], ending, rw (console_loop, e) refl)
  | inr (events, s', e) ↦
      let (rest, ending, k) = loop-ends n s' (let d = turn-shrinks s s' events e in omega arith) in
      (events ++ rest, ending, rw (console_loop, e, k) refl)
]

-- more iterations change no result
loop-more :
    (n k : ℕ) (s : Stdin) (r : List Event × Ending)
    → n ≤ k
    → console_loop n s ≡ some r
    → console_loop k s ≡ some r
unfolding console_loop
loop-more zero k s r h e = absurd (cc)
loop-more (suc n) zero s r h e = absurd (omega arith)
loop-more (suc n) (suc k) s r h e = elim (Turn-cases (turn s)) [
  | inl (ending, t) ↦
      let q : some ([], ending) ≡ some r = rw (console_loop, t) at e in rw (console_loop, t) q
  | inr (events, s', t) ↦ elim (Option-cases (console_loop n s')) [
    | inl f ↦ absurd (let q : none ≡ some r = rw (console_loop, t, f) at e in cc)
    | inr (x, f) ↦
        let q : some (events ++ x.0, x.1) ≡ some r = rw (console_loop, t, f) at e in
        let more = loop-more n k s' x (omega arith) f in rw (console_loop, t, more) q
  ]
]

-- On every input the console loop comes to an end, with events and a reason that do not depend on
-- how many iterations it may make: one more than the characters that are left, counted twice, and
-- one for an end of the input that is still to be met, are always enough.
pub console_loop-ends :
    (s : Stdin)
    → (events : List Event) × (ending : Ending) × ((n : ℕ)
        → left_over s < n
        → console_loop n s ≡ some (events, ending))
console_loop-ends s =
    let (events, ending, e) = loop-ends (suc (left_over s)) s (omega arith) in
    (events, ending, λ n h. loop-more (suc (left_over s)) n s (events, ending) (omega arith) e)
