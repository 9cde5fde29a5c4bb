-- ===== src/States/Codes.antt =====
-- The uint8_t values and the texts of RecoveryState tell the states apart.
use service_recovery_schedul.Base.{◌<◌, ◌≡◌, refl, String, arith, str_eq, ap, if◌then◌else◌, ℕ}
use service_recovery_schedul.States.{
  RecoveryState, restart, stop, disable, crashed, unknown, unnamed, to_u8, of_u8, to_string,
}

-- a value that the enumeration type has: an enumerator, or a byte between them
abbrev pub IsState : RecoveryState → Type 0
IsState (unnamed n) = (3 < n) × (n < 255)
IsState _ = Unit

-- a value with a name
abbrev pub IsNamed : RecoveryState → Type 0
IsNamed (unnamed n) = ⊥
IsNamed _ = Unit

-- Every state of the type comes back from its uint8_t value.
pub of_u8-to_u8 : (s : RecoveryState) → IsState s → of_u8 (to_u8 s) ≡ s
unfolding of_u8 to_u8
of_u8-to_u8 restart h = ground arith
of_u8-to_u8 s h = ground arith

-- Every byte, whatever the sender put there, casts to a state of the type that has this byte as its
-- value.
pub of_u8_total : (n : ℕ) → n < 256 → IsState (of_u8 n) × (to_u8 (of_u8 n) ≡ n)
unfolding of_u8 to_u8
of_u8_total n h = ground arith

-- the named state that a text names
of_string : String → RecoveryState
of_string t =
    if str_eq t "RESTART"
    then restart
    else if str_eq t "STOP"
    then stop
    else if str_eq t "DISABLE"
    then disable
    else if str_eq t "CRASHED"
    then crashed
    else unknown

of_string-to_string : (s : RecoveryState) → IsNamed s → of_string (to_string s) ≡ s
unfolding of_string to_string
of_string-to_string restart h = refl
of_string-to_string stop h = refl
of_string-to_string disable h = refl
of_string-to_string crashed h = refl
of_string-to_string unknown h = refl
of_string-to_string (unnamed n) h = absurd h

-- Two enumerators of RecoveryState that are rendered as the same text are the same enumerator.
pub to_string-injective :
    (s t : RecoveryState) → IsNamed s → IsNamed t → to_string s ≡ to_string t → s ≡ t
to_string-injective s t hs ht e =
    cc (ap of_string e, of_string-to_string s hs, of_string-to_string t ht)
