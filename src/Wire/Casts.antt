-- ===== src/Wire/Casts.antt =====
-- The casts off and onto the wire.
use mathlib.Core.List.{append-nil, append_assoc, map}
use service_recovery_schedul.Base.{
  ℕ, ◌<◌, ◌≡◌, refl, ◌∙◌, String, List, [], ◌∷◌, ◌++◌, arith, length,
}
use native.Mathlib.Nat.{mod-eq_of_lt}
use service_recovery_schedul.States.{RecoveryState, to_u8}
use service_recovery_schedul.States.Codes.{IsState, of_u8-to_u8}
use service_recovery_schedul.Wire.{from_wire, translate, notify_state_changed}

translate-append :
    (actions : List RecoveryState) (wire : List ℕ)
    → translate actions wire ≡ actions ++ map from_wire wire
unfolding translate
translate-append actions [] = simp append-nil
translate-append actions (w ∷ rest) =
    translate-append (actions ++ from_wire w ∷ []) rest
    ∙ append_assoc actions (from_wire w ∷ []) (map from_wire rest)

pub translate-map : (wire : List ℕ) → translate [] wire ≡ map from_wire wire
translate-map wire = translate-append [] wire

pub length-translate : (wire : List ℕ) → length (translate [] wire) ≡ length wire
length-translate wire = rw (translate-map wire) (go wire)
  where
    go : (w : List ℕ) → length (map from_wire w) ≡ length w
    go [] = refl
    go (x ∷ w) = omega (arith, go w)

state_bound : (s : RecoveryState) → IsState s → to_u8 s < 256
unfolding to_u8
state_bound RecoveryState.restart h = omega arith
state_bound s h = ground arith

from_wire-to_u8 : (s : RecoveryState) → IsState s → from_wire (to_u8 s) ≡ s
unfolding from_wire
from_wire-to_u8 s h = rw (mod-eq_of_lt (state_bound s h)) (of_u8-to_u8 s h)

abbrev pub AllStates : List RecoveryState → Type 0
AllStates [] = Unit
AllStates (s ∷ rest) = IsState s × AllStates rest

translated :
    (policy : List RecoveryState) → AllStates policy → map from_wire (map to_u8 policy) ≡ policy
translated [] h = refl
translated (s ∷ rest) h = cc (from_wire-to_u8 s h.0, translated rest h.1)

-- A policy that a client sends by its states' values arrives as it was sent, in its order, and the
-- event that broadcasts a state names the service and carries a value that reads back as this state.
pub translate-to_u8 :
    (policy : List RecoveryState) (name : String) (s : RecoveryState)
    → AllStates policy
    → IsState s
    → (translate [] (map to_u8 policy) ≡ policy)
      × ((notify_state_changed name s).0 ≡ name)
      × (from_wire (notify_state_changed name s).1 ≡ s)
unfolding notify_state_changed
translate-to_u8 policy name s h k =
    (translate-map (map to_u8 policy) ∙ translated policy h, refl, from_wire-to_u8 s k)
