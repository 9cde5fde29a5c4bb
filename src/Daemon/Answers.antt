-- ===== src/Daemon/Answers.antt =====
-- The replies to the calls off the bus, as a function of the calls and the registered names alone.
use mathlib.Core.Path.{fun_ext}
use service_recovery_schedul.Base.{
  ◌≡◌, refl, sym, ap, ◌∙◌, inl, inr, String, Bool, true, false, Option, none, some, List, [], ◌∷◌,
  str_eq, eq_iff, if◌then◌else◌, Bool-cases,
}
use service_recovery_schedul.Base.Int.{ℤ}
use service_recovery_schedul.States.{RecoveryState}
use service_recovery_schedul.Scheduler.Spec.{
  Entry, Services, at, is_listed, is_registered, register_entry, report_entry, fail_entry,
}
use service_recovery_schedul.Wire.{
  translate, from_wire, RegisterResult, UnregisterResult, QueryResult,
}
use service_recovery_schedul.Daemon.{
  Call, Reply, registers, unregisters, reports, owner_changed, registered, unregistered, reported,
  silent,
}
use service_recovery_schedul.Daemon.Contract
use service_recovery_schedul.Daemon.Contract.{Board, Handles, Serves, accepts}

-- the registered names
abbrev pub Names : Type 0
Names = String → Bool

abbrev pub admits : String → Names → Bool
admits name names = if names name then true else is_listed name

abbrev pub answer : Call → Names → Reply
answer (registers client name actions interval) names =
    registered (if admits name names then RegisterResult.ok else RegisterResult.invalid_name)
answer (unregisters client name) names =
    unregistered (if names name then UnregisterResult.ok else UnregisterResult.not_found)
answer (reports client name current last) names =
    reported (if names name then QueryResult.ok else QueryResult.not_found)
answer (owner_changed bus old_owner new_owner) names = silent

-- the registered names after a call
abbrev pub remaining : Call → Names → Names
remaining (registers client name actions interval) names =
    λ j. if str_eq name j then admits name names else names j
remaining (unregisters client name) names = λ j. if str_eq name j then false else names j
remaining _ names = names

abbrev pub answers : List Call → Names → List Reply
answers [] names = []
answers (call ∷ rest) names = answer call names ∷ answers rest (remaining call names)

abbrev pub names_of : Services → Names
names_of s name = is_registered (s name)

is_registered-register_entry :
    (listed : Bool) (actions : List RecoveryState) (interval : ℤ) (e : Option Entry)
    → is_registered (register_entry listed actions interval e)
      ≡ (if is_registered e then true else listed)
is_registered-register_entry true actions interval none = refl
is_registered-register_entry false actions interval none = refl
is_registered-register_entry listed actions interval (some e) = refl

is_registered-report_entry :
    (current last : RecoveryState) (e : Option Entry)
    → is_registered (report_entry current last e) ≡ is_registered e
is_registered-report_entry current last none = refl
is_registered-report_entry current last (some e) = refl

is_registered-fail_entry : (e : Option Entry) → is_registered (fail_entry e) ≡ is_registered e
is_registered-fail_entry none = refl
is_registered-fail_entry (some e) = refl

-- the registered names after a write, where `b` tells whether the written entry is one
names_of-at :
    (name : String) (e : Option Entry) (b : Bool) (s : Services)
    → is_registered e ≡ b
    → names_of (at name e s) ≡ (λ j. if str_eq name j then b else names_of s j)
names_of-at name e b s h =
    fun_ext (λ j. elim (Bool-cases (str_eq name j)) [ inl t ↦ rw t h | inr f ↦ rw f refl ])

-- a name that is written as it was
same_names :
    (name : String) (b : Bool) (names : Names)
    → names name ≡ b
    → (λ j. if str_eq name j then b else names j) ≡ names
same_names name b names h = fun_ext (λ j. elim (Bool-cases (str_eq name j)) [
  | inl t ↦ rw t (sym h ∙ ap names ((eq_iff name j).0 t))
  | inr f ↦ rw f refl
])

unchanged :
    (name : String) (e : Option Entry) (s : Services)
    → is_registered e ≡ is_registered (s name)
    → names_of (at name e s) ≡ names_of s
unchanged name e s h =
    names_of-at name e (is_registered (s name)) s h
    ∙ same_names name (is_registered (s name)) (names_of s) refl

unregistered_name :
    (name : String) (s : Services) → admits name (names_of s) ≡ false → names_of s name ≡ false
unregistered_name name s h = elim (Bool-cases (is_registered (s name))) [
  | inl t ↦ absurd (let q : true ≡ false = rw t at h in cc)
  | inr f ↦ f
]

Handles-answer :
    {a b : Board} {call : Call} {reply : Reply}
    → Handles a call reply b
    → (reply ≡ answer call (names_of a.services))
      × (names_of b.services ≡ remaining call (names_of a.services))
Handles-answer {a} (Contract.accepted client name actions interval h) = (
  rw h refl,
  names_of-at name _ _ a.services (
      is_registered-register_entry (is_listed name) (translate [] actions) interval
        (a.services name)),
)
Handles-answer {a} (Contract.refused client name actions interval h) = (
  rw h refl,
  sym (
      ap (λ (b : Bool). λ (j : String). if str_eq name j then b else names_of a.services j) h
      ∙ same_names name false (names_of a.services) (unregistered_name name a.services h)),
)
Handles-answer {a} (Contract.removed client name h) =
    (rw h refl, names_of-at name none false a.services refl)
Handles-answer {a} (Contract.not_removed client name h) =
    (rw h refl, sym (same_names name false (names_of a.services) h))
Handles-answer {a} (Contract.stored client name current last h) = (
  rw h refl,
  unchanged name _ a.services
      (is_registered-report_entry (from_wire current) (from_wire last) (a.services name)),
)
Handles-answer {a} (Contract.not_stored client name current last h) = (rw h refl, refl)
Handles-answer {a} (Contract.still_owned bus old_owner new_owner h) = (refl, refl)
Handles-answer {a} (Contract.stranger bus old_owner h) = (refl, refl)
Handles-answer {a} (Contract.failed bus old_owner service h) =
    (refl, unchanged service _ a.services (is_registered-fail_entry (a.services service)))

pub Serves-answers :
    {calls : List Call} {a b : Board} {replies : List Reply}
    → Serves calls a replies b
    → replies ≡ answers calls (names_of a.services)
Serves-answers Contract.done = refl
Serves-answers (Contract.next {call} one more) =
    let (e, n) = Handles-answer one in rw (e, Serves-answers more, n) refl
