-- ===== src/Scheduler/View.antt =====
-- The registry as its lookups show it: the order in which the hash table has its elements, and visits
-- them, is forgotten by a quotient.
use mathlib.Core.Quot
use mathlib.Core.Quot.{Quot}
use service_recovery_schedul.Base.{
  ◌≡◌, refl, sym, ap, ◌∙◌, inl, inr, Bool, List, [], ◌∷◌, Outcome, ok, undefined, ◌>>=◌,
}
use service_recovery_schedul.Base.Map.{Iteration}
use service_recovery_schedul.Service.{ServiceRecoveryInfo}
use service_recovery_schedul.Scheduler.{Registry}
use service_recovery_schedul.Scheduler.Registry.{IsRegistry}
use service_recovery_schedul.Scheduler.Requests.{Request, run}
use service_recovery_schedul.Scheduler.Isolation.{step-others}
use service_recovery_schedul.Scheduler.Alike.{Same, step-Alike}

abbrev pub View : Type 0
View = Quot Same

-- a run's result, with the registry as a view
abbrev pub viewed {ℓ} : {A : Type ℓ} → Outcome (A × Registry) → Outcome (A × View)
viewed undefined = undefined
viewed (ok (a, m)) = ok (a, Quot.mk m)

-- a reply in front of a result
abbrev put : Bool → Outcome (List Bool × View) → Outcome (List Bool × View)
put b undefined = undefined
put b (ok (l, x)) = ok (b ∷ l, x)

viewed-put :
    (b : Bool) (o : Outcome (List Bool × Registry))
    → viewed (o >>= λ q. ok (b ∷ q.0, q.1)) ≡ put b (viewed o)
viewed-put b undefined = refl
viewed-put b (ok p) = refl

-- a reply in front of equal results
viewed_cons :
    (b : Bool) (o o' : Outcome (List Bool × Registry))
    → viewed o ≡ viewed o'
    → viewed (o >>= λ q. ok (b ∷ q.0, q.1)) ≡ viewed (o' >>= λ q. ok (b ∷ q.0, q.1))
viewed_cons b o o' h = viewed-put b o ∙ ap (put b) h ∙ sym (viewed-put b o')

module _ (order order' : Iteration ServiceRecoveryInfo) where
  -- Two registries of the right form whose lookups agree cannot be told apart: any sequence of
  -- requests, with the map visited in any order in the one run and in any other order in the other, is
  -- undefined on both, or gives the same replies and two registries that are one element of the
  -- quotient by equal lookups.
  pub run-viewed :
      (qs : List Request) (m m' : Registry)
      → IsRegistry m
      → IsRegistry m'
      → Same m m'
      → viewed (run order qs m) ≡ viewed (run order' qs m')
  unfolding run
  run-viewed [] m m' v v' h = ap (λ (x : View). ok ([], x)) (Quot.sound h)
  run-viewed (q ∷ rest) m m' v v' h = elim (step-Alike order order' q m m' v v' h) [
    | inl (e, e') ↦ rw (e, e') refl
    | inr (b, x, x', e, e', h') ↦
        let w = (step-others order q m x b v e).0 in
        let w' = (step-others order' q m' x' b v' e').0 in
        rw (e, e')
          (viewed_cons b (run order rest x) (run order' rest x') (run-viewed rest x x' w w' h'))
  ]
