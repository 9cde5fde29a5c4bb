-- ===== src/Threads/Calm.antt =====
-- The invariant of the interleavings in which no service is unregistered between a thread's lookup of
-- it and its write.
use service_recovery_schedul.Base.{
  set, ℕ, ◌≢◌, refl, sym, ap, inl, inr, String, ◌==◌, Option-cases, Bool-cases,
}
use service_recovery_schedul.Base.Map.{Iteration, lookup}
use service_recovery_schedul.Service.{ServiceRecoveryInfo}
use service_recovery_schedul.Scheduler.{Registry, on_unregister_service}
use service_recovery_schedul.Scheduler.Registry.{IsRegistry, unregister_lem}
use service_recovery_schedul.Scheduler.Isolation.{names_erase}
use service_recovery_schedul.Threads.{
  Shared, Local, idle, returned, adding, renewing, begin_register,
}
use service_recovery_schedul.Threads.Presence.{
  Writes, Writes-IsRegistry, Writes-Present, report-Writes, failure-Writes, unregister-Present,
}
use service_recovery_schedul.Threads.Steps.{
  System, with_registry, Step, begins, finishes, unregisters, reports, fails, Reach, here, later,
  start,
}
use service_recovery_schedul.Threads.Holding.{
  Holds, IsStep, Holds-Grows, begin-Holds, unmoved, finish-IsStep,
}

pub record IsCalm (s : System) : Type 0 where
  pub form : IsRegistry s.shared.registry
  pub holds : (i : ℕ) → Holds (s.thread i) s.shared

-- no thread has an iterator of the name's element
abbrev pub NotHeld : System → String → Type 0
NotHeld s name = (i birth : ℕ) → s.thread i ≢ renewing name birth

-- Steps keep the state calm.
module _ {s : System} (c : IsCalm s) where
  moved :
      (i : ℕ) (l : Local) (sh : Shared)
      → IsStep s.shared sh l
      → IsCalm (record { shared = sh; thread = set s.thread i l })
  moved i l sh v = record {
    form = v.form;
    holds = λ j. elim (Bool-cases (i == j)) [
      | inl t ↦ rw t v.leaves
      | inr f ↦ rw f (Holds-Grows (s.thread j) v.grows (c.holds j))
    ];
  }

  wrote-IsCalm :
      (name : String) (m : Registry) → Writes name s.shared.registry m → IsCalm (with_registry s m)
  wrote-IsCalm name m w = record {
    form = Writes-IsRegistry w c.form;
    holds = λ j.
        Holds-Grows (s.thread j) (record { kept = λ k p. (Writes-Present w k p, refl) })
          (c.holds j);
  }

  unregistered-Holds :
      (order : Iteration ServiceRecoveryInfo) (name : String) (l : Local)
      → ((birth : ℕ) → l ≢ renewing name birth)
      → Holds l s.shared
      → Holds l (with_registry s (on_unregister_service order name s.shared.registry).1).shared
  unregistered-Holds order name (renewing k birth) n (p, e) = (
    unregister-Present order name k s.shared.registry c.form
        (λ q. n birth (ap (λ (x : String). renewing x birth) (sym q))) p,
    e,
  )
  unregistered-Holds order name (adding k info) n h = h
  unregistered-Holds order name idle n h = tt
  unregistered-Holds order name (returned b) n h = tt

pub unregister-IsRegistry :
    (order : Iteration ServiceRecoveryInfo) (name : String) (m : Registry)
    → IsRegistry m
    → IsRegistry (on_unregister_service order name m).1
unregister-IsRegistry order name m v = elim (Option-cases (lookup name m)) [
  | inl e ↦ rw (unregister_lem order name m v, e) v
  | inr (info, e) ↦ rw (unregister_lem order name m v, e) (names_erase name m v)
]

module _ (order : Iteration ServiceRecoveryInfo) where
  Step-IsCalm : {s t : System} → Step order NotHeld s t → IsCalm s → IsCalm t
  Step-IsCalm {s} (begins i name actions interval free) c =
      moved c i (begin_register name actions interval s.shared) s.shared (
        unmoved s.shared (begin_register name actions interval s.shared) c.form
          (begin-Holds name actions interval s.shared))
  Step-IsCalm {s} (finishes i l sh h) c =
      moved c i l sh (finish-IsStep (s.thread i) l s.shared sh c.form (c.holds i) h)
  Step-IsCalm {s} (unregisters name n) c = record {
    form = unregister-IsRegistry order name s.shared.registry c.form;
    holds = λ j. unregistered-Holds c order name (s.thread j) (n j) (c.holds j);
  }
  Step-IsCalm {s} (reports name current last) c =
      wrote-IsCalm c name _ (report-Writes name current last s.shared.registry c.form)
  Step-IsCalm {s} (fails name m h) c =
      wrote-IsCalm c name m (failure-Writes order name s.shared.registry m c.form h)

  pub Reach-IsCalm : {s t : System} → Reach order NotHeld s t → IsCalm s → IsCalm t
  Reach-IsCalm here c = c
  Reach-IsCalm (later r st) c = Step-IsCalm st (Reach-IsCalm r c)

  pub start-IsCalm : IsCalm start
  unfolding lookup
  start-IsCalm = record {
    form = record { unique = tt; own_names = λ name info h. absurd (cc) };
    holds = λ i. tt;
  }
