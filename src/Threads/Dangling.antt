-- ===== src/Threads/Dangling.antt =====
-- Interleavings in which a service is unregistered while a thread holds an iterator of its element.
use service_recovery_schedul.Base.{
  set, ℕ, ◌≡◌, sym, ap, ◌∙◌, inl, inr, String, arith, ok, undefined, ◌==◌, Bool-cases,
}
use service_recovery_schedul.Base.Map.{Iteration, lookup}
use service_recovery_schedul.Service.{ServiceRecoveryInfo}
use service_recovery_schedul.Scheduler.{on_unregister_service}
use service_recovery_schedul.Scheduler.Registry.{IsRegistry}
use service_recovery_schedul.Threads.{Shared, Local, renewing, finish_register}
use service_recovery_schedul.Threads.Presence.{report-Writes, failure-Writes, unregister-absent}
use service_recovery_schedul.Threads.Steps.{
  System, with_registry, Step, begins, finishes, unregisters, reports, fails, Reach, here, later,
  start,
}
use service_recovery_schedul.Threads.Aging.{
  Gone, Made, Ages, Made-Ages, unaged, begin-Made, Gone-undefined, Writes-Ages, unregister-Ages,
  finish-Ages,
}

-- Thread `i` holds an iterator of an element that is gone.
record IsDangling (i : ℕ) (name : String) (birth : ℕ) (s : System) : Type 0 where
  form : IsRegistry s.shared.registry
  made : (j : ℕ) → Made (s.thread j) s.shared
  held : s.thread i ≡ renewing name birth
  gone : Gone name birth s.shared

record IsSound (s : System) : Type 0 where
  form : IsRegistry s.shared.registry
  made : (j : ℕ) → Made (s.thread j) s.shared

set-Made :
    (threads : ℕ → Local) (k : ℕ) (l : Local) {sh sh' : Shared}
    → ((j : ℕ) → Made (threads j) sh)
    → Ages sh sh'
    → Made l sh'
    → (j : ℕ) → Made (set threads k l j) sh'
set-Made threads k l h a m j = elim (Bool-cases (k == j)) [
  | inl t ↦ rw t m
  | inr f ↦ rw f (Made-Ages (threads j) a (h j))
]

-- every unregistration there is
abbrev pub Anything : System → String → Type 0
Anything s name = Unit

module _ (order : Iteration ServiceRecoveryInfo) where
  -- a step, seen from the memory and from thread `i`
  record IsMove (s t : System) : Type 0 where
    ages : Ages s.shared t.shared
    made : (j : ℕ) → Made (t.thread j) t.shared
    waits :
        (i : ℕ) (name : String) (birth : ℕ)
        → s.thread i ≡ renewing name birth
        → Gone name birth s.shared
        → t.thread i ≡ renewing name birth

  Step-IsMove : {s t : System} → Step order Anything s t → IsSound s → IsMove s t
  Step-IsMove {s} (begins k name actions interval free) c = record {
    ages = unaged s.shared c.form;
    made =
        set-Made s.thread k _ c.made (unaged s.shared c.form)
          (begin-Made name actions interval s.shared);
    waits = λ i n b e g. elim (Bool-cases (k == i)) [
      | inl t ↦ absurd (let q : k ≡ i = ground arith in rw (q, e) at free)
      | inr f ↦ rw f e
    ];
  }
  Step-IsMove {s} (finishes k l sh h) c =
      let (ages, made) = finish-Ages (s.thread k) l s.shared sh c.form (c.made k) h in
      record {
        ages = ages;
        made = set-Made s.thread k l c.made ages made;
        waits = λ i n b e g. elim (Bool-cases (k == i)) [
          | inl t ↦
              let q : k ≡ i = ground arith in
              let r : undefined ≡ ok (l, sh) =
                sym (Gone-undefined n b s.shared g)
                ∙ ap (λ x. finish_register x s.shared) (sym e ∙ ap s.thread (sym q))
                ∙ h in
              absurd (cc)
          | inr f ↦ rw f e
        ];
      }
  Step-IsMove {s} (unregisters name n) c = record {
    ages = unregister-Ages order name s.shared c.form;
    made = λ j. Made-Ages (s.thread j) (unregister-Ages order name s.shared c.form) (c.made j);
    waits = λ i n b e g. e;
  }
  Step-IsMove {s} (reports name current last) c = record {
    ages = Writes-Ages s.shared c.form (report-Writes name current last s.shared.registry c.form);
    made = λ j.
        Made-Ages (s.thread j)
          (Writes-Ages s.shared c.form (report-Writes name current last s.shared.registry c.form))
          (c.made j);
    waits = λ i n b e g. e;
  }
  Step-IsMove {s} (fails name m h) c = record {
    ages = Writes-Ages s.shared c.form (failure-Writes order name s.shared.registry m c.form h);
    made = λ j.
        Made-Ages (s.thread j)
          (Writes-Ages s.shared c.form (failure-Writes order name s.shared.registry m c.form h))
          (c.made j);
    waits = λ i n b e g. e;
  }

  Reach-IsSound : {s t : System} → Reach order Anything s t → IsSound s → IsSound t
  Reach-IsSound here c = c
  Reach-IsSound (later r st) c =
      let v = Step-IsMove st (Reach-IsSound r c) in record { form = v.ages.form; made = v.made }

  Reach-IsDangling :
      (i : ℕ) (name : String) (birth : ℕ) {s t : System}
      → Reach order Anything s t
      → IsDangling i name birth s
      → IsDangling i name birth t
  Reach-IsDangling i name birth here c = c
  Reach-IsDangling i name birth (later r st) c =
      let c' = Reach-IsDangling i name birth r c in
      let v = Step-IsMove st (record { form = c'.form; made = c'.made }) in
      record {
        form = v.ages.form;
        made = v.made;
        held = v.waits i name birth c'.held c'.gone;
        gone = v.ages.gone name birth c'.gone;
      }

  start-IsSound : IsSound start
  unfolding lookup
  start-IsSound = record {
    form = record { unique = tt; own_names = λ name info h. absurd (cc) };
    made = λ j. tt;
  }

  -- A thread that has found a service in onRegisterService and waits for the lock is not safe from an
  -- unregistration of the service: in every interleaving that unregisters it then, whatever
  -- else happens and even where the name is registered anew, the thread stays where it is until its
  -- write, and this write goes through a dangling iterator, which is undefined behaviour.
  pub finish_register-undefined :
      (i : ℕ) (name : String) (birth : ℕ) (s t : System)
      → Reach order Anything start s
      → s.thread i ≡ renewing name birth
      → Reach order Anything
          (with_registry s (on_unregister_service order name s.shared.registry).1)
          t
      → (t.thread i ≡ renewing name birth) × (finish_register (t.thread i) t.shared ≡ undefined)
  finish_register-undefined i name birth s t r e r' =
      let c = Reach-IsSound r start-IsSound in
      let u = unregister-Ages order name s.shared c.form in
      let d = Reach-IsDangling i name birth r' (record {
        form = u.form;
        made = λ j. Made-Ages (s.thread j) u (c.made j);
        held = e;
        gone = inl (unregister-absent order name s.shared.registry c.form, rw e at (c.made i));
      }) in
      (d.held, rw d.held (Gone-undefined name birth t.shared d.gone))
