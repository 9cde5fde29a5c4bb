-- ===== src/Threads/Holding.antt =====
-- What a thread in onRegisterService may rely on, and that the locked part of its call keeps it.
use service_recovery_schedul.Base.{
  ℕ, ◌≡◌, refl, sym, ap, ◌∙◌, inl, inr, String, true, false, none, some, List, arith, Outcome, ok,
  ◌==◌, eq_iff, str_eq, Option-cases, Bool-cases,
}
use service_recovery_schedul.Base.Int.{ℤ}
use service_recovery_schedul.Base.Map.{lookup, update, emplace}
use service_recovery_schedul.States.{RecoveryState}
use service_recovery_schedul.Catalogue.{service_names, scan_names}
use service_recovery_schedul.Service.{ServiceRecoveryInfo, new_info}
use service_recovery_schedul.Scheduler.Registry.{IsRegistry}
use service_recovery_schedul.Scheduler.Isolation.{names_update, names_emplace, new_name}
use service_recovery_schedul.Threads.{
  Shared, Local, idle, returned, adding, renewing, born, begin_register, finish_register,
}
use service_recovery_schedul.Threads.Presence.{Present, Grows, update-Present, emplace-Present}

-- what a thread may rely on
abbrev pub Holds : Local → Shared → Type 0
Holds (renewing name birth) sh = Present name sh.registry × (sh.births name ≡ birth)
Holds (adding name info) sh =
    (actions : List RecoveryState) × (interval : ℤ) × (info ≡ new_info name actions interval)
    × (scan_names name false service_names ≡ true)
Holds _ sh = Unit

pub Holds-Grows : (l : Local) {sh sh' : Shared} → Grows sh sh' → Holds l sh → Holds l sh'
Holds-Grows (renewing name birth) g (p, e) = let (p', e') = g.kept name p in (p', e' ∙ e)
Holds-Grows (adding name info) g h = h
Holds-Grows idle g h = tt
Holds-Grows (returned b) g h = tt

pub begin-Holds :
    (name : String) (actions : List RecoveryState) (interval : ℤ) (sh : Shared)
    → Holds (begin_register name actions interval sh) sh
unfolding begin_register
begin-Holds name actions interval sh = elim (Option-cases (lookup name sh.registry)) [
  | inl e ↦ elim (Bool-cases (scan_names name false service_names)) [
    | inl l ↦ rw (e, begin_register, l) (actions, interval, refl, l)
    | inr l ↦ rw (e, begin_register, l) tt
  ]
  | inr (info, e) ↦ rw (e, begin_register) ((info, e), refl)
]

-- the part of a step that is under the lock: the form is kept, elements stay, and the thread may rely
-- on what it is left with
pub record IsStep (sh sh' : Shared) (l : Local) : Type 0 where
  pub form : IsRegistry sh'.registry
  pub grows : Grows sh sh'
  pub leaves : Holds l sh'

add-Grows :
    (name : String) (info : ServiceRecoveryInfo) (sh : Shared)
    → Grows sh (record {
      registry = emplace name info sh.registry;
      births = born name (lookup name sh.registry) sh.births;
    })
add-Grows name info sh = record {
  kept = λ j p. (
    emplace-Present name j info sh.registry p,
    elim (Option-cases (lookup name sh.registry)) [
      | inr (x, e) ↦ rw (e, born) refl
      | inl e ↦ elim (Bool-cases (str_eq name j)) [
        | inr f ↦ rw (e, born, f) refl
        | inl t ↦
            let q : none ≡ some p.0 =
              sym e ∙ ap (λ (k : String). lookup k sh.registry) ((eq_iff name j).0 t) ∙ p.1 in
            absurd (cc)
      ]
    ],
  );
}

update-Grows :
    (name : String) (info : ServiceRecoveryInfo) (sh : Shared)
    → Grows sh (record sh { registry = update name info sh.registry })
update-Grows name info sh = record {
  kept = λ j p. (update-Present name j info sh.registry p, refl);
}

-- the thread's write through an iterator whose element is there
abbrev pub renewed : String → ServiceRecoveryInfo → Shared → Shared
renewed name info sh = record sh {
  registry = update name (record info { is_online = true }) sh.registry;
}

pub finish_renewing :
    (name : String) (birth : ℕ) (info : ServiceRecoveryInfo) (sh : Shared)
    → lookup name sh.registry ≡ some info
    → sh.births name ≡ birth
    → finish_register (renewing name birth) sh ≡ ok (returned true, renewed name info sh)
unfolding finish_register
finish_renewing name birth info sh p e =
    let t : (sh.births name == birth) ≡ true = ground arith in rw (p, finish_register, t) refl

pub of_result :
    (sh x sh' : Shared) (l l' : Local)
    → IsStep sh x l
    → ◌≡◌ {A = Outcome (Local × Shared)} (ok (l, x)) (ok (l', sh'))
    → IsStep sh sh' l'
of_result sh x sh' l l' v h = let q : x ≡ sh' = cc in let r : l ≡ l' = cc in rw (← q, ← r) v

pub unmoved : (sh : Shared) (l : Local) → IsRegistry sh.registry → Holds l sh → IsStep sh sh l
unmoved sh l v k = record { form = v; grows = record { kept = λ j p. (p, refl) }; leaves = k }

pub finish-IsStep :
    (l l' : Local) (sh sh' : Shared)
    → IsRegistry sh.registry
    → Holds l sh
    → finish_register l sh ≡ ok (l', sh')
    → IsStep sh sh' l'
unfolding finish_register
finish-IsStep (adding name info) l' sh sh' v (actions, interval, e, _) h =
    let own : info.service_name ≡ name = rw e (new_name name actions interval) in
    of_result sh _ sh' (returned true) l'
      (record {
        form = names_emplace name info sh.registry v own;
        grows = add-Grows name info sh;
        leaves = tt;
      })
      h
finish-IsStep (renewing name birth) l' sh sh' v ((info, p), e) h =
    of_result sh (renewed name info sh) sh' (returned true) l'
      (record {
        form =
            names_update name (record info { is_online = true }) sh.registry v
              (v.own_names name info p);
        grows = update-Grows name (record info { is_online = true }) sh;
        leaves = tt;
      })
      (sym (finish_renewing name birth info sh p e) ∙ h)
finish-IsStep idle l' sh sh' v k h = of_result sh sh sh' idle l' (unmoved sh idle v tt) h
finish-IsStep (returned b) l' sh sh' v k h =
    of_result sh sh sh' (returned b) l' (unmoved sh (returned b) v tt) h
