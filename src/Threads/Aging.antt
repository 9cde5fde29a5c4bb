-- ===== src/Threads/Aging.antt =====
-- What no step undoes: an element that is gone stays gone, and new ones are numbered on.
use service_recovery_schedul.Base.{
  ℕ, ◌≤◌, ◌<◌, ◌≡◌, refl, ◌⊎◌, inl, inr, String, true, false, none, List, arith, Outcome, ok,
  undefined, ◌==◌, str_eq, Option-cases, Bool-cases,
}
use service_recovery_schedul.Base.Int.{ℤ}
use service_recovery_schedul.Base.Map.{Iteration, lookup, emplace, lookup-emplace, lookup-erase}
use service_recovery_schedul.States.{RecoveryState}
use service_recovery_schedul.Catalogue.{service_names, scan_names}
use service_recovery_schedul.Service.{ServiceRecoveryInfo}
use service_recovery_schedul.Scheduler.{Registry, on_unregister_service}
use service_recovery_schedul.Scheduler.Registry.{IsRegistry, unregister_lem}
use service_recovery_schedul.Scheduler.Isolation.{names_emplace, new_name}
use service_recovery_schedul.Threads.{
  Shared, Local, idle, returned, adding, renewing, born, begin_register, finish_register,
}
use service_recovery_schedul.Threads.Presence.{
  Writes, wrote, Writes-IsRegistry, Writes-absent, emplace_there,
}
use service_recovery_schedul.Threads.Holding.{renewed}
use service_recovery_schedul.Threads.Calm.{unregister-IsRegistry}

-- A record that is to be added has the name that it is added under, and an iterator's element has
-- been made.
abbrev pub Made : Local → Shared → Type 0
Made (adding name info) sh = info.service_name ≡ name
Made (renewing name birth) sh = birth ≤ sh.births name
Made _ sh = Unit

-- The element with this birth is not in the map any more.
abbrev pub Gone : String → ℕ → Shared → Type 0
Gone name birth sh =
    ((lookup name sh.registry ≡ none) × (birth ≤ sh.births name)) ⊎ (birth < sh.births name)

-- Elements that are gone stay gone.
pub record Ages (sh sh' : Shared) : Type 0 where
  pub form : IsRegistry sh'.registry
  pub gone : (name : String) (birth : ℕ) → Gone name birth sh → Gone name birth sh'
  pub older : (name : String) → sh.births name ≤ sh'.births name

pub Made-Ages : (l : Local) {sh sh' : Shared} → Ages sh sh' → Made l sh → Made l sh'
Made-Ages idle a h = tt
Made-Ages (returned b) a h = tt
Made-Ages (adding name info) a h = h
Made-Ages (renewing name birth) a h = omega (arith, a.older name)

pub unaged : (sh : Shared) → IsRegistry sh.registry → Ages sh sh
unaged sh v = record { form = v; gone = λ j b g. g; older = λ j. omega arith }

pub begin-Made :
    (name : String) (actions : List RecoveryState) (interval : ℤ) (sh : Shared)
    → Made (begin_register name actions interval sh) sh
unfolding begin_register
begin-Made name actions interval sh = elim (Option-cases (lookup name sh.registry)) [
  | inl e ↦ elim (Bool-cases (scan_names name false service_names)) [
    | inl l ↦ rw (e, begin_register, l) (new_name name actions interval)
    | inr l ↦ rw (e, begin_register, l) tt
  ]
  | inr (info, e) ↦ rw (e, begin_register) (omega arith)
]

pub Gone-undefined :
    (name : String) (birth : ℕ) (sh : Shared)
    → Gone name birth sh
    → finish_register (renewing name birth) sh ≡ undefined
unfolding finish_register
Gone-undefined name birth sh g = elim (Option-cases (lookup name sh.registry)) [
  | inl e ↦ rw (e, finish_register) refl
  | inr (info, e) ↦
      let t : (sh.births name == birth) ≡ false = ground (arith, e) in
      rw (e, finish_register, t) refl
]

pub Writes-Ages :
    {name : String} {m : Registry} (sh : Shared)
    → IsRegistry sh.registry
    → Writes name sh.registry m
    → Ages sh (record sh { registry = m })
Writes-Ages {name} {m} sh v w = record {
  form = Writes-IsRegistry w v;
  gone = λ j birth g. elim g [ inl (e, l) ↦ inl (Writes-absent w j e, l) | inr l ↦ inr l ];
  older = λ j. omega arith;
}

pub unregister-Ages :
    (order : Iteration ServiceRecoveryInfo) (name : String) (sh : Shared)
    → IsRegistry sh.registry
    → Ages sh (record sh { registry = (on_unregister_service order name sh.registry).1 })
unregister-Ages order name sh v = record {
  form = unregister-IsRegistry order name sh.registry v;
  gone = λ j birth g. elim (Option-cases (lookup name sh.registry)) [
    | inl e ↦ rw (unregister_lem order name sh.registry v, e) g
    | inr (info, e) ↦
        rw (unregister_lem order name sh.registry v, e)
          (elim g [
            | inl (a, l) ↦ inl (ground (arith, lookup-erase name j sh.registry v.unique), l)
            | inr l ↦ inr l
          ])
  ];
  older = λ j. omega arith;
}

add-Ages :
    (name : String) (info : ServiceRecoveryInfo) (sh : Shared)
    → IsRegistry sh.registry
    → info.service_name ≡ name
    → Ages sh (record {
      registry = emplace name info sh.registry;
      births = born name (lookup name sh.registry) sh.births;
    })
add-Ages name info sh v own = record {
  form = names_emplace name info sh.registry v own;
  gone = λ j birth g. elim (Option-cases (lookup name sh.registry)) [
    | inl e ↦ elim (Bool-cases (str_eq name j)) [
      | inl t ↦ inr (rw (e, born, t) (ground (arith, g)))
      | inr f ↦ elim g [
        | inl (a, l) ↦
            inl (ground (arith, lookup-emplace name j info sh.registry), rw (e, born, f) l)
        | inr l ↦ inr (rw (e, born, f) l)
      ]
    ]
    | inr (x, e) ↦ rw (emplace_there name info sh.registry x e, e, born) g
  ];
  older = λ j. elim (Option-cases (lookup name sh.registry)) [
    | inl e ↦ rw (e, born) (ground arith)
    | inr (x, e) ↦ rw (e, born) (omega arith)
  ];
}

moved_to :
    (sh x sh' : Shared) (l l' : Local)
    → Ages sh x × Made l x
    → ◌≡◌ {A = Outcome (Local × Shared)} (ok (l, x)) (ok (l', sh'))
    → Ages sh sh' × Made l' sh'
moved_to sh x sh' l l' v h = let q : x ≡ sh' = cc in let r : l ≡ l' = cc in rw (← q, ← r) v

pub finish-Ages :
    (l l' : Local) (sh sh' : Shared)
    → IsRegistry sh.registry
    → Made l sh
    → finish_register l sh ≡ ok (l', sh')
    → Ages sh sh' × Made l' sh'
unfolding finish_register
finish-Ages idle l' sh sh' v k h = moved_to sh sh sh' idle l' (unaged sh v, tt) h
finish-Ages (returned b) l' sh sh' v k h = moved_to sh sh sh' (returned b) l' (unaged sh v, tt) h
finish-Ages (adding name info) l' sh sh' v k h =
    moved_to sh _ sh' (returned true) l' (add-Ages name info sh v k, tt) h
finish-Ages (renewing name birth) l' sh sh' v k h = elim (Option-cases (lookup name sh.registry)) [
  | inl e ↦
      let q : ◌≡◌ {A = Outcome (Local × Shared)} undefined (ok (l', sh')) =
        rw (finish_register, e) at h in
      absurd (cc)
  | inr (info, e) ↦ elim (Bool-cases (sh.births name == birth)) [
    | inr f ↦
        let q : ◌≡◌ {A = Outcome (Local × Shared)} undefined (ok (l', sh')) =
          rw (finish_register, e, f) at h in
        absurd (cc)
    | inl t ↦
        moved_to sh (renewed name info sh) sh' (returned true) l'
          (
            Writes-Ages sh v
                (wrote (record info { is_online = true }) (v.own_names name info e) refl),
            tt,
          )
          (rw (finish_register, e, t) at h)
  ]
]
