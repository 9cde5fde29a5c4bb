-- ===== src/Threads/Safety.antt =====
-- In the interleavings in which no service is unregistered between a thread's lookup of it and its
-- write, an interrupted registration is a whole one.
use service_recovery_schedul.Base.{
  ℕ, ◌≡◌, refl, ap, ◌⊎◌, inl, inr, String, true, List, [], ok, Option-cases,
}
use service_recovery_schedul.Base.Int.{ℤ, minus_one}
use service_recovery_schedul.Base.Map.{lookup}
use service_recovery_schedul.States.{RecoveryState}
use service_recovery_schedul.Service.{new_info}
use service_recovery_schedul.Scheduler.{on_register_service}
use service_recovery_schedul.Threads.{
  Shared, Local, idle, returned, adding, renewing, finish_register,
}
use service_recovery_schedul.Threads.Presence.{Present, emplace_there}
use service_recovery_schedul.Threads.Steps.{IsFree}
use service_recovery_schedul.Threads.Holding.{Holds, renewed, finish_renewing}

-- What the locked part does, for a thread that is in a call of onRegisterService: it answers true,
-- and does what the whole call does at this moment, or nothing where another thread has registered
-- the name since the lookup.
abbrev pub Finishes : Local → Shared → Type 0
Finishes l sh =
    (sh' : Shared) × (finish_register l sh ≡ ok (returned true, sh'))
    × (name : String) × (actions : List RecoveryState) × (interval : ℤ) × ((l
          ≡ adding name (new_info name actions interval))
        ⊎ ((birth : ℕ) × (l ≡ renewing name birth)))
    × (((pid : ℤ)
          → on_register_service name actions interval pid sh.registry ≡ (true, sh'.registry))
        ⊎ ((l ≡ adding name (new_info name actions interval))
            × Present name sh.registry
            × (sh' ≡ sh)))

pub Holds-Finishes : (l : Local) (sh : Shared) → ¬ IsFree l → Holds l sh → Finishes l sh
unfolding finish_register on_register_service
Holds-Finishes idle sh n h = absurd (n tt)
Holds-Finishes (returned b) sh n h = absurd (n tt)
Holds-Finishes (renewing name birth) sh n ((info, p), e) = (
  renewed name info sh,
  finish_renewing name birth info sh p e,
  name,
  [],
  minus_one,
  inr (birth, refl),
  inl (λ pid. rw (p, on_register_service) refl),
)
Holds-Finishes (adding name info) sh n (actions, interval, e, l) =
    elim (Option-cases (lookup name sh.registry)) [
      | inl f ↦ (
        _,
        refl,
        name,
        actions,
        interval,
        inl (ap (adding name) e),
        inl (λ pid. rw (f, on_register_service, l, e) refl),
      )
      | inr (x, f) ↦ (
        sh,
        rw (emplace_there name info sh.registry x f, f) refl,
        name,
        actions,
        interval,
        inl (ap (adding name) e),
        inr (ap (adding name) e, (x, f), refl),
      )
    ]
