-- ===== src/Threads/Late.antt =====
-- Two registrations of one name, and a failure between their locked parts.
use service_recovery_schedul.Base.{
  set, ◌≤◌, ◌≡◌, refl, ◌∙◌, String, true, false, none, some, List, [], ok, length, bind-ok, eq_refl,
}
use service_recovery_schedul.Base.Int.{ℤ}
use service_recovery_schedul.Base.Map.{Iteration, lookup, update, emplace, lookup-update}
use service_recovery_schedul.States.{RecoveryState}
use service_recovery_schedul.Service.{ServiceRecoveryInfo, new_info}
use service_recovery_schedul.Scheduler.{Registry, on_register_service, on_service_failure}
use service_recovery_schedul.Scheduler.Spec.{
  Entry, Services, no_services, registered, at, fail_entry, is_listed, realise,
}
use service_recovery_schedul.Scheduler.Refinement.{
  Refines, failed_entry, new_info-realise, requested-Small, emplaced, present,
}
use service_recovery_schedul.Scheduler.Implements.{empty-Refines, failure-Does}
use service_recovery_schedul.Threads.{
  Shared, returned, adding, born, begin_register, finish_register,
}
use service_recovery_schedul.Threads.Presence.{emplace_there}
use service_recovery_schedul.Threads.Steps.{
  System, with_registry, begins, finishes, fails, Reach, here, later, start,
}
use service_recovery_schedul.Threads.Calm.{NotHeld}

begin_listed :
    (name : String) (actions : List RecoveryState) (interval : ℤ)
    → is_listed name ≡ true
    → begin_register name actions interval start.shared
      ≡ adding name (new_info name actions interval)
unfolding begin_register lookup is_listed
begin_listed name actions interval l = rw (l, begin_register) refl

module _ (order : Iteration ServiceRecoveryInfo) (name : String) (first second : List RecoveryState)
    (interval : ℤ) (listed : is_listed name ≡ true) (fits : length first ≤ 127) where
  -- both threads have looked the name up
  abbrev pub looked_up : System
  looked_up = record start {
    thread =
        set (set start.thread 0 (begin_register name second interval start.shared)) 1
          (begin_register name first interval start.shared);
  }

  looked_up-Reach : Reach order NotHeld start looked_up
  looked_up-Reach =
      later (later here (begins 0 name second interval tt)) (begins 1 name first interval tt)

  abbrev one : Registry
  one = emplace name (realise name (registered first interval)) []

  abbrev one_service : Services
  one_service = at name (some (registered first interval)) no_services

  one-Refines : Refines one one_service
  one-Refines =
      emplaced (empty-Refines order) name (registered first interval) refl
        (requested-Small first fits)

  -- thread 1 has added the service
  abbrev added : System
  added = record {
    shared = record { registry = one; births = born name none start.shared.births };
    thread = set looked_up.thread 1 (returned true);
  }

  first_adds :
      finish_register (looked_up.thread 1) looked_up.shared ≡ ok (returned true, added.shared)
  unfolding finish_register lookup
  first_adds =
      rw (begin_listed name first interval listed, new_info-realise name first interval) refl

  added-Reach : Reach order NotHeld start added
  added-Reach = later looked_up-Reach (finishes 1 (returned true) added.shared first_adds)

  abbrev crashed_entry : Entry
  crashed_entry = failed_entry (registered first interval)

  abbrev crashed_service : Services
  crashed_service = at name (fail_entry (one_service name)) one_service

  crashed_there : crashed_service name ≡ some crashed_entry
  crashed_there = rw (eq_refl name) refl

  -- thread 0 adds the service that is there and has failed
  late_nothing :
      (m : Registry)
      → Refines m crashed_service
      → finish_register (added.thread 0) (with_registry added m).shared
        ≡ ok (returned true, (with_registry added m).shared)
  unfolding finish_register
  late_nothing m r =
      let p = present r name crashed_entry crashed_there in
      rw (begin_listed name second interval listed) (
        rw (emplace_there name (new_info name second interval) m (realise name crashed_entry) p, p)
          refl)

  -- the failure between the two locked parts
  failure : (m : Registry) × (on_service_failure order name one ≡ ok m) × Refines m crashed_service
  failure =
      let (m, go, r) = failure-Does one-Refines order name in
      let (m', f, g) = bind-ok (on_service_failure order name one) (λ m'. ok (true, m')) go in
      let q : m' ≡ m = cc in (m', f, rw q r)

  -- a whole registration after the failure brings the service online
  whole_call :
      (m : Registry)
      → Refines m crashed_service
      → (pid : ℤ)
      → (m' : Registry) × (info : ServiceRecoveryInfo) × (on_register_service name second interval
            pid m
          ≡ (true, m'))
        × (lookup name m' ≡ some info)
        × (info.is_online ≡ true)
  unfolding on_register_service
  whole_call m r pid =
      let p = present r name crashed_entry crashed_there in
      let back : ServiceRecoveryInfo = record (realise name crashed_entry) { is_online = true } in
      (
        update name back m,
        back,
        rw (p, on_register_service) refl,
        lookup-update name name back m ∙ rw (eq_refl name, p) refl,
        refl,
      )

  -- For any listed name, one interval and any policies, the first of at most 127 actions: two threads
  -- look the name up in the empty registry; thread 1 takes the lock and adds the service; the service fails; and
  -- then thread 0 takes the lock, in the state that the failure has left. Both answer true. What
  -- thread 0 does changes nothing, so the service, failed once, is still offline, although that
  -- registration was completed after the failure; a whole onRegisterService call in its place would
  -- have answered true and brought the service online. The state is reached with no service ever
  -- unregistered under a thread that holds it.
  pub finish_register-late :
      (pid : ℤ)
      → (sh : Shared) × (m : Registry) × (s : Services) × (e : Entry) × (m' : Registry)
        × (info : ServiceRecoveryInfo) × Reach order NotHeld start looked_up
        × (finish_register (looked_up.thread 1) looked_up.shared ≡ ok (returned true, sh))
        × (on_service_failure order name sh.registry ≡ ok m)
        × (finish_register (looked_up.thread 0) (record sh { registry = m })
            ≡ ok (returned true, record sh { registry = m }))
        × Reach order NotHeld start (record {
          shared = record sh { registry = m };
          thread = set (set looked_up.thread 1 (returned true)) 0 (returned true);
        })
        × Refines m s
        × (s name ≡ some e)
        × (e.failures ≡ 1)
        × (e.is_online ≡ false)
        × (on_register_service name second interval pid m ≡ (true, m'))
        × (lookup name m' ≡ some info)
        × (info.is_online ≡ true)
  finish_register-late pid =
      let (m, f, r) = failure in
      let (m', info, go, l, on) = whole_call m r pid in
      (
        added.shared,
        m,
        crashed_service,
        crashed_entry,
        m',
        info,
        looked_up-Reach,
        first_adds,
        f,
        late_nothing m r,
        later (later added-Reach (fails name m f))
            (finishes 0 (returned true) (with_registry added m).shared (late_nothing m r)),
        r,
        crashed_there,
        refl,
        refl,
        go,
        l,
        on,
      )
