-- ===== src/Handlers/Finishing.antt =====
-- A handler that finishes while no other handler is about its service.
use service_recovery_schedul.Base.{ℕ, set, ◌≡◌, ◌≢◌, refl, ap, ◌∙◌, inl, String, true, ok, bind-ok}
use service_recovery_schedul.Base.Int.{ℤ}
use service_recovery_schedul.Base.Map
use service_recovery_schedul.Base.Map.{
  Map, Iteration, Unique, lookup, erase, lookup-erase, lookup-assign, assign,
}
use service_recovery_schedul.Service.{ServiceRecoveryInfo}
use service_recovery_schedul.Scheduler.{Registry, on_service_failure}
use service_recovery_schedul.Scheduler.Spec.{Services, at, fail_entry, is_listed}
use service_recovery_schedul.Scheduler.Refinement.{Refines}
use service_recovery_schedul.Scheduler.Implements.{failure-Does}
use service_recovery_schedul.Wire.{RegisterResult, UnregisterResult}
use service_recovery_schedul.Stub.{Stub, drop_peer, record_peer}
use service_recovery_schedul.Stub.Methods.{drive_recovery_lem}
use service_recovery_schedul.Daemon.{Reply, System, registered, unregistered, silent}
use service_recovery_schedul.Daemon.Invariant.{IsWired, listed-at}
use service_recovery_schedul.Daemon.Registration.{recorded-IsWired, recorded-Unique}
use service_recovery_schedul.Daemon.Calls.{dropped-IsWired}
use service_recovery_schedul.Daemon.Loss.{not-empty}
use service_recovery_schedul.Handlers.{Work, answered, recording, erasing, driving, finish_call}
use service_recovery_schedul.Handlers.Steps.{Process, Busy}
use service_recovery_schedul.Handlers.Writes.{
  at-OnlyAt, erase-OnlyAt, erase-gone, record_peer-others,
}
use service_recovery_schedul.Handlers.Overlap.{Online, IsOverlap, Pending, moved-IsOverlap, idled}

-- The scheduler is called for a lost peer.
pub finish_driving :
    {Connection Token : Type 0} (order : Iteration ServiceRecoveryInfo)
    (stub : Stub Registry Connection Token) (m : Registry) (s : Services) (name : String)
    → IsWired order stub
    → Refines m s
    → is_listed name ≡ true
    → (m' : Registry) × (finish_call (driving name) (stub, m) ≡ ok (silent, (stub, m')))
      × Refines m' (at name (fail_entry (s name)) s)
unfolding finish_call
finish_driving order stub m s name w r listed =
    let (m', go, r') = failure-Does r order name in
    let (m'', f, g) = bind-ok (on_service_failure order name m) (λ y. ok (true, y)) go in
    let failure : on_service_failure order name m ≡ ok m' = f ∙ ap ok (cc) in
    let drives =
      drive_recovery_lem (on_service_failure order) name stub m (not-empty name listed) w.fails in
    (m', rw (drives, failure) refl, r')

-- the services after the rest of a handler
abbrev pub worked : Work → Services → Services
worked (driving name) s = at name (fail_entry (s name)) s
worked w s = s

module _ {Connection Token : Type 0} (order : Iteration ServiceRecoveryInfo)
    (p : Process Connection Token) (s : Services) (v : IsOverlap order p s) (i : ℕ) where
  -- The thread's work is done, and the invariant holds after it.
  abbrev pub Done : Work → Type 0
  Done w =
      (reply : Reply) × (sys : System Connection Token) × (finish_call w p.system ≡ ok (reply, sys))
      × IsOverlap order (record { system = sys; thread = set p.thread i (answered reply) })
          (worked w s)

  -- no other thread is about this one's service
  lonely :
      (w : Work) (name : String)
      → p.thread i ≡ w
      → Busy name w
      → (j : ℕ) → i ≢ j
      → ¬ Busy name (p.thread j)
  lonely w name e b j n b' = n (v.exclusive i j name (rw e b) b')

  -- this thread was about one service
  was_about :
      (w : Work) (name : String)
      → p.thread i ≡ w
      → ((service : String) → Busy service w → name ≡ service)
      → (service : String) → Busy service (p.thread i)
      → name ≡ service
  was_about w name e h service b = h service (rw e at b)

  recording-Done :
      (name bus : String) (pid : ℤ)
      → p.thread i ≡ recording name bus pid
      → Done (recording name bus pid)
  unfolding finish_call
  recording-Done name bus pid e =
      let on : Online s name = rw e at (v.pending i) in
      (
        registered RegisterResult.ok,
        (record_peer name bus pid p.system.0, p.system.1),
        refl,
        moved-IsOverlap order p s v i (answered (registered RegisterResult.ok)) name
            (record_peer name bus pid p.system.0, p.system.1) s
            (was_about (recording name bus pid) name e (λ service b. b)) (λ service b. absurd b)
            (lonely (recording name bus pid) name e refl)
            (λ other n. (refl, record_peer-others p.system.0 name bus pid other n))
            (recorded-IsWired p.system.0 order name bus pid v.wired) v.refines
            (recorded-Unique p.system.0 name bus pid v.unique) v.listed tt (λ peer l. inl on),
      )

  erasing-Done : (name : String) → p.thread i ≡ erasing name → Done (erasing name)
  unfolding finish_call drop_peer
  erasing-Done name e =
      let gone = erase-gone name p.system.0.service_to_bus_name v.unique in
      (
        unregistered UnregisterResult.ok,
        (drop_peer name p.system.0, p.system.1),
        refl,
        moved-IsOverlap order p s v i (answered (unregistered UnregisterResult.ok)) name
            (drop_peer name p.system.0, p.system.1) s
            (was_about (erasing name) name e (λ service b. b)) (λ service b. absurd b)
            (lonely (erasing name) name e refl)
            (erase-OnlyAt name p.system.0.service_to_bus_name s v.unique)
            (dropped-IsWired p.system.0 order name v.wired) v.refines
            (Map.erase-Unique name p.system.0.service_to_bus_name v.unique) v.listed tt
            (λ peer l. absurd (cc gone)),
      )

  driving-Done : (name : String) → p.thread i ≡ driving name → Done (driving name)
  driving-Done name e =
      let here : Pending (driving name) p.system.0.service_to_bus_name s = rw e at (v.pending i) in
      let ((x, q), gone) = here in
      let listed : is_listed name ≡ true = v.listed name x q in
      let (m', drives, r) =
        finish_driving order p.system.0 p.system.1 s name v.wired v.refines listed in
      (
        silent,
        (p.system.0, m'),
        drives,
        moved-IsOverlap order p s v i (answered silent) name (p.system.0, m')
            (at name (fail_entry (s name)) s) (was_about (driving name) name e (λ service b. b))
            (λ service b. absurd b) (lonely (driving name) name e refl)
            (at-OnlyAt name (fail_entry (s name)) p.system.0.service_to_bus_name s) v.wired r
            v.unique (listed-at s v.listed name _ (λ y k. listed)) tt (λ peer l. absurd (cc)),
      )

  -- the answer of the work that thread `i` has
  finish-Done : (w : Work) → p.thread i ≡ w → Done w
  unfolding finish_call
  finish-Done (answered reply) e = (reply, p.system, refl, idled order p s v i (rw e tt) reply)
  finish-Done (recording name bus pid) e = recording-Done name bus pid e
  finish-Done (erasing name) e = erasing-Done name e
  finish-Done (driving name) e = driving-Done name e

  pub finished-IsOverlap : Done (p.thread i)
  finished-IsOverlap = finish-Done (p.thread i) refl
