-- ===== src/Handlers/Exclusive.antt =====
-- Interleavings in which no two handlers that are about one service overlap.
use service_recovery_schedul.Base.{ℕ, ◌≡◌, ok}
use service_recovery_schedul.Base.Map.{Iteration}
use service_recovery_schedul.Service.{ServiceRecoveryInfo}
use service_recovery_schedul.Scheduler.Spec.{Services}
use service_recovery_schedul.Scheduler.Refinement.{Refines}
use service_recovery_schedul.Stub.{PeerInfo}
use service_recovery_schedul.Daemon.{Reply, System}
use service_recovery_schedul.Daemon.Invariant.{IsDaemon}
use service_recovery_schedul.Handlers.{finish_call}
use service_recovery_schedul.Handlers.Steps.{
  Process, IsFree, Step, begins, finishes, Reach, here, later,
}
use service_recovery_schedul.Handlers.Overlap.{IsOverlap, IsOverlap-IsDaemon, IsDaemon-IsOverlap}
use service_recovery_schedul.Handlers.Entering.{begun-IsOverlap}
use service_recovery_schedul.Handlers.Finishing.{worked, finished-IsOverlap}

module _ {Connection Token : Type 0} (order : Iteration ServiceRecoveryInfo)
    (peer_order : Iteration PeerInfo) where
  Step-IsOverlap :
      {p q : Process Connection Token} (s : Services)
      → Step peer_order p q
      → IsOverlap order p s
      → (s' : Services) × IsOverlap order q s'
  Step-IsOverlap {p} s (begins i platform call free fits apart) v =
      begun-IsOverlap order peer_order p s v i free platform call fits apart
  Step-IsOverlap {p} s (finishes i reply sys h) v =
      let (reply', sys', e, v') = finished-IsOverlap order p s v i in
      let q : reply' ≡ reply = cc in
      let q' : sys' ≡ sys = cc in (worked (p.thread i) s, rw (← q, ← q') v')

  Reach-IsOverlap :
      {p q : Process Connection Token} (s : Services)
      → Reach peer_order p q
      → IsOverlap order p s
      → (s' : Services) × IsOverlap order q s'
  Reach-IsOverlap s here v = (s, v)
  Reach-IsOverlap s (later r st) v = let (s', v') = Reach-IsOverlap s r v in Step-IsOverlap s' st v'

  -- Let handlers overlap in any way but that two of them are about one service, with at most 127
  -- actions in each registration. From a state in which the process's invariant holds and no handler is under way, every state without a handler under
  -- way that is reached has it too: the callbacks are the scheduler's, the registry stands for
  -- abstract services, no service has two peers, and each peer's service is registered and online.
  pub Reach-IsDaemon :
      (p q : Process Connection Token) (s : Services)
      → IsDaemon order p.system s
      → ((i : ℕ) → IsFree (p.thread i))
      → Reach peer_order p q
      → ((i : ℕ) → IsFree (q.thread i))
      → (s' : Services) × IsDaemon order q.system s'
  Reach-IsDaemon p q s v idle r free =
      let (s', v') = Reach-IsOverlap s r (IsDaemon-IsOverlap order p s v idle) in
      (s', IsOverlap-IsDaemon order q s' v' free)

  -- Let handlers overlap in any way but that two of them are about one service, with at most 127
  -- actions in each registration, from a state in which the process's invariant holds and no handler
  -- is under way. In every state that is reached, with handlers under way or not, the registry
  -- stands for abstract services, and each thread's handler finishes with an answer and no undefined behaviour:
  -- a failure that is to be driven fails the service's entry once, and any other rest of a handler
  -- leaves the services as they are.
  pub Reach-finish_call :
      (p q : Process Connection Token) (s : Services) (i : ℕ)
      → IsDaemon order p.system s
      → ((j : ℕ) → IsFree (p.thread j))
      → Reach peer_order p q
      → (reply : Reply) × (sys : System Connection Token) × (s' : Services) × Refines q.system.1 s'
        × (finish_call (q.thread i) q.system ≡ ok (reply, sys))
        × Refines sys.1 (worked (q.thread i) s')
  Reach-finish_call p q s i v idle r =
      let (s', v') = Reach-IsOverlap s r (IsDaemon-IsOverlap order p s v idle) in
      let (reply, sys, e, v'') = finished-IsOverlap order q s' v' i in
      (reply, sys, s', v'.refines, e, v''.refines)
