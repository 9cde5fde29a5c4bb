-- ===== src/Handlers/Steps.antt =====
-- The interleavings in which no two handlers that are about one service overlap: any number of
-- threads, and steps in any order.
use service_recovery_schedul.Base.{ℕ, set, String, some, ◌≡◌, ok}
use service_recovery_schedul.Base.Map.{Iteration, lookup}
use service_recovery_schedul.Stub.{Platform, PeerInfo}
use service_recovery_schedul.Daemon.{
  Call, Reply, System, registers, unregisters, reports, owner_changed,
}
use service_recovery_schedul.Daemon.Serve.{FitsCall}
use service_recovery_schedul.Handlers.{
  Work, answered, recording, erasing, driving, begin_call, finish_call,
}

-- the process, and its threads
pub record Process (Connection Token : Type 0) : Type 0 where
  pub system : System Connection Token
  pub thread : ℕ → Work

-- what a thread has left to do is about this service
abbrev pub Busy : String → Work → Type 0
Busy service (answered reply) = ⊥
Busy service (recording name bus pid) = name ≡ service
Busy service (erasing name) = name ≡ service
Busy service (driving name) = name ≡ service

abbrev pub IsFree : Work → Type 0
IsFree (answered reply) = Unit
IsFree _ = ⊥

module _ {Connection Token : Type 0} where
  -- The call is about this service: by its name, or by the bus name of its peer.
  abbrev pub Concerns : Call → Process Connection Token → String → Type 0
  Concerns (registers client name actions interval) p service = name ≡ service
  Concerns (unregisters client name) p service = name ≡ service
  Concerns (reports client name current last) p service = name ≡ service
  Concerns (owner_changed bus old_owner new_owner) p service =
      (peer : PeerInfo) × (lookup service p.system.0.service_to_bus_name ≡ some peer)
      × (peer.unique_bus_name ≡ bus)

  -- No thread has work left on a service that the call is about.
  abbrev pub Apart : Process Connection Token → Call → Type 0
  Apart p call = (i : ℕ) (service : String) → Concerns call p service → ¬ Busy service (p.thread i)

-- One step of some thread, on the platform as it is then. A call begins where no other handler is about
-- its service. A step whose result is undefined leads to no process.
module _ {Connection Token : Type 0} (peer_order : Iteration PeerInfo) where
  pub data Step (p : Process Connection Token) : Process Connection Token → Type 0 where
    begins :
        (i : ℕ) (platform : Platform Connection Token) (call : Call)
        → IsFree (p.thread i)
        → FitsCall call
        → Apart p call
        → Step p (record {
          system = (begin_call peer_order platform call p.system).1;
          thread = set p.thread i (begin_call peer_order platform call p.system).0;
        })
    finishes :
        (i : ℕ) (reply : Reply) (sys : System Connection Token)
        → finish_call (p.thread i) p.system ≡ ok (reply, sys)
        → Step p (record { system = sys; thread = set p.thread i (answered reply) })

  pub data Reach (p : Process Connection Token) : Process Connection Token → Type 0 where
    here : Reach p p
    later : {q r : Process Connection Token} → Reach p q → Step q r → Reach p r
