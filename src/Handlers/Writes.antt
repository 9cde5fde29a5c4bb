-- ===== src/Handlers/Writes.antt =====
-- Which services and peers a write changes.
use service_recovery_schedul.Base.{
  ◌≡◌, ◌≢◌, refl, inl, inr, String, Option, none, arith, str_eq, eq_iff, eq_refl, Bool-cases,
}
use service_recovery_schedul.Base.Int.{ℤ}
use service_recovery_schedul.Base.Map.{Map, Unique, lookup, erase, lookup-erase, lookup-assign}
use service_recovery_schedul.Scheduler.{Registry}
use service_recovery_schedul.Scheduler.Spec.{Entry, Services, at}
use service_recovery_schedul.Stub.{PeerInfo, Stub, record_peer}
use service_recovery_schedul.Handlers.Overlap.{OnlyAt}

-- the same peers, and services that differ at one name
pub at-OnlyAt :
    (name : String) (x : Option Entry) (peers : Map PeerInfo) (s : Services)
    → OnlyAt name peers peers s (at name x s)
at-OnlyAt name x peers s other n = (ground (arith, eq_iff name other), refl)

module _ (name : String) (peers : Map PeerInfo) (s : Services) (u : Unique peers) where
  pub erase-OnlyAt : OnlyAt name peers (erase name peers) s s
  erase-OnlyAt other n = (refl, ground (arith, lookup-erase name other peers u, eq_iff name other))

pub erase-gone :
    (name : String) (peers : Map PeerInfo) → Unique peers → lookup name (erase name peers) ≡ none
erase-gone name peers u = ground (arith, lookup-erase name name peers u, eq_refl name)

pub record_peer-others :
    {Connection Token : Type 0} (stub : Stub Registry Connection Token) (name bus : String)
    (pid : ℤ) (other : String)
    → name ≢ other
    → lookup other (record_peer name bus pid stub).service_to_bus_name
      ≡ lookup other stub.service_to_bus_name
unfolding record_peer
record_peer-others stub name bus pid other n = elim (Bool-cases (str_eq bus "")) [
  | inl t ↦ rw (t, record_peer) refl
  | inr f ↦
      rw (f, record_peer)
        (ground (
          arith,
          eq_iff name other,
          lookup-assign name other (record { unique_bus_name = bus; pid = pid })
              stub.service_to_bus_name,
        ))
]
