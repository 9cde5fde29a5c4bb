-- ===== src/Daemon/Models.antt =====
-- The state of the process as the contract sees it, and what the writes to the peers are there.
use mathlib.Core.Path.{fun_ext}
use service_recovery_schedul.Base.{
  ◌≡◌, ◌≢◌, refl, ap, inl, inr, String, Option, none, some, str_eq, eq_iff, Bool-cases,
  Option-cases,
}
use service_recovery_schedul.Base.Int.{ℤ}
use service_recovery_schedul.Base.Map.{Iteration, lookup, lookup-erase, lookup-assign}
use service_recovery_schedul.Service.{ServiceRecoveryInfo}
use service_recovery_schedul.Scheduler.{Registry}
use service_recovery_schedul.Scheduler.Spec.{Services, at}
use service_recovery_schedul.Stub.{PeerInfo, Stub, record_peer, drop_peer}
use service_recovery_schedul.Daemon.{System}
use service_recovery_schedul.Daemon.Invariant.{IsDaemon}
use service_recovery_schedul.Daemon.Loss.{NoPeer}
use service_recovery_schedul.Daemon.Contract.{Peers, point, recorded, Board}

abbrev pub bus_of : Option PeerInfo → Option String
bus_of none = none
bus_of (some peer) = some peer.unique_bus_name

-- the state stands for the board
pub record Models {Connection Token : Type 0} (order : Iteration ServiceRecoveryInfo)
    (sys : System Connection Token) (a : Board) : Type 0 where
  pub valid : IsDaemon order sys a.services
  pub known : (name : String) → bus_of (lookup name sys.0.service_to_bus_name) ≡ a.peers name

-- What the writes to the peers are on the board.
module _ {Connection Token : Type 0} (stub : Stub Registry Connection Token) (peers : Peers)
    (k : (name : String) → bus_of (lookup name stub.service_to_bus_name) ≡ peers name) where
  pub record_peer-recorded :
      (name bus : String) (pid : ℤ) (j : String)
      → bus_of (lookup j (record_peer name bus pid stub).service_to_bus_name)
        ≡ recorded name bus peers j
  unfolding record_peer
  record_peer-recorded name bus pid j = elim (Bool-cases (str_eq bus "")) [
    | inl t ↦ rw (t, record_peer) (k j)
    | inr f ↦
        let peer : PeerInfo = record { unique_bus_name = bus; pid = pid } in
        let l = lookup-assign name j peer stub.service_to_bus_name in
        rw (f, record_peer)
          (rw l (elim (Bool-cases (str_eq name j)) [
            | inl same ↦ rw same refl
            | inr other ↦ rw other (k j)
          ]))
  ]

  pub drop_peer-point :
      (order : Iteration ServiceRecoveryInfo) (m : Registry) (s : Services)
      → IsDaemon order (stub, m) s
      → (name j : String)
      → bus_of (lookup j (drop_peer name stub).service_to_bus_name) ≡ point name none peers j
  unfolding drop_peer
  drop_peer-point order m s v name j =
      rw (lookup-erase name j stub.service_to_bus_name v.unique)
        (elim (Bool-cases (str_eq name j)) [ inl same ↦ rw same refl | inr other ↦ rw other (k j) ])

  pub NoPeer-point :
      (bus : String)
      → NoPeer bus stub.service_to_bus_name
      → (service : String) → peers service ≢ some bus
  NoPeer-point bus n service e = elim (Option-cases (lookup service stub.service_to_bus_name)) [
    | inl l ↦ let q : none ≡ peers service = rw (← k service) (rw l refl) in absurd (cc)
    | inr (peer, l) ↦
        let q : some peer.unique_bus_name ≡ peers service = rw (← k service) (rw l refl) in
        n service peer l (cc)
  ]

-- writing what is there changes nothing
pub at_same : (name : String) (s : Services) → at name (s name) s ≡ s
at_same name s = fun_ext (λ j. elim (Bool-cases (str_eq name j)) [
  | inl t ↦ rw t (ap s ((eq_iff name j).0 t))
  | inr f ↦ rw f refl
])
