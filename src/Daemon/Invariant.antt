-- ===== src/Daemon/Invariant.antt =====
-- What holds of the whole process: the stub's peers are registered services that are online, and the
-- registry stands for abstract services whose names the catalogue lists.
use service_recovery_schedul.Base.{
  ◌≡◌, refl, inl, inr, String, true, Option, none, some, arith, str_eq, eq_iff, Bool-cases,
}
use service_recovery_schedul.Base.Map.{
  Map, Iteration, Unique, lookup, erase, assign, lookup-erase, lookup-assign,
}
use service_recovery_schedul.Service.{ServiceRecoveryInfo}
use service_recovery_schedul.Scheduler.{
  Registry, on_service_failure, on_register_service, on_unregister_service, on_report_service_state,
}
use service_recovery_schedul.Scheduler.Spec.{Entry, Services, at, is_listed}
use service_recovery_schedul.Scheduler.Refinement.{Refines}
use service_recovery_schedul.Stub.{PeerInfo, Stub}
use service_recovery_schedul.Daemon.{System}

-- each peer's service is registered and online
abbrev pub PeersOnline : Map PeerInfo → Services → Type 0
PeersOnline peers s =
    (name : String) (peer : PeerInfo)
    → lookup name peers ≡ some peer
    → (e : Entry) × (s name ≡ some e) × (e.is_online ≡ true)

abbrev pub NamesListed : Services → Type 0
NamesListed s = (name : String) (e : Entry) → s name ≡ some e → is_listed name ≡ true

module _ {Connection Token : Type 0} (order : Iteration ServiceRecoveryInfo) where
  -- the callbacks are the scheduler's handlers
  pub record IsWired (stub : Stub Registry Connection Token) : Type 0 where
    pub registers : stub.on_register ≡ some on_register_service
    pub unregisters : stub.on_unregister ≡ some (on_unregister_service order)
    pub fails : stub.on_failure ≡ some (on_service_failure order)
    pub reports : stub.on_report ≡ some on_report_service_state

  pub record IsDaemon (sys : System Connection Token) (s : Services) : Type 0 where
    pub wired : IsWired sys.0
    pub refines : Refines sys.1 s
    pub unique : Unique sys.0.service_to_bus_name
    pub online : PeersOnline sys.0.service_to_bus_name s
    pub listed : NamesListed s

-- Peers and services after each kind of write.
module _ (peers : Map PeerInfo) (s : Services) (o : PeersOnline peers s) where
  pub online-unchanged : (name : String) → s name ≡ none → PeersOnline peers (at name none s)
  online-unchanged name h j peer e =
      let (x, f, g) = o j peer e in (x, ground (arith, eq_iff name j), g)

  pub online-kept :
      (name : String) (x : Entry) → x.is_online ≡ true → PeersOnline peers (at name (some x) s)
  online-kept name x h j peer e = elim (Bool-cases (str_eq name j)) [
    | inl t ↦ (x, rw t refl, h)
    | inr t ↦ let (y, f, g) = o j peer e in (y, rw t f, g)
  ]

  pub online-assign :
      (name : String) (x : Entry) (p : PeerInfo)
      → x.is_online ≡ true
      → PeersOnline (assign name p peers) (at name (some x) s)
  online-assign name x p h j peer e = elim (Bool-cases (str_eq name j)) [
    | inl t ↦ (x, rw t refl, h)
    | inr t ↦
        let (y, f, g) = o j peer (ground (arith, lookup-assign name j p peers)) in (y, rw t f, g)
  ]

  pub online-erase :
      (name : String) (x : Option Entry)
      → Unique peers
      → PeersOnline (erase name peers) (at name x s)
  online-erase name x u j peer e = elim (Bool-cases (str_eq name j)) [
    | inl t ↦ absurd (ground (arith, lookup-erase name j peers u))
    | inr t ↦
        let (y, f, g) = o j peer (ground (arith, lookup-erase name j peers u)) in (y, rw t f, g)
  ]

module _ (s : Services) (l : NamesListed s) where
  pub listed-at :
      (name : String) (x : Option Entry)
      → ((e : Entry) → x ≡ some e → is_listed name ≡ true)
      → NamesListed (at name x s)
  listed-at name x h j e k = elim (Bool-cases (str_eq name j)) [
    | inl t ↦ let q : is_listed name ≡ true = h e (rw t at k) in rw ((eq_iff name j).0 t) at q
    | inr t ↦ l j e (rw t at k)
  ]
