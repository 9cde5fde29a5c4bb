-- ===== src/Daemon/Loss.antt =====
-- A bus name that loses its owner: which service fails, and which one is missed.
use service_recovery_schedul.Base.{
  ◌≡◌, ◌≢◌, refl, sym, ap, ◌∙◌, ◌⊎◌, inl, inr, String, Bool, true, false, none, some, arith,
  Outcome, ok, bind-ok, str_eq, eq_iff, Option-cases, Bool-cases,
}
use service_recovery_schedul.Base.Map.{
  Map, Iteration, Unique, lookup, lookup-Has, Has-of_lookup, find_if-Has, find_if-none,
  lookup-erase,
}
use service_recovery_schedul.Catalogue.{scan_names}
use service_recovery_schedul.Service.{ServiceRecoveryInfo}
use service_recovery_schedul.Scheduler.{Registry, on_service_failure}
use service_recovery_schedul.Scheduler.Spec.{Services, fail_entry, at, is_listed}
use service_recovery_schedul.Scheduler.Implements.{failure-Does}
use service_recovery_schedul.Stub.{PeerInfo, Stub, find_peer, drop_peer, handle_name_owner_changed}
use service_recovery_schedul.Stub.Methods.{owner_unknown, owner_lost}
use service_recovery_schedul.Daemon.Invariant.{IsDaemon, listed-at}
use service_recovery_schedul.Daemon.Calls.{dropped-IsDaemon}

-- no peer is known by the bus name
abbrev pub NoPeer : String → Map PeerInfo → Type 0
NoPeer bus peers =
    (service : String) (peer : PeerInfo)
    → lookup service peers ≡ some peer
    → peer.unique_bus_name ≢ bus

abbrev on_bus : String → String → PeerInfo → Bool
on_bus bus service peer = str_eq peer.unique_bus_name bus

module _ (order : Iteration PeerInfo) (bus : String) (peers : Map PeerInfo) (u : Unique peers) where
  pub find_peer-none : find_peer order bus peers ≡ none → NoPeer bus peers
  unfolding find_peer
  find_peer-none h service peer l e =
      let there = order.visit_complete peers service peer (Has-of_lookup service peer peers l) in
      let miss = find_if-none (on_bus bus) (order.visit peers) service peer h there in
      ground (arith, (eq_iff peer.unique_bus_name bus).1 e)

  pub find_peer-some :
      (service : String) (peer : PeerInfo)
      → find_peer order bus peers ≡ some (service, peer)
      → (lookup service peers ≡ some peer) × (peer.unique_bus_name ≡ bus)
  unfolding find_peer
  find_peer-some service peer h =
      let (hit, seen) = find_if-Has (on_bus bus) (order.visit peers) (service, peer) h in
      (
        lookup-Has service peer peers u (order.visit_sound peers service peer seen),
        (eq_iff peer.unique_bus_name bus).0 hit,
      )

is_listed-empty : is_listed "" ≡ false
unfolding is_listed scan_names
is_listed-empty = refl

pub not-empty : (name : String) → is_listed name ≡ true → str_eq name "" ≡ false
not-empty name h = elim (Bool-cases (str_eq name "")) [
  | inl t ↦
      let q : is_listed "" ≡ true = rw ((eq_iff name "").0 t) at h in absurd (cc (is_listed-empty))
  | inr f ↦ f
]

module _ {Connection Token : Type 0} (order : Iteration ServiceRecoveryInfo)
    (peer_order : Iteration PeerInfo) (stub : Stub Registry Connection Token) (m : Registry)
    (s : Services) (v : IsDaemon order (stub, m) s) where
  -- Exactly this service failed: its peer is dropped and its entry failed, all else stays.
  abbrev pub Fails : String → Outcome (Stub Registry Connection Token × Registry) → Type 0
  Fails service o =
      (m' : Registry) × (o ≡ ok (drop_peer service stub, m'))
      × IsDaemon order (drop_peer service stub, m') (at service (fail_entry (s service)) s)

  drives :
      (bus old_owner service : String) (peer : PeerInfo)
      → find_peer peer_order bus stub.service_to_bus_name ≡ some (service, peer)
      → lookup service stub.service_to_bus_name ≡ some peer
      → Fails service (handle_name_owner_changed peer_order bus old_owner "" (stub, m))
  drives bus old_owner service peer h l =
      let (x, n, on) = v.online service peer l in
      let listed : is_listed service ≡ true = v.listed service x n in
      let (m', go, r) = failure-Does v.refines order service in
      let (m'', f, g) = bind-ok (on_service_failure order service m) (λ y. ok (true, y)) go in
      let failure : on_service_failure order service m ≡ ok m' = f ∙ ap ok (cc) in
      (
        m',
        owner_lost stub m peer_order bus old_owner (on_service_failure order) service peer h
              (not-empty service listed) v.wired.fails
            ∙ rw failure refl,
        dropped-IsDaemon order stub m s v service (fail_entry (s service)) m' r
            (listed-at s v.listed service _ (λ e k. listed)),
      )

  -- When a bus name loses its owner, either no peer is known by this name and nothing changes, or
  -- one service whose peer is known by it fails once: that peer is dropped, the service goes
  -- offline with its next recovery action, and the process's invariant holds again. This is so in
  -- whatever order the maps are visited.
  pub name_lost :
      (bus old_owner : String)
      → (NoPeer bus stub.service_to_bus_name
          × (handle_name_owner_changed peer_order bus old_owner "" (stub, m) ≡ ok (stub, m)))
        ⊎ ((service : String) × (peer : PeerInfo) × (lookup service stub.service_to_bus_name
              ≡ some peer)
            × (peer.unique_bus_name ≡ bus)
            × Fails service (handle_name_owner_changed peer_order bus old_owner "" (stub, m)))
  name_lost bus old_owner =
      elim (Option-cases (find_peer peer_order bus stub.service_to_bus_name)) [
        | inl h ↦ inl (
          find_peer-none peer_order bus stub.service_to_bus_name v.unique h,
          owner_unknown stub m peer_order bus old_owner h,
        )
        | inr ((service, peer), h) ↦
            let (l, b) =
              find_peer-some peer_order bus stub.service_to_bus_name v.unique service peer h in
            inr (service, peer, l, b, drives bus old_owner service peer h l)
      ]

  still_there :
      (service left : String) (peer : PeerInfo)
      → service ≢ left
      → lookup left stub.service_to_bus_name ≡ some peer
      → lookup left (drop_peer service stub).service_to_bus_name ≡ some peer
  unfolding drop_peer
  still_there service left peer n l =
      ground
        (arith, lookup-erase service left stub.service_to_bus_name v.unique, eq_iff service left)

  -- Two services that were registered over one connection: when its bus name loses its owner, one
  -- of the two stays behind, still recorded under the lost name, and its entry is what it was,
  -- online.
  pub shared_name_missed :
      (bus old_owner a b : String) (pa pb : PeerInfo)
      → a ≢ b
      → lookup a stub.service_to_bus_name ≡ some pa
      → pa.unique_bus_name ≡ bus
      → lookup b stub.service_to_bus_name ≡ some pb
      → pb.unique_bus_name ≡ bus
      → (left : String) × (peer : PeerInfo) × (stub' : Stub Registry Connection Token)
        × (m' : Registry) × (s' : Services) × ((left ≡ a) ⊎ (left ≡ b))
        × (handle_name_owner_changed peer_order bus old_owner "" (stub, m) ≡ ok (stub', m'))
        × IsDaemon order (stub', m') s'
        × (lookup left stub'.service_to_bus_name ≡ some peer)
        × (peer.unique_bus_name ≡ bus)
        × (s' left ≡ s left)
  shared_name_missed bus old_owner a b pa pb n la ea lb eb = elim (name_lost bus old_owner) [
    | inl (none_there, _) ↦ absurd (none_there a pa la ea)
    | inr (service, peer, l, e, (m', go, d)) ↦ elim (Bool-cases (str_eq service a)) [
      | inl t ↦
          let same : service ≡ a = (eq_iff service a).0 t in
          let other : service ≢ b = λ q. n (sym same ∙ q) in
          (
            b,
            pb,
            drop_peer service stub,
            m',
            at service (fail_entry (s service)) s,
            inr refl,
            go,
            d,
            still_there service b pb other lb,
            eb,
            ground (arith, eq_iff service b),
          )
      | inr f ↦
          let other : service ≢ a = ground (arith, eq_iff service a) in
          (
            a,
            pa,
            drop_peer service stub,
            m',
            at service (fail_entry (s service)) s,
            inl refl,
            go,
            d,
            still_there service a pa other la,
            ea,
            ground (arith, eq_iff service a),
          )
    ]
  ]
