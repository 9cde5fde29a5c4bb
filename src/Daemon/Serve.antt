-- ===== src/Daemon/Serve.antt =====
-- The process over any sequence of calls off the bus.
use service_recovery_schedul.Base.{
  ◌≤◌, ◌≡◌, refl, ap, inl, inr, String, List, [], ◌∷◌, ok, str_eq, eq_iff, length, Bool-cases,
}
use service_recovery_schedul.Base.Map.{Iteration, lookup}
use service_recovery_schedul.Service.{ServiceRecoveryInfo}
use service_recovery_schedul.Scheduler.Spec.{Services, no_services, All}
use service_recovery_schedul.Scheduler.Implements.{empty-Refines}
use service_recovery_schedul.Stub.{Platform, PeerInfo}
use service_recovery_schedul.Stub.Methods.{owner_kept}
use service_recovery_schedul.Daemon.{
  Call, Reply, System, registers, unregisters, reports, owner_changed, registered, unregistered,
  reported, silent, init, new_stub, handle, serve,
}
use service_recovery_schedul.Daemon.Invariant.{IsDaemon}
use service_recovery_schedul.Daemon.Registration.{register-IsDaemon}
use service_recovery_schedul.Daemon.Calls.{unregister-IsDaemon, report-IsDaemon}
use service_recovery_schedul.Daemon.Loss.{name_lost}

-- A registration with at most 127 actions; every other call.
abbrev pub FitsCall : Call → Type 0
FitsCall (registers client name actions interval) = length actions ≤ 127
FitsCall _ = Unit

module _ {Connection Token : Type 0} (order : Iteration ServiceRecoveryInfo)
    (peer_order : Iteration PeerInfo) where
  owner_changed-IsDaemon :
      (bus old_owner new_owner : String) (platform : Platform Connection Token)
      (sys : System Connection Token) (s : Services)
      → IsDaemon order sys s
      → (sys' : System Connection Token) × (s' : Services) × (handle peer_order platform
            (owner_changed bus old_owner new_owner)
            sys
          ≡ ok (silent, sys'))
        × IsDaemon order sys' s'
  unfolding handle
  owner_changed-IsDaemon bus old_owner new_owner platform (stub, m) s v =
      elim (Bool-cases (str_eq new_owner "")) [
        | inr f ↦
            ((stub, m), s, rw (owner_kept stub m peer_order bus old_owner new_owner f) refl, v)
        | inl t ↦
            rw ((eq_iff new_owner "").0 t)
              (elim (name_lost order peer_order stub m s v bus old_owner) [
                | inl (_, e) ↦ ((stub, m), s, rw e refl, v)
                | inr (service, peer, _, _, (m', e, v')) ↦ (_, _, rw e refl, v')
              ])
      ]

  pub handle-IsDaemon :
      (call : Call) (platform : Platform Connection Token) (sys : System Connection Token)
      (s : Services)
      → IsDaemon order sys s
      → FitsCall call
      → (reply : Reply) × (sys' : System Connection Token) × (s' : Services) × (handle peer_order
            platform call sys
          ≡ ok (reply, sys'))
        × IsDaemon order sys' s'
  unfolding handle
  handle-IsDaemon (registers client name actions interval) platform (stub, m) s v h =
      let (m', e, v') =
        register-IsDaemon order stub m s v platform client name actions interval h in
      (_, _, _, ap (λ r. ok (registered r.0, r.1)) e, v')
  handle-IsDaemon (unregisters client name) platform (stub, m) s v h =
      let (m', e, v') = unregister-IsDaemon order stub m s v client name in
      (_, _, _, ap (λ r. ok (unregistered r.0, r.1)) e, v')
  handle-IsDaemon (reports client name current last) platform (stub, m) s v h =
      let (m', e, v') = report-IsDaemon order stub m s v client name current last in
      (_, (stub, m'), _, ap (λ r. ok (reported r.0, r.1)) e, v')
  handle-IsDaemon (owner_changed bus old_owner new_owner) platform sys s v h =
      let (sys', s', e, v') = owner_changed-IsDaemon bus old_owner new_owner platform sys s v in
      (silent, sys', s', e, v')

  pub serve-IsDaemon :
      (calls : List (Platform Connection Token × Call)) (sys : System Connection Token)
      (s : Services)
      → IsDaemon order sys s
      → All (λ p. FitsCall p.1) calls
      → (replies : List Reply) × (sys' : System Connection Token) × (s' : Services) × (serve
            peer_order calls sys
          ≡ ok (replies, sys'))
        × IsDaemon order sys' s'
  unfolding serve
  serve-IsDaemon [] sys s v h = ([], sys, s, refl, v)
  serve-IsDaemon ((platform, call) ∷ rest) sys s v h =
      let (reply, sys', s', e, v') = handle-IsDaemon call platform sys s v h.0 in
      let (replies, last, s'', e', v'') = serve-IsDaemon rest sys' s' v' h.1 in
      (reply ∷ replies, last, s'', rw e (rw e' refl), v'')

  pub init-IsDaemon :
      (token : Token)
      → IsDaemon {Connection = Connection} {Token = Token} order
          (init order (new_stub token), [])
          no_services
  unfolding init new_stub lookup
  init-IsDaemon token = record {
    wired = record { registers = refl; unregisters = refl; fails = refl; reports = refl };
    refines = empty-Refines order;
    unique = tt;
    online = λ name peer e. absurd (cc);
    listed = λ name e h. absurd (cc);
  }

  -- After `init`, the process handles every sequence of calls off the bus (with policies of at most
  -- 127 actions) with no undefined behaviour; in the state it ends in the callbacks are the
  -- scheduler's, the registry stands for abstract services whose names the catalogue lists, no
  -- service has two peers, and each peer's service is registered and online.
  pub serve-init :
      (token : Token) (calls : List (Platform Connection Token × Call))
      → All (λ p. FitsCall p.1) calls
      → (replies : List Reply) × (sys : System Connection Token) × (s : Services) × (serve
            peer_order calls
            (init order (new_stub token), [])
          ≡ ok (replies, sys))
        × IsDaemon order sys s
  serve-init token calls h =
      serve-IsDaemon calls (init order (new_stub token), []) no_services (init-IsDaemon token) h
