-- ===== src/Daemon/Subscription.antt =====
-- The subscription to NameOwnerChanged: made when the process comes up, and taken off by the stub's
-- destructor.
use service_recovery_schedul.Base.{
  ℕ, ◌≡◌, refl, sym, ap, ◌∙◌, inl, inr, String, Option, none, some, List, [], ◌∷◌, ◌&&◌, arith,
  Outcome, ok, ◌>>=◌, bind-ok, str_eq, Option-cases, Bool-cases, if◌then◌else◌,
}
use service_recovery_schedul.Base.Int.{ℤ}
use service_recovery_schedul.Base.Map.{Iteration}
use service_recovery_schedul.Scheduler.{Registry}
use service_recovery_schedul.Wire.{ClientId, extract_dbus_unique_name}
use service_recovery_schedul.Stub
use service_recovery_schedul.Stub.{
  Platform, PeerInfo, Stub, record_peer, drop_peer, register_service, unregister_service,
  report_service_state, drive_recovery, find_peer, handle_name_owner_changed, lock, destroy,
}
use service_recovery_schedul.Stub.Methods.{peer_pid}
use service_recovery_schedul.Daemon.{
  Call, Reply, System, registers, unregisters, reports, owner_changed, handle, serve, run,
}

module _ {Connection Token : Type 0} where
  abbrev pub subscription : Stub Registry Connection Token → Option Connection × Token
  subscription stub = (stub.signal_conn, stub.signal_token)

  record_peer-subscription :
      (name bus : String) (pid : ℤ) (stub : Stub Registry Connection Token)
      → subscription (record_peer name bus pid stub) ≡ subscription stub
  unfolding record_peer
  record_peer-subscription name bus pid stub = elim (Bool-cases (str_eq bus "")) [
    | inl t ↦ rw (t, record_peer) refl
    | inr f ↦ rw (f, record_peer) refl
  ]

  register-subscription :
      (platform : Platform Connection Token) (client : ClientId) (name : String) (wire : List ℕ)
      (interval : ℤ) (stub : Stub Registry Connection Token) (m : Registry)
      → subscription (register_service platform client name wire interval (stub, m)).1.0
        ≡ subscription stub
  unfolding register_service
  register-subscription platform client name wire interval stub m = ground (
    arith,
    record_peer-subscription name (extract_dbus_unique_name client)
        (peer_pid stub m platform client) stub,
  )

  unregister-subscription :
      (client : ClientId) (name : String) (stub : Stub Registry Connection Token) (m : Registry)
      → subscription (unregister_service client name (stub, m)).1.0 ≡ subscription stub
  unfolding unregister_service drop_peer
  unregister-subscription client name stub m = ground arith

  report-subscription :
      (client : ClientId) (name : String) (current last : ℕ) (stub : Stub Registry Connection Token)
      (m : Registry)
      → subscription (report_service_state client name current last (stub, m)).1.0
        ≡ subscription stub
  unfolding report_service_state
  report-subscription client name current last stub m = refl

  left :
      (sys sys' : System Connection Token)
      → ok sys ≡ ok sys'
      → subscription sys'.0 ≡ subscription sys.0
  left sys sys' h =
      let same : sys' ≡ sys = cc in ap (λ (y : System Connection Token). subscription y.0) same

  drive-subscription :
      (service : String) (stub : Stub Registry Connection Token) (m : Registry)
      (sys : System Connection Token)
      → drive_recovery service (stub, m) ≡ ok sys
      → subscription sys.0 ≡ subscription stub
  unfolding drive_recovery
  drive-subscription service stub m sys h = elim (Bool-cases (str_eq service "")) [
    | inl t ↦ let h' : ok (stub, m) ≡ ok sys = rw t at h in left (stub, m) sys h'
    | inr f ↦ elim (Option-cases stub.on_failure) [
      | inl e ↦ let h' : ok (stub, m) ≡ ok sys = rw (f, e) at h in left (stub, m) sys h'
      | inr (failure, e) ↦
          let h' : (failure service m >>= λ m'. ok (stub, m')) ≡ ok sys = rw (f, e) at h in
          let (m', _, go) = bind-ok (failure service m) (λ m'. ok (stub, m')) h' in
          left (stub, m') sys go
    ]
  ]

  owner_changed-subscription :
      (order : Iteration PeerInfo) (name old_owner new_owner : String)
      (stub : Stub Registry Connection Token) (m : Registry) (sys : System Connection Token)
      → handle_name_owner_changed order name old_owner new_owner (stub, m) ≡ ok sys
      → subscription sys.0 ≡ subscription stub
  unfolding handle_name_owner_changed drop_peer
  owner_changed-subscription order name old_owner new_owner stub m sys h =
      elim (Bool-cases (str_eq new_owner "")) [
        | inr f ↦ let h' : ok (stub, m) ≡ ok sys = rw f at h in left (stub, m) sys h'
        | inl t ↦ elim (Option-cases (find_peer order name stub.service_to_bus_name)) [
          | inl e ↦ let h' : ok (stub, m) ≡ ok sys = rw (t, e) at h in left (stub, m) sys h'
          | inr ((service, peer), e) ↦
              let h' : drive_recovery service (drop_peer service stub, m) ≡ ok sys =
                rw (t, e) at h in
              drive-subscription service (drop_peer service stub) m sys h'
        ]
      ]

  answered :
      (r reply : Reply) (sys sys' : System Connection Token)
      → ◌≡◌ {A = Outcome (Reply × System Connection Token)} (ok (r, sys)) (ok (reply, sys'))
      → subscription sys'.0 ≡ subscription sys.0
  answered r reply sys sys' h =
      left sys sys' (ap (λ (o : Outcome (Reply × System Connection Token)). o >>= λ x. ok x.1) h)

  handle-subscription :
      (order : Iteration PeerInfo) (platform : Platform Connection Token) (call : Call)
      (sys sys' : System Connection Token) (reply : Reply)
      → handle order platform call sys ≡ ok (reply, sys')
      → subscription sys'.0 ≡ subscription sys.0
  unfolding handle
  handle-subscription order platform (registers client name wire interval) (stub, m) sys' reply h =
      answered _ reply (register_service platform client name wire interval (stub, m)).1 sys' h
      ∙ register-subscription platform client name wire interval stub m
  handle-subscription order platform (unregisters client name) (stub, m) sys' reply h =
      answered _ reply (unregister_service client name (stub, m)).1 sys' h
      ∙ unregister-subscription client name stub m
  handle-subscription order platform (reports client name current last) (stub, m) sys' reply h =
      answered _ reply (report_service_state client name current last (stub, m)).1 sys' h
      ∙ report-subscription client name current last stub m
  handle-subscription order platform (owner_changed name old_owner new_owner) (stub, m) sys' reply
        h =
      let (x, go, e) =
        bind-ok (handle_name_owner_changed order name old_owner new_owner (stub, m))
          (λ y. ok (Reply.silent, y)) h in
      let same : x ≡ sys' = cc in
      ap (λ (y : System Connection Token). subscription y.0) (sym same)
      ∙ owner_changed-subscription order name old_owner new_owner stub m x go

  serve-subscription :
      (order : Iteration PeerInfo) (calls : List (Platform Connection Token × Call))
      (sys sys' : System Connection Token) (replies : List Reply)
      → serve order calls sys ≡ ok (replies, sys')
      → subscription sys'.0 ≡ subscription sys.0
  unfolding serve
  serve-subscription order [] sys sys' replies h =
      left sys sys'
        (ap (λ (o : Outcome (List Reply × System Connection Token)). o >>= λ x. ok x.1) h)
  serve-subscription order ((platform, call) ∷ rest) sys sys' replies h =
      let ((reply, mid), go, more) =
        bind-ok (handle order platform call sys)
          (λ p. serve order rest p.1 >>= λ q. ok (p.0 ∷ q.0, q.1)) h in
      let ((others, last), go', same) =
        bind-ok (serve order rest mid) (λ q. ok (reply ∷ q.0, q.1)) more in
      let same' : last ≡ sys' = cc in
      ap (λ (y : System Connection Token). subscription y.0) (sym same')
      ∙ serve-subscription order rest mid last others go'
      ∙ handle-subscription order platform call sys mid reply go

  -- the handler on a connection, if the connection is still there
  abbrev pub handler_on :
      Platform Connection Token → Token → Option Connection → Option (Connection × Token)
  handler_on later token none = none
  handler_on later token (some c) = if later.is_alive c then some (c, token) else none

  destroy-handler_on :
      (later : Platform Connection Token) (stub : Stub Registry Connection Token)
      → destroy later stub ≡ handler_on later stub.signal_token stub.signal_conn
  unfolding destroy lock
  destroy-handler_on later stub = elim (Option-cases stub.signal_conn) [
    | inl e ↦ rw e refl
    | inr (c, e) ↦ elim (Bool-cases (later.is_alive c)) [
      | inl a ↦ rw (e, destroy, a) refl
      | inr a ↦ rw (e, destroy, a) refl
    ]
  ]

  -- the handler that `run` subscribes
  abbrev pub subscribed :
      Platform Connection Token → Platform Connection Token → Option (Connection × Token)
  subscribed platform later = elim platform.connection [
    | none ↦ none
    | some c ↦ if later.is_alive c then some (c, platform.subscribe c) else none
  ]

  run-subscribed :
      (platform later : Platform Connection Token) (stub : Stub Registry Connection Token)
      → stub.signal_conn ≡ none
      → handler_on later (run platform stub).1.signal_token (run platform stub).1.signal_conn
        ≡ (if (run platform stub).0 then subscribed platform later else none)
  unfolding run Stub.run
  run-subscribed platform later stub h =
      elim (Bool-cases
        (platform.has_runtime && platform.offers "local" "com.bmw.recovery.RecoveryScheduler")) [
          | inr f ↦ rw (f, h) refl
          | inl t ↦ elim (Option-cases platform.connection) [
            | inl e ↦ rw (t, e, h) refl
            | inr (c, e) ↦ rw (t, e) refl
          ]
        ]

  -- the destructor of a stub that has come up and has served calls
  pub serve-destroy :
      (order : Iteration PeerInfo) (platform later : Platform Connection Token)
      (stub : Stub Registry Connection Token) (m : Registry)
      (calls : List (Platform Connection Token × Call)) (replies : List Reply)
      (sys : System Connection Token)
      → stub.signal_conn ≡ none
      → serve order calls ((run platform stub).1, m) ≡ ok (replies, sys)
      → destroy later sys.0 ≡ (if (run platform stub).0 then subscribed platform later else none)
  serve-destroy order platform later stub m calls replies sys h go =
      destroy-handler_on later sys.0
      ∙ ap (λ (x : Option Connection × Token). handler_on later x.1 x.0)
          (serve-subscription order calls ((run platform stub).1, m) sys replies go)
      ∙ run-subscribed platform later stub h
