-- ===== src/Journal/Audit.antt =====
-- How many of the messages are errors: a reader of the log against a reader of the replies.
use service_recovery_schedul.Base.{
  ℕ, suc, ◌+◌, ◌≡◌, refl, ap, ◌∙◌, inl, inr, String, Bool, true, false, List, [], ◌∷◌, Outcome, ok,
  undefined, bind-ok, arith, str_eq, eq_iff, if◌then◌else◌, Bool-cases, Option-cases,
}
use service_recovery_schedul.Base.Int.{ℤ}
use service_recovery_schedul.Base.Map.{Map, Iteration, Has, Has-of_lookup, lookup-Has}
use service_recovery_schedul.Service.{ServiceRecoveryInfo}
use service_recovery_schedul.Scheduler.{on_register_service}
use service_recovery_schedul.Scheduler.Spec.{Services, All}
use service_recovery_schedul.Wire.{
  from_wire, RegisterResult, ClientId, extract_dbus_unique_name, translate,
}
use service_recovery_schedul.Stub.{
  Platform, PeerInfo, find_peer, handle_name_owner_changed, query_unix_pid_for_bus_name,
}
use service_recovery_schedul.Stub.Methods.{register_service_lem}
use service_recovery_schedul.Daemon.{
  Call, Reply, System, registers, unregisters, reports, owner_changed, registered, silent, handle,
  serve,
}
use service_recovery_schedul.Daemon.Invariant.{IsDaemon}
use service_recovery_schedul.Daemon.Loss.{find_peer-none, find_peer-some, not-empty}
use service_recovery_schedul.Daemon.Serve.{FitsCall, handle-IsDaemon}
use service_recovery_schedul.Journal.{register_log, watch_log, loss_log, call_log, serve_log}
use service_recovery_schedul.Journal.Errors.{
  errors, errors-append, errors-failure_log, errors-report_log, errors-watch_log,
  errors-register_log,
}

-- a reply that refuses a registration
abbrev refusal : Reply → ℕ
refusal (registered RegisterResult.invalid_name) = 1
refusal _ = 0

abbrev pub refusals : List Reply → ℕ
refusals [] = 0
refusals (reply ∷ rest) = refusal reply + refusals rest

-- a peer is recorded under the bus name
abbrev knows : String → Map PeerInfo → Bool
knows bus [] = false
knows bus ((service, peer) ∷ rest) =
    if str_eq peer.unique_bus_name bus then true else knows bus rest

-- a call that tells that a peer is lost
abbrev loss : Call → Map PeerInfo → ℕ
loss (owner_changed bus old_owner new_owner) peers =
    if str_eq new_owner "" then if knows bus peers then 1 else 0 else 0
loss _ peers = 0

abbrev pub losses :
    {Connection Token : Type 0}
    → Iteration PeerInfo
    → List (Platform Connection Token × Call)
    → System Connection Token
    → ℕ
losses order [] sys = 0
losses order ((platform, call) ∷ rest) sys =
    loss call sys.0.service_to_bus_name + (elim (handle order platform call sys) [
      | undefined ↦ 0
      | ok (reply, sys') ↦ losses order rest sys'
    ])

knows-Has :
    (bus service : String) (peer : PeerInfo) (peers : Map PeerInfo)
    → Has service peer peers
    → peer.unique_bus_name ≡ bus
    → knows bus peers ≡ true
knows-Has bus service peer [] i h = absurd i
knows-Has bus service peer ((j, p) ∷ rest) (inl e) h =
    let same : p.unique_bus_name ≡ bus = ap (λ (x : PeerInfo). x.unique_bus_name) e.1 ∙ h in
    rw ((eq_iff p.unique_bus_name bus).1 same) refl
knows-Has bus service peer ((j, p) ∷ rest) (inr i) h =
    ground (arith, knows-Has bus service peer rest i h)

knows-none :
    (bus : String) (peers : Map PeerInfo)
    → ((service : String) (peer : PeerInfo)
        → Has service peer peers
        → str_eq peer.unique_bus_name bus ≡ false)
    → knows bus peers ≡ false
knows-none bus [] h = refl
knows-none bus ((j, p) ∷ rest) h =
    rw (h j p (inl (refl, refl))) (knows-none bus rest (λ service peer i. h service peer (inr i)))

refusal-registered :
    (accepted : Bool)
    → refusal (registered (if accepted then RegisterResult.ok else RegisterResult.invalid_name))
      ≡ (if accepted then 0 else 1)
refusal-registered true = refl
refusal-registered false = refl

module _ {Connection Token : Type 0} (order : Iteration ServiceRecoveryInfo)
    (peer_order : Iteration PeerInfo) (platform : Platform Connection Token) where
  -- the refusals among the outcome of a call
  abbrev outcome_refusal : Outcome (Reply × System Connection Token) → ℕ
  outcome_refusal undefined = 0
  outcome_refusal (ok (reply, sys)) = refusal reply

  owner_changed-errors :
      (bus old_owner new_owner : String) (sys : System Connection Token) (s : Services)
      → IsDaemon order sys s
      → errors (call_log order peer_order platform (owner_changed bus old_owner new_owner) sys)
        ≡ loss (owner_changed bus old_owner new_owner) sys.0.service_to_bus_name
  unfolding call_log loss_log
  owner_changed-errors bus old_owner new_owner (stub, m) s v =
      elim (Bool-cases (str_eq new_owner "")) [
        | inr f ↦ rw f refl
        | inl t ↦
            let peers = stub.service_to_bus_name in
            elim (Option-cases (find_peer peer_order bus peers)) [
              | inl h ↦
                  let none_there = find_peer-none peer_order bus peers v.unique h in
                  let k = knows-none bus peers (λ service peer i.
                    let n = none_there service peer (lookup-Has service peer peers v.unique i) in
                    ground (arith, eq_iff peer.unique_bus_name bus)) in
                  rw (t, h, k) refl
              | inr ((service, peer), h) ↦
                  let (l, b) = find_peer-some peer_order bus peers v.unique service peer h in
                  let (x, e, on) = v.online service peer l in
                  let k = knows-Has bus service peer peers (Has-of_lookup service peer peers l) b in
                  rw (t, h, not-empty service (v.listed service x e), k)
                    (ap suc (errors-failure_log order service m))
            ]
      ]

  registers-errors :
      (client : ClientId) (name : String) (actions : List ℕ) (interval : ℤ)
      → (sys : System Connection Token) (s : Services) → IsDaemon order sys s
      → errors (call_log order peer_order platform (registers client name actions interval) sys)
        ≡ outcome_refusal (handle peer_order platform (registers client name actions interval) sys)
  unfolding call_log handle
  registers-errors client name actions interval (stub, m) s v =
      let bus = extract_dbus_unique_name client in
      let pid = query_unix_pid_for_bus_name platform stub.signal_conn bus in
      let done = on_register_service name (translate [] actions) interval pid m in
      let replied =
        register_service_lem stub m on_register_service platform client name actions interval done.0
          done.1 v.wired.registers refl in
      omega (
        arith,
        errors-append (register_log name pid m) (watch_log done.0 name bus pid),
        errors-watch_log done.0 name bus pid,
        errors-register_log name (translate [] actions) interval pid m,
        refusal-registered done.0,
        ap (λ r. refusal (registered r.0)) replied,
      )

  call-errors :
      (call : Call) (sys sys' : System Connection Token) (s : Services) (reply : Reply)
      → IsDaemon order sys s
      → handle peer_order platform call sys ≡ ok (reply, sys')
      → errors (call_log order peer_order platform call sys)
        ≡ refusal reply + loss call sys.0.service_to_bus_name
  unfolding call_log handle
  call-errors (registers client name actions interval) sys sys' s reply v h =
      omega (arith, registers-errors client name actions interval sys s v, ap outcome_refusal h)
  call-errors (unregisters client name) sys sys' s reply v h =
      let e : 0 ≡ refusal reply = ap outcome_refusal h in omega (arith, e)
  call-errors (reports client name current last) (stub, m) sys' s reply v h =
      let e : 0 ≡ refusal reply = ap outcome_refusal h in
      omega (arith, e, errors-report_log name (from_wire current) (from_wire last) m)
  call-errors (owner_changed bus old_owner new_owner) sys sys' s reply v h =
      let (mid, _, e) =
        bind-ok (handle_name_owner_changed peer_order bus old_owner new_owner sys)
          (λ sys'. ok (silent, sys')) h in
      let q : 0 ≡ refusal reply = ap outcome_refusal e in
      omega (arith, q, owner_changed-errors bus old_owner new_owner sys s v)

module _ {Connection Token : Type 0} (order : Iteration ServiceRecoveryInfo)
    (peer_order : Iteration PeerInfo) where
  -- From a state in which the process's invariant holds, every sequence of calls (with policies of at
  -- most 127 actions) is served, and the messages of the level "error" that its handlers come to
  -- are as many as the registrations that are refused and the lost peers together: the calls that
  -- tell, when they are handled, of a bus name under which a peer is recorded.
  pub serve-errors :
      (calls : List (Platform Connection Token × Call)) (sys : System Connection Token)
      (s : Services)
      → IsDaemon order sys s
      → All (λ p. FitsCall p.1) calls
      → (replies : List Reply) × (sys' : System Connection Token) × (serve peer_order calls sys
          ≡ ok (replies, sys'))
        × (errors (serve_log order peer_order calls sys)
            ≡ refusals replies + losses peer_order calls sys)
  unfolding serve serve_log
  serve-errors [] sys s v h = ([], sys, refl, omega arith)
  serve-errors ((platform, call) ∷ rest) sys s v h =
      let (reply, sys', s', e, v') = handle-IsDaemon order peer_order call platform sys s v h.0 in
      let (replies, last, e', k) = serve-errors rest sys' s' v' h.1 in
      let one = call-errors order peer_order platform call sys sys' s reply v e in
      let both =
        errors-append (call_log order peer_order platform call sys)
          (serve_log order peer_order rest sys') in
      (reply ∷ replies, last, rw e (rw e' refl), rw e (omega (arith, one, k, both)))
