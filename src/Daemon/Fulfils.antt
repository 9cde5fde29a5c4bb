-- ===== src/Daemon/Fulfils.antt =====
-- The process keeps its contract.
use service_recovery_schedul.Base.{
  ℕ, ◌≤◌, ◌≡◌, refl, sym, ap, ◌∙◌, inl, inr, String, none, some, List, [], ◌∷◌, map, Outcome, ok,
  str_eq, eq_iff, length, Bool-cases, Option-cases,
}
use service_recovery_schedul.Base.Int.{ℤ}
use service_recovery_schedul.Base.Map.{Iteration}
use service_recovery_schedul.Service.{ServiceRecoveryInfo}
use service_recovery_schedul.Scheduler.{Registry}
use service_recovery_schedul.Scheduler.Spec.{at, All, is_listed, register_entry}
use service_recovery_schedul.Wire.{
  RegisterResult, UnregisterResult, QueryResult, ClientId, translate, extract_dbus_unique_name,
}
use service_recovery_schedul.Stub.{Platform, PeerInfo, Stub, record_peer, drop_peer}
use service_recovery_schedul.Stub.Methods.{peer_pid, owner_kept}
use service_recovery_schedul.Daemon.{
  Call, Reply, System, registers, unregisters, reports, owner_changed, registered, unregistered,
  reported, silent, handle, serve,
}
use service_recovery_schedul.Daemon.Invariant.{IsDaemon}
use service_recovery_schedul.Daemon.Registration.{refused, register-IsDaemon}
use service_recovery_schedul.Daemon.Calls.{unregister-IsDaemon, report-IsDaemon}
use service_recovery_schedul.Daemon.Loss.{name_lost}
use service_recovery_schedul.Daemon.Serve.{FitsCall}
use service_recovery_schedul.Daemon.Contract
use service_recovery_schedul.Daemon.Contract.{
  Peers, point, recorded, Board, no_board, accepts, Handles, Serves,
}
use service_recovery_schedul.Daemon.Models.{
  Models, record_peer-recorded, drop_peer-point, NoPeer-point, at_same,
}

module _ {Connection Token : Type 0} (order : Iteration ServiceRecoveryInfo)
    (peer_order : Iteration PeerInfo) (platform : Platform Connection Token) where
  abbrev answered :
      {R : Type 0}
      → (R → Reply)
      → R × System Connection Token
      → Outcome (Reply × System Connection Token)
  answered f r = ok (f r.0, r.1)

  -- the call is handled as the contract has it
  abbrev pub Fulfils : Call → System Connection Token → Board → Type 0
  Fulfils call sys a =
      (reply : Reply) × (sys' : System Connection Token) × (b : Board) × (handle peer_order platform
          call sys
        ≡ ok (reply, sys'))
      × Handles a call reply b
      × Models order sys' b

  module _ (stub : Stub Registry Connection Token) (m : Registry) (a : Board)
      (v : Models order (stub, m) a) where
    register-Fulfils :
        (client : ClientId) (name : String) (wire : List ℕ) (interval : ℤ)
        → length wire ≤ 127
        → Fulfils (registers client name wire interval) (stub, m) a
    unfolding handle
    register-Fulfils client name wire interval h =
        let bus = extract_dbus_unique_name client in
        let actions = translate [] wire in
        let s = a.services in
        let (m', e, v') =
          register-IsDaemon order stub m s v.valid platform client name wire interval h in
        let replied = ap (answered registered) e in
        elim (Bool-cases (accepts name s)) [
          | inl t ↦
              let pid = peer_pid stub m platform client in
              let w : IsDaemon order (record_peer name bus pid stub, m')
                  (at name (register_entry (is_listed name) actions interval (s name)) s) =
                rw t at v' in
              (
                registered RegisterResult.ok,
                (record_peer name bus pid stub, m'),
                _,
                replied ∙ rw t refl,
                Contract.accepted client name wire interval t,
                record {
                  valid = w;
                  known = record_peer-recorded stub a.peers v.known name bus pid;
                },
              )
          | inr f ↦
              let (n, q) = refused s name actions interval f in
              let same : at name (register_entry (is_listed name) actions interval (s name)) s ≡ s =
                ap (λ x. at name x s) (q ∙ sym n) ∙ at_same name s in
              let w : IsDaemon order (stub, m') s = rw (f, same) at v' in
              (
                registered RegisterResult.invalid_name,
                (stub, m'),
                a,
                replied ∙ rw f refl,
                Contract.refused client name wire interval f,
                record { valid = w; known = v.known },
              )
        ]

    unregister-Fulfils :
        (client : ClientId) (name : String) → Fulfils (unregisters client name) (stub, m) a
    unfolding handle
    unregister-Fulfils client name =
        let s = a.services in
        let (m', e, v') = unregister-IsDaemon order stub m s v.valid client name in
        let replied = ap (answered unregistered) e in
        elim (Option-cases (s name)) [
          | inr (x, n) ↦
              let w : IsDaemon order (drop_peer name stub, m') (at name none s) = rw n at v' in
              (
                unregistered UnregisterResult.ok,
                (drop_peer name stub, m'),
                _,
                replied ∙ rw n refl,
                Contract.removed client name (rw n refl),
                record {
                  valid = w;
                  known = drop_peer-point stub a.peers v.known order m s v.valid name;
                },
              )
          | inl n ↦
              let same : at name none s ≡ s = ap (λ x. at name x s) (sym n) ∙ at_same name s in
              let w : IsDaemon order (stub, m') s = rw (n, same) at v' in
              (
                unregistered UnregisterResult.not_found,
                (stub, m'),
                a,
                replied ∙ rw n refl,
                Contract.not_removed client name (rw n refl),
                record { valid = w; known = v.known },
              )
        ]

    report-Fulfils :
        (client : ClientId) (name : String) (current last : ℕ)
        → Fulfils (reports client name current last) (stub, m) a
    unfolding handle
    report-Fulfils client name current last =
        let s = a.services in
        let (m', e, v') = report-IsDaemon order stub m s v.valid client name current last in
        let replied = ap (answered reported) e in
        elim (Option-cases (s name)) [
          | inr (x, n) ↦ (
            reported QueryResult.ok,
            (stub, m'),
            _,
            replied ∙ rw n refl,
            Contract.stored client name current last (rw n refl),
            record { valid = v'; known = v.known },
          )
          | inl n ↦
              let same : at name none s ≡ s = ap (λ x. at name x s) (sym n) ∙ at_same name s in
              let w : IsDaemon order (stub, m') s = rw (n, same) at v' in
              (
                reported QueryResult.not_found,
                (stub, m'),
                a,
                replied ∙ rw n refl,
                Contract.not_stored client name current last (rw n refl),
                record { valid = w; known = v.known },
              )
        ]

    lost-Fulfils : (bus old_owner : String) → Fulfils (owner_changed bus old_owner "") (stub, m) a
    unfolding handle
    lost-Fulfils bus old_owner =
        elim (name_lost order peer_order stub m a.services v.valid bus old_owner) [
          | inl (n, e) ↦ (
            silent,
            (stub, m),
            a,
            rw e refl,
            Contract.stranger bus old_owner (NoPeer-point stub a.peers v.known bus n),
            v,
          )
          | inr (service, peer, l, b, (m', e, v')) ↦ (
            silent,
            (drop_peer service stub, m'),
            _,
            rw e refl,
            Contract.failed bus old_owner service (sym (v.known service) ∙ rw l (ap some b)),
            record {
              valid = v';
              known = drop_peer-point stub a.peers v.known order m a.services v.valid service;
            },
          )
        ]

    owner_changed-Fulfils :
        (bus old_owner new_owner : String)
        → Fulfils (owner_changed bus old_owner new_owner) (stub, m) a
    unfolding handle
    owner_changed-Fulfils bus old_owner new_owner = elim (Bool-cases (str_eq new_owner "")) [
      | inl t ↦ rw ((eq_iff new_owner "").0 t) (lost-Fulfils bus old_owner)
      | inr f ↦ (
        silent,
        (stub, m),
        a,
        rw (owner_kept stub m peer_order bus old_owner new_owner f) refl,
        Contract.still_owned bus old_owner new_owner f,
        v,
      )
    ]

  pub handle-Fulfils :
      (call : Call) (sys : System Connection Token) (a : Board)
      → Models order sys a
      → FitsCall call
      → Fulfils call sys a
  handle-Fulfils (registers client name actions interval) (stub, m) a v h =
      register-Fulfils stub m a v client name actions interval h
  handle-Fulfils (unregisters client name) (stub, m) a v h =
      unregister-Fulfils stub m a v client name
  handle-Fulfils (reports client name current last) (stub, m) a v h =
      report-Fulfils stub m a v client name current last
  handle-Fulfils (owner_changed bus old_owner new_owner) (stub, m) a v h =
      owner_changed-Fulfils stub m a v bus old_owner new_owner

module _ {Connection Token : Type 0} (order : Iteration ServiceRecoveryInfo)
    (peer_order : Iteration PeerInfo) where
  -- the calls alone, without the platforms on which they are handled
  pub serve-Fulfils :
      (calls : List (Platform Connection Token × Call)) (sys : System Connection Token) (a : Board)
      → Models order sys a
      → All (λ p. FitsCall p.1) calls
      → (replies : List Reply) × (sys' : System Connection Token) × (b : Board) × (serve peer_order
            calls sys
          ≡ ok (replies, sys'))
        × Serves (map (λ p. p.1) calls) a replies b
        × Models order sys' b
  unfolding serve
  serve-Fulfils [] sys a v h = ([], sys, a, refl, Contract.done, v)
  serve-Fulfils ((platform, call) ∷ rest) sys a v h =
      let (reply, sys', b, e, one, v') =
        handle-Fulfils order peer_order platform call sys a v h.0 in
      let (replies, last, c, e', more, v'') = serve-Fulfils rest sys' b v' h.1 in
      (reply ∷ replies, last, c, rw e (rw e' refl), Contract.next one more, v'')
