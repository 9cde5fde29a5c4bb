-- ===== src/Handlers/Entering.antt =====
-- A call that begins while no other handler is about its service.
use service_recovery_schedul.Base.{
  ℕ, set, ◌≤◌, ◌≡◌, refl, ◌⊎◌, inl, inr, String, Bool, true, Option, none, some, List, [], arith,
  str_eq, eq_iff, eq_refl, length, if◌then◌else◌, Bool-cases, Option-cases,
}
use service_recovery_schedul.Base.Int.{ℤ}
use service_recovery_schedul.Base.Map
use service_recovery_schedul.Base.Map.{Map, Iteration, Unique, lookup, erase, lookup-erase}
use service_recovery_schedul.States.{RecoveryState, is_unknown}
use service_recovery_schedul.Service.{ServiceRecoveryInfo}
use service_recovery_schedul.Scheduler.{
  Registry, on_register_service, on_unregister_service, on_report_service_state,
}
use service_recovery_schedul.Scheduler.Spec.{
  Entry, Services, at, is_listed, is_registered, register_entry, report_entry,
}
use service_recovery_schedul.Scheduler.Refinement.{Refines}
use service_recovery_schedul.Scheduler.Implements.{register-Does, unregister-Does, report-Does}
use service_recovery_schedul.Wire.{ClientId, translate, from_wire}
use service_recovery_schedul.Wire.Casts.{length-translate}
use service_recovery_schedul.Stub.{Platform, PeerInfo, find_peer, drop_peer}
use service_recovery_schedul.Stub.Methods.{peer_pid, report_service_state_lem}
use service_recovery_schedul.Daemon.{Call, registers, unregisters, reports, owner_changed, silent}
use service_recovery_schedul.Daemon.Invariant.{NamesListed, listed-at}
use service_recovery_schedul.Daemon.Registration.{accepted, refused, registered-Listed}
use service_recovery_schedul.Daemon.Calls.{dropped-IsWired, reported-Listed}
use service_recovery_schedul.Daemon.Loss.{find_peer-some}
use service_recovery_schedul.Daemon.Serve.{FitsCall}
use service_recovery_schedul.Handlers.{Work, erasing, driving, begin_call}
use service_recovery_schedul.Handlers.Steps.{Process, Busy, IsFree, Apart}
use service_recovery_schedul.Handlers.Overlap.{
  Online, IsOverlap, Pending, free-not-Busy, moved-IsOverlap, idled,
}
use service_recovery_schedul.Handlers.Writes.{at-OnlyAt, erase-OnlyAt, erase-gone}
use service_recovery_schedul.Handlers.Begins.{
  begin_register_lem, begin_unregister_lem, begin_owner_unknown, begin_owner_lost,
}

module _ {Connection Token : Type 0} (order : Iteration ServiceRecoveryInfo)
    (peer_order : Iteration PeerInfo) (p : Process Connection Token) (s : Services)
    (v : IsOverlap order p s) (i : ℕ) (free : IsFree (p.thread i)) where
  abbrev peers : Map PeerInfo
  peers = p.system.0.service_to_bus_name

  -- the process after the first part of a call
  abbrev pub begun : Platform Connection Token → Call → Process Connection Token
  begun platform call = record {
    system = (begin_call peer_order platform call p.system).1;
    thread = set p.thread i (begin_call peer_order platform call p.system).0;
  }

  -- Other services stay, and none of the other threads is about this one.
  stepped :
      (name : String) (x : Option Entry) (w : Work) (m' : Registry)
      → ((j : ℕ) → ¬ Busy name (p.thread j))
      → ((service : String) → Busy service w → name ≡ service)
      → Refines m' (at name x s)
      → NamesListed (at name x s)
      → Pending w peers (at name x s)
      → ((peer : PeerInfo)
          → lookup name peers ≡ some peer
          → Online (at name x s) name ⊎ (w ≡ erasing name))
      → IsOverlap order
          (record { system = (p.system.0, m'); thread = set p.thread i w })
          (at name x s)
  stepped name x w m' apart is r l pending online =
      moved-IsOverlap order p s v i w name (p.system.0, m') (at name x s)
        (λ service b. absurd (free-not-Busy (p.thread i) service free b)) is (λ j n. apart j)
        (at-OnlyAt name x peers s) v.wired r v.unique l pending online

  -- a peer's service that no thread is about is online
  settled :
      (name : String) (peer : PeerInfo)
      → ((j : ℕ) → ¬ Busy name (p.thread j))
      → lookup name peers ≡ some peer
      → Online s name
  settled name peer apart l = elim (v.online name peer l) [
    | inl on ↦ on
    | inr (j, e) ↦ absurd (apart j (rw e refl))
  ]

  missing : {name : String} → Online s name → s name ≡ none → ⊥
  missing (e, q, on) h = cc

  register-IsOverlap :
      (platform : Platform Connection Token) (client : ClientId) (name : String) (wire : List ℕ)
      (interval : ℤ)
      → length wire ≤ 127
      → ((j : ℕ) → ¬ Busy name (p.thread j))
      → (s' : Services) × IsOverlap order (begun platform (registers client name wire interval)) s'
  register-IsOverlap platform client name wire interval h apart =
      let pid = peer_pid p.system.0 p.system.1 platform client in
      let actions : List RecoveryState = translate [] wire in
      let b : Bool = if is_registered (s name) then true else is_listed name in
      let l : length actions ≤ 127 = omega (arith, length-translate wire) in
      let (m', go, r) = register-Does v.refines name actions interval pid l in
      let e : on_register_service name actions interval pid p.system.1 ≡ (b, m') = cc in
      let eq =
        begin_register_lem order peer_order platform p.system.0 p.system.1 client name wire interval
          b m' v.wired.registers e in
      let names =
        listed-at s v.listed name _ (registered-Listed s v.listed name actions interval) in
      let x = register_entry (is_listed name) actions interval (s name) in
      (
        at name x s,
        rw eq (elim (Bool-cases b) [
          | inl t ↦
              let (y, q, on) = accepted s name actions interval t in
              let here : Online (at name x s) name = (y, rw (eq_refl name) q, on) in
              rw t (stepped name x _ m' apart (λ service k. k) r names here (λ peer k. inl here))
          | inr f ↦
              let (none_yet, _) = refused s name actions interval f in
              rw f (
                stepped name x _ m' apart (λ service k. absurd k) r names tt
                  (λ peer k. let on = settled name peer apart k in absurd (missing on none_yet)))
        ]),
      )

  unregister-IsOverlap :
      (platform : Platform Connection Token) (client : ClientId) (name : String)
      → ((j : ℕ) → ¬ Busy name (p.thread j))
      → (s' : Services) × IsOverlap order (begun platform (unregisters client name)) s'
  unregister-IsOverlap platform client name apart =
      let b : Bool = is_registered (s name) in
      let (m', go, r) = unregister-Does v.refines order name in
      let e : on_unregister_service order name p.system.1 ≡ (b, m') = cc in
      let eq =
        begin_unregister_lem order peer_order platform p.system.0 p.system.1 client name b m'
          v.wired.unregisters e in
      let names : NamesListed (at name none s) =
        listed-at s v.listed name none (λ y h. absurd (cc)) in
      let gone : at name none s name ≡ none = rw (eq_refl name) refl in
      (
        at name none s,
        rw eq (elim (Option-cases (s name)) [
          | inr (y, q) ↦
              rw q (stepped name none _ m' apart (λ service k. k) r names gone (λ peer k. inr refl))
          | inl q ↦ rw q (
              stepped name none _ m' apart (λ service k. absurd k) r names tt
                (λ peer k. let on = settled name peer apart k in absurd (missing on q)))
        ]),
      )

  report-IsOverlap :
      (platform : Platform Connection Token) (client : ClientId) (name : String) (current last : ℕ)
      → ((j : ℕ) → ¬ Busy name (p.thread j))
      → (s' : Services) × IsOverlap order (begun platform (reports client name current last)) s'
  unfolding begin_call
  report-IsOverlap platform client name current last apart =
      let b : Bool = is_registered (s name) in
      let (m', go, r) = report-Does v.refines name (from_wire current) (from_wire last) in
      let e : on_report_service_state name (from_wire current) (from_wire last) p.system.1
          ≡ (b, m') =
        cc in
      let eq =
        report_service_state_lem p.system.0 p.system.1 on_report_service_state client name current
          last b m' v.wired.reports e in
      let x = report_entry (from_wire current) (from_wire last) (s name) in
      let names =
        listed-at s v.listed name x
          (reported-Listed s v.listed name (from_wire current) (from_wire last)) in
      (
        at name x s,
        rw eq (
            stepped name x _ m' apart (λ service k. absurd k) r names tt
              (λ peer k.
                let (y, q, on) = settled name peer apart k in
                inl (
                  record y {
                    current = from_wire current;
                    last = if is_unknown (from_wire last) then y.last else from_wire last;
                  },
                  rw (eq_refl name, q) refl,
                  on,
                ))),
      )

  lost-IsOverlap :
      (service : String) (peer : PeerInfo)
      → ((j : ℕ) → ¬ Busy service (p.thread j))
      → lookup service peers ≡ some peer
      → IsOverlap order
          (record {
            system = (drop_peer service p.system.0, p.system.1);
            thread = set p.thread i (driving service);
          })
          s
  unfolding drop_peer
  lost-IsOverlap service peer apart l =
      let (y, q, on) = settled service peer apart l in
      moved-IsOverlap order p s v i (driving service) service
        (drop_peer service p.system.0, p.system.1) s
        (λ name b. absurd (free-not-Busy (p.thread i) name free b)) (λ name b. b) (λ k n. apart k)
        (erase-OnlyAt service peers s v.unique) (dropped-IsWired p.system.0 order service v.wired)
        v.refines (Map.erase-Unique service peers v.unique) v.listed
        ((y, q), erase-gone service peers v.unique)
        (λ k h. absurd (cc (erase-gone service peers v.unique)))

  owner_changed-IsOverlap :
      (platform : Platform Connection Token) (bus old_owner new_owner : String)
      → Apart p (owner_changed bus old_owner new_owner)
      → (s' : Services) × IsOverlap order
          (begun platform (owner_changed bus old_owner new_owner))
          s'
  unfolding begin_call
  owner_changed-IsOverlap platform bus old_owner new_owner apart =
      elim (Bool-cases (str_eq new_owner "")) [
        | inr f ↦ (s, rw f (idled order p s v i free silent))
        | inl t ↦
            rw ((eq_iff new_owner "").0 t) (elim (Option-cases (find_peer peer_order bus peers)) [
              | inl h ↦ (
                s,
                rw
                    (begin_owner_unknown order peer_order platform p.system.0 p.system.1 bus
                      old_owner h)
                    (idled order p s v i free silent),
              )
              | inr ((service, peer), h) ↦
                  let (l, known) = find_peer-some peer_order bus peers v.unique service peer h in
                  (
                    s,
                    rw
                        (begin_owner_lost order peer_order platform p.system.0 p.system.1 bus
                          old_owner service peer h)
                        (lost-IsOverlap service peer (λ j. apart j service (peer, l, known)) l),
                  )
            ])
      ]

  pub begun-IsOverlap :
      (platform : Platform Connection Token) (call : Call)
      → FitsCall call
      → Apart p call
      → (s' : Services) × IsOverlap order (begun platform call) s'
  begun-IsOverlap platform (registers client name wire interval) h apart =
      register-IsOverlap platform client name wire interval h (λ j. apart j name refl)
  begun-IsOverlap platform (unregisters client name) h apart =
      unregister-IsOverlap platform client name (λ j. apart j name refl)
  begun-IsOverlap platform (reports client name current last) h apart =
      report-IsOverlap platform client name current last (λ j. apart j name refl)
  begun-IsOverlap platform (owner_changed bus old_owner new_owner) h apart =
      owner_changed-IsOverlap platform bus old_owner new_owner apart
