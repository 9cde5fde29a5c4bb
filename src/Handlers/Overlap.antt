-- ===== src/Handlers/Overlap.antt =====
-- What holds of the process while handlers overlap, as long as no two of them are about one service.
use service_recovery_schedul.Base.{
  ℕ, set, ◌≡◌, ◌≢◌, refl, sym, ◌∙◌, ◌⊎◌, inl, inr, String, true, none, some, arith, ◌==◌, str_eq,
  eq_iff, Bool-cases,
}
use service_recovery_schedul.Base.Map.{Map, Iteration, Unique, lookup}
use service_recovery_schedul.Service.{ServiceRecoveryInfo}
use service_recovery_schedul.Scheduler.Spec.{Entry, Services}
use service_recovery_schedul.Scheduler.Refinement.{Refines}
use service_recovery_schedul.Stub.{PeerInfo}
use service_recovery_schedul.Daemon.{System, Reply}
use service_recovery_schedul.Daemon.Invariant.{IsWired, IsDaemon, NamesListed}
use service_recovery_schedul.Handlers.{Work, answered, recording, erasing, driving}
use service_recovery_schedul.Handlers.Steps.{Process, Busy, IsFree}

abbrev pub Online : Services → String → Type 0
Online s name = (e : Entry) × (s name ≡ some e) × (e.is_online ≡ true)

-- what a thread with this work left may rely on
abbrev pub Pending : Work → Map PeerInfo → Services → Type 0
Pending (answered reply) peers s = Unit
Pending (recording name bus pid) peers s = Online s name
Pending (erasing name) peers s = s name ≡ none
Pending (driving name) peers s = ((e : Entry) × (s name ≡ some e)) × (lookup name peers ≡ none)

pub free-Pending : (w : Work) (peers : Map PeerInfo) (s : Services) → IsFree w → Pending w peers s
free-Pending (answered reply) peers s h = tt
free-Pending (recording name bus pid) peers s h = absurd h
free-Pending (erasing name) peers s h = absurd h
free-Pending (driving name) peers s h = absurd h

pub free-not-Busy : (w : Work) (service : String) → IsFree w → ¬ Busy service w
free-not-Busy (answered reply) service h b = b
free-not-Busy (recording name bus pid) service h b = h
free-not-Busy (erasing name) service h b = h
free-not-Busy (driving name) service h b = h

-- Peers and services that differ from others at one name only.
module _ (name : String) (peers peers' : Map PeerInfo) (s s' : Services) where
  abbrev pub OnlyAt : Type 0
  OnlyAt =
      (other : String)
      → name ≢ other
      → (s' other ≡ s other) × (lookup other peers' ≡ lookup other peers)

  Pending-OnlyAt : (w : Work) → OnlyAt → ¬ Busy name w → Pending w peers s → Pending w peers' s'
  Pending-OnlyAt (answered reply) o n h = tt
  Pending-OnlyAt (recording other bus pid) o n (e, f, on) =
      (e, (o other (λ q. n (sym q))).0 ∙ f, on)
  Pending-OnlyAt (erasing other) o n h = (o other (λ q. n (sym q))).0 ∙ h
  Pending-OnlyAt (driving other) o n ((e, f), g) =
      let (k, l) = o other (λ q. n (sym q)) in ((e, k ∙ f), l ∙ g)

module _ {Connection Token : Type 0} (order : Iteration ServiceRecoveryInfo) where
  pub record IsOverlap (p : Process Connection Token) (s : Services) : Type 0 where
    pub wired : IsWired order p.system.0
    pub refines : Refines p.system.1 s
    pub unique : Unique p.system.0.service_to_bus_name
    pub listed : NamesListed s
    pub pending : (i : ℕ) → Pending (p.thread i) p.system.0.service_to_bus_name s
    pub online :
        (name : String) (peer : PeerInfo)
        → lookup name p.system.0.service_to_bus_name ≡ some peer
        → Online s name ⊎ ((i : ℕ) × (p.thread i ≡ erasing name))
    pub exclusive :
        (i j : ℕ) (service : String) → Busy service (p.thread i) → Busy service (p.thread j) → i ≡ j

  -- Where no thread has work left, this is the invariant of the process.
  pub IsOverlap-IsDaemon :
      (p : Process Connection Token) (s : Services)
      → IsOverlap p s
      → ((i : ℕ) → IsFree (p.thread i))
      → IsDaemon order p.system s
  IsOverlap-IsDaemon p s v free = record {
    wired = v.wired;
    refines = v.refines;
    unique = v.unique;
    listed = v.listed;
    online = λ name peer l. elim (v.online name peer l) [
      | inl on ↦ on
      | inr (i, e) ↦ absurd (rw e at (free i))
    ];
  }

  pub IsDaemon-IsOverlap :
      (p : Process Connection Token) (s : Services)
      → IsDaemon order p.system s
      → ((i : ℕ) → IsFree (p.thread i))
      → IsOverlap p s
  IsDaemon-IsOverlap p s v free = record {
    wired = v.wired;
    refines = v.refines;
    unique = v.unique;
    listed = v.listed;
    online = λ name peer l. inl (v.online name peer l);
    pending = λ i. free-Pending (p.thread i) p.system.0.service_to_bus_name s (free i);
    exclusive = λ i j service b b'. absurd (free-not-Busy (p.thread i) service (free i) b);
  }

  -- A thread without work answers anew.
  pub idled :
      (p : Process Connection Token) (s : Services)
      → IsOverlap p s
      → (i : ℕ) → IsFree (p.thread i)
      → (reply : Reply)
      → IsOverlap (record { system = p.system; thread = set p.thread i (answered reply) }) s
  idled p s v i free reply = record {
    wired = v.wired;
    refines = v.refines;
    unique = v.unique;
    listed = v.listed;
    pending = λ j. elim (Bool-cases (i == j)) [ inl t ↦ rw t tt | inr f ↦ rw f (v.pending j) ];
    online = λ name peer l. elim (v.online name peer l) [
      | inl on ↦ inl on
      | inr (j, e) ↦ elim (Bool-cases (i == j)) [
        | inl t ↦ let q : i ≡ j = ground arith in absurd (rw (q, e) at free)
        | inr f ↦ inr (j, rw f e)
      ]
    ];
    exclusive = λ j k service b b'. elim (Bool-cases (i == j)) [
      | inl t ↦ absurd (rw t at b)
      | inr f ↦ elim (Bool-cases (i == k)) [
        | inl t' ↦ absurd (rw t' at b')
        | inr f' ↦ v.exclusive j k service (rw f at b) (rw f' at b')
      ]
    ];
  }

  -- A thread that has no work but on one service moves, and only this service and its peer change.
  module _ (p : Process Connection Token) (s : Services) (v : IsOverlap p s) (i : ℕ) (w : Work)
      (name : String) (sys : System Connection Token) (s' : Services) where
    abbrev pub moved : Process Connection Token
    moved = record { system = sys; thread = set p.thread i w }

    module _ (was : (service : String) → Busy service (p.thread i) → name ≡ service)
        (is : (service : String) → Busy service w → name ≡ service)
        (alone : (j : ℕ) → i ≢ j → ¬ Busy name (p.thread j))
        (only : OnlyAt name p.system.0.service_to_bus_name sys.0.service_to_bus_name s s') where
      moved-Pending :
          Pending w sys.0.service_to_bus_name s'
          → (j : ℕ) → Pending (moved.thread j) sys.0.service_to_bus_name s'
      moved-Pending h j = elim (Bool-cases (i == j)) [
        | inl t ↦ rw t h
        | inr f ↦ rw f (
            Pending-OnlyAt name p.system.0.service_to_bus_name sys.0.service_to_bus_name s s'
              (p.thread j) only (alone j (ground arith)) (v.pending j))
      ]

      moved-Online :
          ((peer : PeerInfo)
            → lookup name sys.0.service_to_bus_name ≡ some peer
            → Online s' name ⊎ (w ≡ erasing name))
          → (other : String) (peer : PeerInfo) → lookup other sys.0.service_to_bus_name ≡ some peer
          → Online s' other ⊎ ((j : ℕ) × (moved.thread j ≡ erasing other))
      moved-Online h other peer l = elim (Bool-cases (str_eq name other)) [
        | inl t ↦
            let q : name ≡ other = (eq_iff name other).0 t in
            let r : (i == i) ≡ true = ground arith in
            rw (← q) (elim (h peer (rw (← q) at l)) [ inl on ↦ inl on | inr e ↦ inr (i, rw r e) ])
        | inr f ↦
            let n : name ≢ other = ground (arith, eq_iff name other) in
            elim (v.online other peer (sym (only other n).1 ∙ l)) [
              | inl (e, g, on) ↦ inl (e, (only other n).0 ∙ g, on)
              | inr (j, e) ↦ elim (Bool-cases (i == j)) [
                | inl same ↦ let q : i ≡ j = ground arith in absurd (n (was other (rw (q, e) refl)))
                | inr differ ↦ inr (j, rw differ e)
              ]
            ]
      ]

      moved_exclusive :
          (j k : ℕ) (service : String)
          → Busy service (moved.thread j)
          → Busy service (moved.thread k)
          → j ≡ k
      moved_exclusive j k service b b' = elim (Bool-cases (i == j)) [
        | inl t ↦
            let about : name ≡ service = is service (rw t at b) in
            elim (Bool-cases (i == k)) [
              | inl t' ↦ ground arith
              | inr f' ↦ absurd (alone k (ground arith) (rw (← about) at (rw f' at b')))
            ]
        | inr f ↦ elim (Bool-cases (i == k)) [
          | inl t' ↦
              let about : name ≡ service = is service (rw t' at b') in
              absurd (alone j (ground arith) (rw (← about) at (rw f at b)))
          | inr f' ↦ v.exclusive j k service (rw f at b) (rw f' at b')
        ]
      ]

      -- the process after the step
      pub moved-IsOverlap :
          IsWired order sys.0
          → Refines sys.1 s'
          → Unique sys.0.service_to_bus_name
          → NamesListed s'
          → Pending w sys.0.service_to_bus_name s'
          → ((peer : PeerInfo)
              → lookup name sys.0.service_to_bus_name ≡ some peer
              → Online s' name ⊎ (w ≡ erasing name))
          → IsOverlap moved s'
      moved-IsOverlap wired refines unique listed pending online = record {
        wired = wired;
        refines = refines;
        unique = unique;
        listed = listed;
        pending = moved-Pending pending;
        online = moved-Online online;
        exclusive = moved_exclusive;
      }
