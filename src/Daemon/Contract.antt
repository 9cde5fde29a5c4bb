-- ===== src/Daemon/Contract.antt =====
-- What the service process promises its callers, with no record, no map and no counter of bounded
-- width: the registered services, the bus names that are recorded for them, and the answer to each
-- call.
use service_recovery_schedul.Base.{
  ℕ, ◌≡◌, ◌≢◌, String, Bool, true, false, Option, none, some, List, [], ◌∷◌, str_eq, if◌then◌else◌,
}
use service_recovery_schedul.Base.Int.{ℤ}
use service_recovery_schedul.Scheduler.Spec.{
  Services, no_services, at, register_entry, report_entry, fail_entry, is_listed, is_registered,
}
use service_recovery_schedul.Wire.{
  RegisterResult, UnregisterResult, QueryResult, ClientId, translate, from_wire,
  extract_dbus_unique_name,
}
use service_recovery_schedul.Daemon.{
  Call, Reply, registers, unregisters, reports, owner_changed, registered, unregistered, reported,
  silent,
}

-- the bus name of each service's peer
abbrev pub Peers : Type 0
Peers = String → Option String

abbrev pub point : String → Option String → Peers → Peers
point name bus peers = λ j. if str_eq name j then bus else peers j

-- a caller without a bus name is not recorded
abbrev pub recorded : String → String → Peers → Peers
recorded name bus peers = if str_eq bus "" then peers else point name (some bus) peers

pub record Board : Type 0 where
  pub services : Services
  pub peers : Peers

abbrev pub no_board : Board
no_board = record { services = no_services; peers = λ name. none }

abbrev pub accepts : String → Services → Bool
accepts name s = if is_registered (s name) then true else is_listed name

-- One call. Where several services were registered from the bus name that is lost, any one of them
-- fails, and only that one.
pub data Handles (a : Board) : Call → Reply → Board → Type 0 where
  accepted :
      (client : ClientId) (name : String) (actions : List ℕ) (interval : ℤ)
      → accepts name a.services ≡ true
      → Handles a (registers client name actions interval) (registered RegisterResult.ok) (record {
        services =
            at name
              (register_entry (is_listed name) (translate [] actions) interval (a.services name))
              a.services;
        peers = recorded name (extract_dbus_unique_name client) a.peers;
      })
  refused :
      (client : ClientId) (name : String) (actions : List ℕ) (interval : ℤ)
      → accepts name a.services ≡ false
      → Handles a
          (registers client name actions interval)
          (registered RegisterResult.invalid_name)
          a
  removed :
      (client : ClientId) (name : String)
      → is_registered (a.services name) ≡ true
      → Handles a
          (unregisters client name)
          (unregistered UnregisterResult.ok)
          (record { services = at name none a.services; peers = point name none a.peers })
  not_removed :
      (client : ClientId) (name : String)
      → is_registered (a.services name) ≡ false
      → Handles a (unregisters client name) (unregistered UnregisterResult.not_found) a
  stored :
      (client : ClientId) (name : String) (current last : ℕ)
      → is_registered (a.services name) ≡ true
      → Handles a (reports client name current last) (reported QueryResult.ok) (record a {
        services =
            at name
              (report_entry (from_wire current) (from_wire last) (a.services name))
              a.services;
      })
  not_stored :
      (client : ClientId) (name : String) (current last : ℕ)
      → is_registered (a.services name) ≡ false
      → Handles a (reports client name current last) (reported QueryResult.not_found) a
  still_owned :
      (bus old_owner new_owner : String)
      → str_eq new_owner "" ≡ false
      → Handles a (owner_changed bus old_owner new_owner) silent a
  stranger :
      (bus old_owner : String)
      → ((service : String) → a.peers service ≢ some bus)
      → Handles a (owner_changed bus old_owner "") silent a
  failed :
      (bus old_owner service : String)
      → a.peers service ≡ some bus
      → Handles a (owner_changed bus old_owner "") silent (record {
        services = at service (fail_entry (a.services service)) a.services;
        peers = point service none a.peers;
      })

pub data Serves : List Call → Board → List Reply → Board → Type 0 where
  done : {a : Board} → Serves [] a [] a
  next :
      {call : Call} {reply : Reply} {a b c : Board} {calls : List Call} {replies : List Reply}
      → Handles a call reply b
      → Serves calls b replies c
      → Serves (call ∷ calls) a (reply ∷ replies) c
