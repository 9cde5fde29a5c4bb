-- ===== src/Stub/Methods.antt =====
-- What each method of the stub does with the answer of its callback.
use service_recovery_schedul.Base.{
  arith, ℕ, ◌≡◌, refl, String, Bool, true, false, none, some, List, [], Outcome, ok, ◌>>=◌, str_eq,
  if◌then◌else◌,
}
use service_recovery_schedul.Base.Int.{ℤ}
use service_recovery_schedul.Base.Map.{Iteration}
use service_recovery_schedul.States.{RecoveryState}
use service_recovery_schedul.Wire.{
  RegisterResult, UnregisterResult, QueryResult, ClientId, translate, from_wire,
  extract_dbus_unique_name,
}
use service_recovery_schedul.Stub.{
  Platform, PeerInfo, Stub, query_unix_pid_for_bus_name, record_peer, drop_peer, register_service,
  unregister_service, report_service_state, find_peer, drive_recovery, handle_name_owner_changed,
}

pub drive_recovery_lem :
    {S Connection Token : Type 0} (f : String → S → Outcome S) (service : String)
    → (stub : Stub S Connection Token) (s : S) → str_eq service "" ≡ false
    → stub.on_failure ≡ some f
    → drive_recovery service (stub, s) ≡ (f service s >>= λ s'. ok (stub, s'))
unfolding drive_recovery
drive_recovery_lem f service stub s e k = simp (e, k)

module _ {S Connection Token : Type 0} (stub : Stub S Connection Token) (s : S) where
  -- the pid that a registration asks the bus for
  abbrev pub peer_pid : Platform Connection Token → ClientId → ℤ
  peer_pid platform client =
      query_unix_pid_for_bus_name platform stub.signal_conn (extract_dbus_unique_name client)

  pub register_service_lem :
      (f : String → List RecoveryState → ℤ → ℤ → S → Bool × S)
      → (platform : Platform Connection Token) (client : ClientId) (name : String) (wire : List ℕ)
      → (interval : ℤ) (b : Bool) (s' : S) → stub.on_register ≡ some f
      → f name (translate [] wire) interval (peer_pid platform client) s ≡ (b, s')
      → register_service platform client name wire interval (stub, s) ≡ (
        if b then RegisterResult.ok else RegisterResult.invalid_name,
        (
          if b
              then record_peer name
                  (extract_dbus_unique_name client)
                  (peer_pid platform client)
                  stub
              else stub,
          s',
        ),
      )
  unfolding register_service
  register_service_lem f platform client name wire interval true s' h e =
      rw (h, register_service, e) refl
  register_service_lem f platform client name wire interval false s' h e =
      rw (h, register_service, e) refl

  pub unregister_service_lem :
      (f : String → S → Bool × S) (client : ClientId) (name : String) (b : Bool) (s' : S)
      → stub.on_unregister ≡ some f
      → f name s ≡ (b, s')
      → unregister_service client name (stub, s) ≡ (
        if b then UnregisterResult.ok else UnregisterResult.not_found,
        (if b then drop_peer name stub else stub, s'),
      )
  unfolding unregister_service
  unregister_service_lem f client name true s' h e = rw (h, unregister_service, e) refl
  unregister_service_lem f client name false s' h e = rw (h, unregister_service, e) refl

  pub report_service_state_lem :
      (f : String → RecoveryState → RecoveryState → S → Bool × S) (client : ClientId)
      → (name : String) (current last : ℕ) (b : Bool) (s' : S) → stub.on_report ≡ some f
      → f name (from_wire current) (from_wire last) s ≡ (b, s')
      → report_service_state client name current last (stub, s)
        ≡ (if b then QueryResult.ok else QueryResult.not_found, (stub, s'))
  unfolding report_service_state
  report_service_state_lem f client name current last b s' h e =
      rw (h, report_service_state, e) refl

  module _ (order : Iteration PeerInfo) (name old_owner : String) where
    pub owner_kept :
        (new_owner : String)
        → str_eq new_owner "" ≡ false
        → handle_name_owner_changed order name old_owner new_owner (stub, s) ≡ ok (stub, s)
    unfolding handle_name_owner_changed
    owner_kept new_owner h = rw h refl

    pub owner_unknown :
        find_peer order name stub.service_to_bus_name ≡ none
        → handle_name_owner_changed order name old_owner "" (stub, s) ≡ ok (stub, s)
    unfolding handle_name_owner_changed
    owner_unknown h = rw (h, handle_name_owner_changed) refl

    pub owner_lost :
        (f : String → S → Outcome S) (service : String) (peer : PeerInfo)
        → find_peer order name stub.service_to_bus_name ≡ some (service, peer)
        → str_eq service "" ≡ false
        → stub.on_failure ≡ some f
        → handle_name_owner_changed order name old_owner "" (stub, s)
          ≡ (f service s >>= λ s'. ok (drop_peer service stub, s'))
    unfolding handle_name_owner_changed
    owner_lost f service peer h e k =
        rw (h, handle_name_owner_changed)
          (drive_recovery_lem f service (drop_peer service stub) s e (unfold drop_peer in k))

  -- A stub whose callbacks were never installed refuses every request and changes nothing, and a lost
  -- bus name at most drops a peer.
  pub uninstalled :
      stub.on_register ≡ none
      → stub.on_unregister ≡ none
      → stub.on_report ≡ none
      → stub.on_failure ≡ none
      → (platform : Platform Connection Token) (client : ClientId) (name : String)
      → (wire : List ℕ) (interval : ℤ) (current last : ℕ)
      → (register_service platform client name wire interval (stub, s)
          ≡ (RegisterResult.invalid_name, (stub, s)))
        × (unregister_service client name (stub, s) ≡ (UnregisterResult.not_found, (stub, s)))
        × (report_service_state client name current last (stub, s)
            ≡ (QueryResult.not_found, (stub, s)))
        × (drive_recovery name (stub, s) ≡ ok (stub, s))
  unfolding register_service unregister_service report_service_state drive_recovery
  uninstalled h u r f platform client name wire interval current last =
      (simp h, simp u, simp r, ground arith)
