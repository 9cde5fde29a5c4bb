-- ===== src/Console/Life.antt =====
-- The process from its start to the destructor of the stub.
use service_recovery_schedul.Base.{◌≡◌, refl, ◌∙◌, true, none, String, List, [], ok}
use service_recovery_schedul.Base.Map.{Iteration}
use service_recovery_schedul.Service.{ServiceRecoveryInfo}
use service_recovery_schedul.Scheduler.Spec.{no_services, All}
use service_recovery_schedul.Stub.{Platform, PeerInfo, destroy}
use service_recovery_schedul.Daemon.{Call, Reply, System, new_stub, init, serve}
use service_recovery_schedul.Daemon.Serve.{FitsCall, serve-IsDaemon}
use service_recovery_schedul.Daemon.Subscription.{subscribed, serve-destroy}
use service_recovery_schedul.Console.{start}
use service_recovery_schedul.Console.Start.{comes_up, run-comes_up, start-IsDaemon}

none_yet :
    {Connection Token : Type 0} (order : Iteration ServiceRecoveryInfo) (token : Token)
    → (init {Connection = Connection} order (new_stub token)).signal_conn ≡ none
unfolding init new_stub
none_yet order token = refl

module _ {Connection Token : Type 0} (order : Iteration ServiceRecoveryInfo)
    (peer_order : Iteration PeerInfo) where
  -- A process that has come up handles every sequence of calls off the bus (with policies of at most
  -- 127 actions), and whatever these were, the stub's destructor then takes off exactly the signal
  -- handler that was subscribed when it came up, if there was a connection then and it is still
  -- there, and no other: no call changes the connection or the token that the destructor reads.
  pub start-destroy :
      (platform later : Platform Connection Token) (token : Token) (argv : List String)
      (calls : List (Platform Connection Token × Call))
      → comes_up platform ≡ true
      → All (λ p. FitsCall p.1) calls
      → (replies : List Reply) × (sys : System Connection Token) × (serve peer_order calls
            (start order platform token argv).1
          ≡ ok (replies, sys))
        × (destroy later sys.0 ≡ subscribed platform later)
  unfolding start
  start-destroy platform later token argv calls up h =
      let v = (start-IsDaemon order platform token argv).0 in
      let (replies, sys, _, go, _) =
        serve-IsDaemon order peer_order calls (start order platform token argv).1 no_services v h in
      (
        replies,
        sys,
        go,
        serve-destroy peer_order platform later (init order (new_stub token)) [] calls replies sys
              (none_yet order token) go
            ∙ rw (run-comes_up order platform (init order (new_stub token)), up) refl,
      )
