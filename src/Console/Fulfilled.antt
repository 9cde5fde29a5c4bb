-- ===== src/Console/Fulfilled.antt =====
-- The process that main starts keeps the contract of Daemon/Contract.
use service_recovery_schedul.Base.{
  ◌≡◌, refl, ap, ◌∙◌, false, inl, inr, String, none, List, map, ok, Option-cases, Bool-cases,
}
use service_recovery_schedul.Base.Map.{Iteration, lookup}
use service_recovery_schedul.Service.{ServiceRecoveryInfo}
use service_recovery_schedul.Scheduler.Spec.{All}
use service_recovery_schedul.Stub
use service_recovery_schedul.Stub.{Platform, PeerInfo}
use service_recovery_schedul.Daemon.{Call, Reply, System, init, new_stub, run, serve}
use service_recovery_schedul.Daemon.Contract.{Board, no_board, Serves}
use service_recovery_schedul.Daemon.Models.{Models, bus_of}
use service_recovery_schedul.Daemon.Fulfils.{serve-Fulfils}
use service_recovery_schedul.Daemon.Answers.{answers, Serves-answers}
use service_recovery_schedul.Daemon.Serve.{FitsCall}
use service_recovery_schedul.Console.{start}
use service_recovery_schedul.Console.Start.{comes_up, start-IsDaemon}

module _ {Connection Token : Type 0} (order : Iteration ServiceRecoveryInfo)
    (platform : Platform Connection Token) (token : Token) where
  run-lookup :
      (name : String)
      → bus_of (
          lookup name
            (run {Token = Token} platform (init order (new_stub token))).1.service_to_bus_name)
        ≡ none
  unfolding run Stub.run init new_stub lookup
  run-lookup name = elim (Bool-cases (comes_up platform)) [
    | inr f ↦ rw f refl
    | inl t ↦ elim (Option-cases platform.connection) [
      | inl e ↦ rw (t, e) refl
      | inr (c, e) ↦ rw (t, e) refl
    ]
  ]

  start-Models : (argv : List String) → Models order (start order platform token argv).1 no_board
  unfolding start
  start-Models argv = record {
    valid = (start-IsDaemon order platform token argv).0;
    known = run-lookup;
  }

  -- The process that main starts, whatever its arguments and whether or not the bus takes it, serves
  -- every sequence of calls (with policies of at most 127 actions) with no undefined behaviour
  -- and as its contract has it: it gives replies, and ends in a state that stands for services and
  -- bus names, to which the contract leads from no services by these calls with these replies.
  pub start-Serves :
      (peer_order : Iteration PeerInfo) (argv : List String)
      (calls : List (Platform Connection Token × Call))
      → All (λ p. FitsCall p.1) calls
      → (replies : List Reply) × (sys : System Connection Token) × (b : Board) × (serve peer_order
            calls
            (start order platform token argv).1
          ≡ ok (replies, sys))
        × Serves (map (λ p. p.1) calls) no_board replies b
        × Models order sys b
  start-Serves peer_order argv calls h =
      serve-Fulfils order peer_order calls (start order platform token argv).1 no_board
        (start-Models argv) h

  -- The process that main starts serves every sequence of calls (with policies of at most 127
  -- actions), and its replies are a function of the calls alone: a registration is answered OK for
  -- a listed or registered name and INVALID_NAME otherwise, an unregistration or a report OK for a
  -- registered name and NOT_FOUND otherwise, where the registered names are those that were
  -- accepted and not unregistered since.
  pub start-answers :
      (peer_order : Iteration PeerInfo) (argv : List String)
      (calls : List (Platform Connection Token × Call))
      → All (λ p. FitsCall p.1) calls
      → (sys : System Connection Token) × (serve peer_order calls
            (start order platform token argv).1
          ≡ ok (answers (map (λ p. p.1) calls) (λ name. false), sys))
  start-answers peer_order argv calls h =
      let (replies, sys, b, e, r, _) = start-Serves peer_order argv calls h in
      (sys, e ∙ ap (λ (rs : List Reply). ok (rs, sys)) (Serves-answers r))
