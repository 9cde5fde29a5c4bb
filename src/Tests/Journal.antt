-- ===== src/Tests/Journal.antt =====
-- The log of the process.
use service_recovery_schedul.Base.{
  ℕ, suc, ◌+◌, ◌*◌, ◌≡◌, refl, String, true, false, some, List, [], ◌∷◌, ok, arith, if◌then◌else◌,
}
use service_recovery_schedul.Base.Int.{minus_one}
use service_recovery_schedul.Scheduler.Spec.{is_listed}
use service_recovery_schedul.Catalogue.{scan_names}
use service_recovery_schedul.Wire.{RegisterResult, null, dbus}
use service_recovery_schedul.Stub.{Platform}
use service_recovery_schedul.Daemon.{
  Call, Reply, System, registers, owner_changed, registered, handle, serve,
}
use service_recovery_schedul.Console.{start}
use service_recovery_schedul.Console.Start.{comes_up}
use service_recovery_schedul.Logger.{Moment, default_logger}
use service_recovery_schedul.Logger.Lines.{newlines}
use service_recovery_schedul.Journal.{call_log, print_all, run_log, serve_log}
use service_recovery_schedul.Journal.Errors.{errors}
use service_recovery_schedul.Journal.Audit.{refusals, losses}
use service_recovery_schedul.Journal.Forgery.{ShowsTwice, refused-lines}
use service_recovery_schedul.Journal.Startup.{start-errors}
use service_recovery_schedul.Tests.Bus.{order, peer_order, office}
use service_recovery_schedul.Tests.Single.{alone, one_name, its_registry, alone-IsDaemon}

-- a name with a line end, and a text after it that looks like a record
abbrev forged : String
forged = "AppZ\n2026-04-01 12:00:07.000052 [t  4711] ERR ✘ [SRSC] [DBUS] {run:1} forged"

forged_unlisted : is_listed forged ≡ false
unfolding is_listed scan_names
forged_unlisted = refl

abbrev clock : ℕ → Moment
clock k = record {
  year = 2026;
  month = 4;
  day = 1;
  hour = 12;
  minute = 0;
  second = k;
  microseconds = 52;
  thread = 4711;
}

refused-lines_example :
    (handle peer_order office (registers null forged [] minus_one) (alone, its_registry)
      ≡ ok (registered RegisterResult.invalid_name, (alone, its_registry)))
    × (newlines (
          print_all (default_logger true) clock 0 (
            call_log order peer_order office
              (registers null forged [] minus_one)
              (alone, its_registry)))
        ≡ 2 * suc (newlines forged))
    × ShowsTwice forged (
        print_all (default_logger true) clock 0 (
          call_log order peer_order office
            (registers null forged [] minus_one)
            (alone, its_registry)))
refused-lines_example =
    refused-lines order peer_order office (alone, its_registry) one_name alone-IsDaemon null forged
      [] minus_one true clock 0 forged_unlisted

-- an accepted registration, a refused one, a lost peer, and a loss that no peer is known for
abbrev day : List (Platform ℕ ℕ × Call)
day =
    (office, registers (dbus (some ":1.42")) "AppA" (0 ∷ 1 ∷ []) minus_one)
    ∷ (office, registers (dbus (some ":1.7")) "AppZ" [] minus_one)
    ∷ (office, owner_changed ":1.42" ":1.42" "")
    ∷ (office, owner_changed ":1.42" ":1.42" "")
    ∷ []

abbrev begun : System ℕ ℕ
begun = (start order office 3 ("app_srs" ∷ [])).1

start-errors_example :
    (errors (run_log office "local" "com.bmw.recovery.RecoveryScheduler")
      ≡ (if comes_up office then 0 else 1))
    × (replies : List Reply) × (sys' : System ℕ ℕ) × (serve peer_order day begun
        ≡ ok (replies, sys'))
    × (errors (serve_log order peer_order day begun)
        ≡ refusals replies + losses peer_order day begun)
start-errors_example =
    start-errors office order peer_order 3 ("app_srs" ∷ []) day
      (omega arith, (omega arith, (tt, (tt, tt))))
