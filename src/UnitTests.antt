-- ===== src/UnitTests.antt =====
-- gtest/src/CRecoveryScheduler_gtest.cpp: the fixture SchedulerTest and what the statements of its
-- tests do. A test is the list of its statements; they work on anything that has the scheduler's five
-- operations.
pub mod Scheduler
pub mod Simulation
pub mod Suite
pub mod Bus
pub mod Common
use service_recovery_schedul.Base.{
  String, Bool, true, false, ◌&&◌, not, List, [], ◌∷◌, ◌++◌, Outcome, ok, ◌>>=◌, if◌then◌else◌,
}
use service_recovery_schedul.Base.Int.{ℤ, minus_one}
use service_recovery_schedul.States.{RecoveryState}
use service_recovery_schedul.Service.{ServiceSnapshot}

-- the operations of CRecoveryScheduler on its state
pub record Api (S : Type 0) : Type 0 where
  pub register : String → List RecoveryState → ℤ → ℤ → S → Bool × S
  pub unregister : String → S → Bool × S
  pub report : String → RecoveryState → RecoveryState → S → Bool × S
  pub failure : String → S → Outcome S
  pub query : String → S → Outcome ServiceSnapshot

-- A check is what EXPECT_ and ASSERT_ macros say of one result; after a failed ASSERT_ the test ends.
pub data Statement : Type 0 where
  asserts_register : String → List RecoveryState → Statement
  expects_register : Bool → String → List RecoveryState → Statement
  expects_unregister : Bool → String → Statement
  expects_report : Bool → String → RecoveryState → RecoveryState → Statement
  fails : String → Statement
  asserts : String → (ServiceSnapshot → Bool) → Statement
  expects : String → (ServiceSnapshot → Bool) → Statement
  clears : Statement

-- the scheduler's state, the member `registered`, and whether no check has failed yet
pub record Fixture (S : Type 0) : Type 0 where
  pub state : S
  pub registered : List String
  pub passed : Bool

abbrev pub agrees : Bool → Bool → Bool
agrees true b = b
agrees false b = not b

module _ {S : Type 0} (api : Api S) where
  -- `doRegister`
  unfoldable pub do_register : String → List RecoveryState → ℤ → Fixture S → Bool × Fixture S
  do_register name actions interval f =
      let (done, s) = api.register name actions interval minus_one f.state in
      (
        done,
        record f {
          state = s;
          registered = if done then f.registered ++ name ∷ [] else f.registered;
        },
      )

  -- a check of a result, with the state after the call
  abbrev pub checked : Bool → Bool → S → Fixture S → Fixture S
  checked expected result s f = record f { state = s; passed = f.passed && agrees expected result }

  -- whether the test goes on, and the fixture
  unfoldable pub exec : Statement → Fixture S → Outcome (Bool × Fixture S)
  unfolding do_register
  exec (asserts_register name actions) f =
      let (done, f') = do_register name actions minus_one f in
      ok (done, record f' { passed = f'.passed && done })
  exec (expects_register expected name actions) f =
      let (done, s) = api.register name actions minus_one minus_one f.state in
      ok (true, checked expected done s f)
  exec (expects_unregister expected name) f =
      let (done, s) = api.unregister name f.state in ok (true, checked expected done s f)
  exec (expects_report expected name current last) f =
      let (done, s) = api.report name current last f.state in ok (true, checked expected done s f)
  exec (fails name) f = api.failure name f.state >>= λ s. ok (true, record f { state = s })
  exec (asserts name check) f = api.query name f.state >>= λ snap.
      ok (check snap, record f { passed = f.passed && check snap })
  exec (expects name check) f =
      api.query name f.state >>= λ snap. ok (true, record f { passed = f.passed && check snap })
  exec clears f = ok (true, record f { registered = [] })

  unfoldable pub exec_all : List Statement → Fixture S → Outcome (Fixture S)
  exec_all [] f = ok f
  exec_all (st ∷ rest) f =
      exec st f >>= λ p. let more = exec_all rest p.1 in if p.0 then more else ok p.1

  -- the loop of `TearDown`
  unfoldable pub tear_down : List String → S → S
  tear_down [] s = s
  tear_down (name ∷ rest) s = tear_down rest (api.unregister name s).1

  -- SetUp, the test's body and TearDown: whether the test passed, and the scheduler's state
  unfoldable pub run_test : List Statement → S → Outcome (Bool × S)
  run_test body s = exec_all body (record { state = s; registered = []; passed = true }) >>= λ f.
      ok (f.passed, tear_down f.registered f.state)

  -- one test after the other
  unfoldable pub run_tests : List (List Statement) → S → Outcome (Bool × S)
  run_tests [] s = ok (true, s)
  run_tests (body ∷ rest) s =
      run_test body s >>= λ p. run_tests rest p.1 >>= λ q. ok (p.0 && q.0, q.1)
