-- ===== src/Threads/Serial.antt =====
-- Interleavings against sequences of whole calls.
use service_recovery_schedul.Base.{◌≡◌, Bool, List, ok}
use service_recovery_schedul.Base.Map.{Iteration}
use service_recovery_schedul.Service.{ServiceRecoveryInfo}
use service_recovery_schedul.Scheduler.{Registry}
use service_recovery_schedul.Scheduler.Requests.{Request, run}
use service_recovery_schedul.Threads.Steps

module _ (order : Iteration ServiceRecoveryInfo) where
  -- Whole calls, one after the other, lead from one registry to the other.
  abbrev pub Serial : Registry → Registry → Type 0
  Serial m m' = (qs : List Request) × (replies : List Bool) × (run order qs m ≡ ok (replies, m'))
