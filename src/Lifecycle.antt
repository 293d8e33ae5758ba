-- ===== src/Lifecycle.antt =====
-- pkg/fleetmanager/lifecycle.go: the control loop. `tick_update` is the transaction of Tick.
pub mod Sweep
pub mod Collect
pub mod Place
pub mod Scale
pub mod Lease
pub mod Instances
pub mod Reconcile
pub mod Poll
pub mod Stop
pub mod Holding
pub mod Exclusion
pub mod Schedule
pub mod Notify
pub mod Callbacks
pub mod Progress
use nakama_agones.Prelude.{
  ℕ, ◌&&◌, not, ◌==◌, text_Eq, ltb, for_each, try_each, if◌then◌else◌, Result, Error, ◌>>=◌, ◌>>◌,
  refuse_if, ok,
}
use nakama_agones.Prelude.Table.{keys}
use nakama_agones.Manager.{Manager, Tx}
use Sweep.{sweep_worker, expire_allocation}
use Collect.{collect}
use Place.{admit_prepared, place_waiting}
use Scale.{scale}
use Lease.{take_lease}

unfoldable pub tick_update : Manager → ℕ → Tx → Result Tx
tick_update m now tx = do
  held ← take_lease m now tx
  let swept = for_each (sweep_worker m now) (keys held.workers) held
  let expired = for_each (expire_allocation m now) (keys swept.allocations) swept
  let collected = collect now expired
  admitted ← try_each (admit_prepared m now) (keys collected.allocations) collected
  ok (scale m now (place_waiting m now admitted))
