-- ===== src/Lifecycle/Callbacks.antt =====
-- deliverCallbacks of pkg/fleetmanager/lifecycle.go: which waiting creations are answered, and how.
use nakama_agones.Prelude.{
  ℕ, String, Bool, true, ◌&&◌, ◌||◌, Option, none, some, List, [], ◌∷◌, ◌==◌, text_Eq,
  if◌then◌else◌,
}
use nakama_agones.Prelude.Table.{Table, lookup}
use nakama_agones.State.{State, Worker, Allocation}
use nakama_agones.State.Phases.{WorkerState, worker_state_Eq, Phase, phase_Eq}
use nakama_agones.Manager.{Manager}
use nakama_agones.Manager.Admission.{older_than}

-- runtime.CreateSuccess with the instance and its first room, or runtime.CreateTimeout
pub data Delivery : Type 0 where
  created : Worker → Option Allocation → Delivery
  timed_out : Delivery

abbrev pub room_is_seated : Option Allocation → Bool
room_is_seated none = true
room_is_seated (some a) = a.state == Phase.assigned || a.state == Phase.active

-- the body of the loop at a worker that exists: its answer, or none as long as it may still be ready
unfoldable pub delivery : Manager → ℕ → State → Worker → Option Delivery
delivery m now s w =
    let a =
      if w.initial_allocation_id == ""
      then none
      else lookup w.initial_allocation_id s.allocations in
    if w.state == WorkerState.ready && room_is_seated a
    then some (Delivery.created w a)
    else if w.state == WorkerState.failed
        || w.state == WorkerState.stopped
        || w.state == WorkerState.lost
        || older_than now w.created_at m.cfg.launch_timeout
    then some Delivery.timed_out
    else none

-- the loop over m.callbacks: the answers, each with its callback, and the callbacks that stay
unfoldable pub deliver :
    Manager → ℕ → State → Table String → List (String × Delivery) × Table String
unfolding delivery
deliver m now s [] = ([], [])
deliver m now s ((wid, callback) ∷ rest) =
    let more = deliver m now s rest in
    elim (lookup wid s.workers) [
      | none ↦ (more.0, (wid, callback) ∷ more.1)
      | some w ↦ elim (delivery m now s w) [
        | none ↦ (more.0, (wid, callback) ∷ more.1)
        | some d ↦ ((callback, d) ∷ more.0, more.1)
      ]
    ]
