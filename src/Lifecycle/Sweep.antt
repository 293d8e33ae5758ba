-- ===== src/Lifecycle/Sweep.antt =====
-- The first two loops of Tick's transaction, over the workers and over the allocations, with
-- `stopped` and `lost` (pkg/fleetmanager/lifecycle.go).
use nakama_agones.Prelude.{
  ℕ, ◌+◌, String, Bool, true, false, not, ◌&&◌, ◌||◌, Option, none, some, ◌==◌, text_Eq, ltb, leb,
  any, if◌then◌else◌,
}
use nakama_agones.Prelude.Table.{lookup, map_values}
use nakama_agones.State.{Worker, Allocation, Session, Command}
use nakama_agones.State.Phases.{
  WorkerState, worker_state_Eq, Phase, phase_Eq, Reason, WorkerError, terminal,
}
use nakama_agones.Manager.{
  Manager, Tx, update_worker, on_worker, on_allocation, with_allocations, with_commands,
}
use nakama_agones.Manager.Admission.{older_than}
use nakama_agones.Manager.Allocations.{finish, cancel}
use nakama_agones.Manager.Instances.{begin_drain}

-- the body of the loop of `stopped` and `lost` over s.Allocations
unfoldable pub fail_room : String → Reason → ℕ → Allocation → Allocation
fail_room wid reason now a =
    if a.worker_id == wid && not (terminal a.state) then finish Phase.failed reason now a else a

-- the body of their loop over s.Commands
unfoldable pub close_command : String → Command → Command
close_command wid c = if c.worker_id == wid then record c { done = true } else c

-- both loops
unfoldable pub fail_rooms : String → Reason → ℕ → Tx → Tx
unfolding close_command
fail_rooms wid reason now tx =
    with_commands (map_values (close_command wid) tx.commands)
      (with_allocations (map_values (fail_room wid reason now) tx.allocations) tx)

abbrev pub gone : WorkerState → WorkerError → ℕ → Worker → Worker
gone phase e now w = record w {
  state = phase;
  ready = false;
  provider_ready = false;
  error = e;
  updated_at = now;
}

unfoldable pub stopped : ℕ → Worker → Tx → Tx
unfolding fail_rooms
stopped now w tx =
    fail_rooms w.id Reason.server_stopped now
      (update_worker w.id (gone WorkerState.stopped WorkerError.empty now) tx)

unfoldable pub lost : WorkerError → ℕ → Worker → Tx → Tx
unfolding fail_rooms
lost e now w tx =
    fail_rooms w.id Reason.server_lost now (update_worker w.id (gone WorkerState.lost e now) tx)

-- The four tests of the first loop, each on the worker as the one before it left it.
unfoldable pub drain_expiring : Manager → ℕ → Worker → Tx → Tx
drain_expiring m now w tx =
    if w.state == WorkerState.ready
      && ltb 0 w.provider_expires_at
      && leb w.provider_expires_at (now + m.cfg.min_lifetime_for_admission)
    then begin_drain m now w tx
    else tx

unfoldable pub note_interrupted : ℕ → Worker → Tx → Tx
note_interrupted now w tx =
    if w.state == WorkerState.starting && older_than now w.updated_at 15
    then update_worker w.id
        (λ v. record v { state = WorkerState.unknown; error = WorkerError.interrupted_create }) tx
    else tx

unfoldable pub suspect_silent : Manager → ℕ → Worker → Tx → Tx
suspect_silent m now w tx =
    if w.state == WorkerState.ready && older_than now w.last_heartbeat m.cfg.heartbeat_timeout
    then update_worker w.id (λ v. record v { state = WorkerState.suspect }) tx
    else tx

unfoldable pub lose_silent : Manager → ℕ → Worker → Tx → Tx
lose_silent m now w tx =
    if ltb 0 w.last_heartbeat
      && older_than now w.last_heartbeat m.cfg.lost_timeout
      && not (w.state == WorkerState.stopped)
      && not (w.state == WorkerState.failed)
      && not (w.state == WorkerState.lost)
    then lost WorkerError.agent_lost now w tx
    else tx

unfoldable pub sweep_worker : Manager → ℕ → String → Tx → Tx
unfolding drain_expiring note_interrupted suspect_silent lose_silent
sweep_worker m now wid tx = on_worker wid (lose_silent m now) (
    on_worker wid (suspect_silent m now)
      (on_worker wid (note_interrupted now) (on_worker wid (drain_expiring m now) tx)))

-- whether the worker that a waiting room was created with has failed
abbrev pub is_gone : Option Worker → Bool
is_gone none = false
is_gone (some w) =
    w.state == WorkerState.failed || w.state == WorkerState.lost || w.state == WorkerState.stopped

abbrev pub reconnect_expired : ℕ → Session → Bool
reconnect_expired now s = ltb 0 s.reconnect_until && leb s.reconnect_until now

-- why the second loop cancels the allocation `a`, if it does
unfoldable pub expiry : ℕ → Tx → Allocation → Option Reason
expiry now tx a =
    if terminal a.state || a.state == Phase.cancelling
    then none
    else if not (a.preferred_worker_id == "") && is_gone (lookup a.preferred_worker_id tx.workers)
    then some Reason.server_failed
    else if a.state == Phase.active
    then (if any (reconnect_expired now) a.sessions then some Reason.reconnect_expired else none)
    else if leb a.expires_at now
    then some Reason.allocation_expired
    else none

unfoldable pub cancel_for : Manager → ℕ → String → Option Reason → Tx → Tx
cancel_for m now aid none tx = tx
cancel_for m now aid (some reason) tx = cancel m reason now aid tx

unfoldable pub expire_found : Manager → ℕ → String → Allocation → Tx → Tx
unfolding cancel_for
expire_found m now aid a tx = cancel_for m now aid (expiry now tx a) tx

unfoldable pub expire_allocation : Manager → ℕ → String → Tx → Tx
unfolding expire_found
expire_allocation m now aid tx = on_allocation aid (expire_found m now aid) tx
