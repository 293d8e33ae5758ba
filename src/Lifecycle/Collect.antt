-- ===== src/Lifecycle/Collect.antt =====
-- The three loops of Tick's transaction that delete old history (pkg/fleetmanager/lifecycle.go).
use nakama_agones.Prelude.{
  ℕ, String, Bool, not, ◌&&◌, ◌||◌, ◌==◌, text_Eq, any, for_each, if◌then◌else◌,
}
use nakama_agones.Prelude.Table.{keys, values, remove, retain}
use nakama_agones.State.{Worker, Allocation, Command}
use nakama_agones.State.Phases.{WorkerState, worker_state_Eq, terminal}
use nakama_agones.Manager.{Tx, on_worker, with_workers, with_allocations, with_commands}
use nakama_agones.Manager.Admission.{older_than}

-- what the loops keep
abbrev pub keep_allocation : ℕ → Allocation → Bool
keep_allocation now a = not (terminal a.state && older_than now a.terminal_at 86400)

abbrev pub keep_command : ℕ → Command → Bool
keep_command now c = not (c.done && older_than now c.expires_at 3600)

abbrev pub pending_on : String → Allocation → Bool
pending_on wid a = (a.worker_id == wid || a.preferred_worker_id == wid) && not (terminal a.state)

-- a worker that is to be forgotten: it ended a day ago and no unfinished room names it
unfoldable pub is_history : ℕ → Worker → Bool
is_history now w =
    (w.state == WorkerState.stopped || w.state == WorkerState.failed && w.provider_id == "")
    && older_than now w.updated_at 86400

unfoldable pub forget : String → Tx → Tx
forget wid tx =
    with_commands (retain (λ c. not (c.worker_id == wid)) tx.commands)
      (with_workers (remove wid tx.workers) tx)

unfoldable pub collect_found : ℕ → String → Worker → Tx → Tx
unfolding is_history
collect_found now wid w tx =
    if is_history now w && not (any (pending_on wid) (values tx.allocations))
    then forget wid tx
    else tx

unfoldable pub collect_worker : ℕ → String → Tx → Tx
unfolding collect_found
collect_worker now wid tx = on_worker wid (collect_found now wid) tx

unfoldable pub collect : ℕ → Tx → Tx
unfolding collect_worker
collect now tx =
    let pruned =
      with_commands (retain (keep_command now) tx.commands)
        (with_allocations (retain (keep_allocation now) tx.allocations) tx) in
    for_each (collect_worker now) (keys pruned.workers) pruned
