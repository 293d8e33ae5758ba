-- ===== src/Lifecycle/Scale.antt =====
-- The end of Tick's transaction: a new instance when demand exceeds the capacity that is starting,
-- and the retirement of idle instances (pkg/fleetmanager/lifecycle.go).
use nakama_agones.Prelude.{
  ℕ, ◌+◌, ◌-◌, String, Bool, not, ◌&&◌, ◌||◌, List, [], ◌∷◌, ◌==◌, text_Eq, number_Eq, ltb, leb,
  for_each, if◌then◌else◌, none, some,
}
use nakama_agones.Prelude.Table.{count, keys, range, lookup}
use nakama_agones.State.{Worker, Allocation, occupied}
use nakama_agones.State.Phases.{WorkerState, worker_state_Eq, Phase, phase_Eq, is_open}
use nakama_agones.State.Telemetry.{work_finished}
use nakama_agones.Manager.{Manager, Tx, update_worker, on_worker}
use nakama_agones.Manager.Admission.{older_than}
use nakama_agones.Manager.Instances.{new_worker, live_count, begin_drain}
use nakama_agones.Manager.Policy.{policy}

abbrev pub unpinned : Allocation → Bool
unpinned a = a.state == Phase.waiting_capacity && a.preferred_worker_id == ""

abbrev pub in_service : Worker → Bool
in_service w = w.state == WorkerState.ready && not w.draining

-- the rooms of one instance that is on its way up
abbrev pub boot_rooms : Manager → ℕ → Worker → ℕ
boot_rooms m now w =
    if (w.state == WorkerState.requested
        || w.state == WorkerState.starting
        || w.state == WorkerState.launching
        || w.state == WorkerState.bootstrapping)
      && ltb now (w.created_at + m.cfg.launch_timeout)
    then w.max_rooms
    else 0

unfoldable pub boot_capacity : Manager → ℕ → List Worker → ℕ
boot_capacity m now [] = 0
boot_capacity m now (w ∷ ws) = boot_rooms m now w + boot_capacity m now ws

-- q, ready and bootCapacity
abbrev pub queued : Tx → ℕ
queued tx = count unpinned tx.allocations

abbrev pub ready_count : Tx → ℕ
ready_count tx = count in_service tx.workers

unfoldable pub needs_instance : Manager → ℕ → Tx → Bool
needs_instance m now tx =
    let boot = boot_capacity m now (range tx.workers) in
    is_open tx.creation_blocked_reason
    && leb tx.next_create_at now
    && ltb (live_count tx.state) m.cfg.max_instances
    && (ltb boot (queued tx) || (ltb (ready_count tx) m.cfg.min_instances && boot == 0))

unfoldable pub grow : Manager → ℕ → Tx → Tx
grow m now tx =
    if needs_instance m now tx
    then (let grown = new_worker m now (policy m tx.state).rooms_per_instance tx in
        record grown { state = record grown.state { next_create_at = now + 1 } })
    else tx

-- the first half of the last loop's body, for a worker in service: the time since which it is idle
unfoldable pub idle_from : ℕ → ℕ → Worker → Worker
idle_from now n w = record w {
  idle_since = if n == 0 then (if w.idle_since == 0 then now else w.idle_since) else 0;
}

-- and whether it is drained; `rest` is the `ready` of the loop
unfoldable pub retires : Manager → ℕ → ℕ → ℕ → ℕ → Worker → Bool
retires m now q rest n w =
    n == 0 && leb (w.idle_since + m.cfg.idle_seconds) now && ltb m.cfg.min_instances rest && q == 0

unfoldable pub retire_idle : Manager → ℕ → ℕ → Worker → Tx × ℕ → Tx × ℕ
unfolding idle_from retires
retire_idle m now q w (tx, rest) =
    let n = occupied tx.state w.id in
    let idle = idle_from now n w in
    let marked = update_worker w.id (idle_from now n) tx in
    if in_service w
    then (if retires m now q rest n idle
        then (begin_drain m now idle marked, rest - 1)
        else (marked, rest))
    else (tx, rest)

-- the second half: a drained instance with nothing left to do is to be stopped
unfoldable pub stop_drained : Manager → ℕ → Worker → Tx → Tx
stop_drained m now w tx =
    if w.state == WorkerState.draining
      && w.drain_ack
      && occupied tx.state w.id == 0
      && w.player_count == 0
      && work_finished w.metrics
      && not (older_than now w.last_heartbeat m.cfg.heartbeat_timeout)
    then update_worker w.id (λ v. record v { state = WorkerState.stopping; next_check_at = now }) tx
    else tx

unfoldable pub stop_at : Manager → ℕ → String → Tx × ℕ → Tx × ℕ
unfolding stop_drained
stop_at m now wid (tx, rest) = (on_worker wid (stop_drained m now) tx, rest)

unfoldable pub retire_at : Manager → ℕ → ℕ → String → Tx × ℕ → Tx × ℕ
unfolding retire_idle
retire_at m now q wid (tx, rest) = elim (lookup wid tx.workers) [
  | none ↦ (tx, rest)
  | some w ↦ retire_idle m now q w (tx, rest)
]

-- the body of the last loop
unfoldable pub retire_worker : Manager → ℕ → ℕ → String → Tx × ℕ → Tx × ℕ
retire_worker m now q wid s = stop_at m now wid (retire_at m now q wid s)

unfoldable pub scale : Manager → ℕ → Tx → Tx
scale m now tx =
    let grown = grow m now tx in
    (for_each (retire_worker m now (queued tx)) (keys grown.workers) (grown, ready_count tx)).0
