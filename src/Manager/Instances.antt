-- ===== src/Manager/Instances.antt =====
-- newWorker, liveCount, drainable and beginDrain of pkg/fleetmanager/manager.go.
use Prim.Native.String.{slice, ◌++◌ as text_append}
use nakama_agones.Prelude.{
  ℕ, zero, suc, ◌+◌, ◌/◌, ◌%◌, String, Bool, true, false, not, ◌&&◌, ◌||◌, [], ◌==◌, text_Eq, ltb,
  if◌then◌else◌,
}
use nakama_agones.Prelude.Table.{insert, count}
use nakama_agones.State.{State, CapacityPolicy, Worker, Command}
use nakama_agones.State.Phases.{WorkerState, worker_state_Eq, WorkerError, CommandType}
use nakama_agones.State.Telemetry.{no_metrics}
use nakama_agones.Manager.{Manager, Tx, fresh, advance, with_workers, update_worker, put_command}
use nakama_agones.Manager.Policy.{policy}

-- fmt's "%d": the decimal digits of `n` before `rest`. A number has no more digits than itself
-- and one, the fuel that `millicores` gives.
digits : ℕ → ℕ → String → String
digits zero n rest = rest
digits (suc fuel) n rest =
    let text = text_append (slice "0123456789" (n % 10) (n % 10 + 1)) rest in
    let more = digits fuel (n / 10) text in if ltb n 10 then text else more

-- fmt.Sprintf("%dm", n)
unfoldable pub millicores : ℕ → String
unfolding digits
millicores n = digits (n + 1) n "m"

unfoldable pub requested_worker : Manager → CapacityPolicy → ℕ → ℕ → Tx → Worker
requested_worker m p now max_rooms tx = record {
  policy_revision = p.revision;
  cpu_request = if ltb 1 p.revision then millicores p.cpu_request_millicores else m.cfg.cpu_request;
  cpu_limit = if ltb 1 p.revision then millicores p.cpu_limit_millicores else m.cfg.cpu_limit;
  id = fresh m tx;
  provider_id = "";
  provider_ready = false;
  provider_expires_at = 0;
  boot_id = "";
  state = WorkerState.requested;
  region = m.cfg.region;
  build_hash = m.cfg.build_hash;
  host = "";
  port = 0;
  max_rooms = max_rooms;
  created_at = now;
  updated_at = now;
  last_heartbeat = 0;
  last_sequence = 0;
  next_check_at = now;
  idle_since = 0;
  ready = false;
  draining = false;
  drain_ack = false;
  player_count = 0;
  metrics = no_metrics;
  error = WorkerError.empty;
  initial_allocation_id = "";
}

-- the new worker's key is `fresh m tx`
unfoldable pub new_worker : Manager → ℕ → ℕ → Tx → Tx
unfolding requested_worker
new_worker m now max_rooms tx =
    let w = requested_worker m (policy m tx.state) now max_rooms tx in
    advance (with_workers (insert w.id w tx.workers) tx)

-- the test of liveCount on one worker
abbrev pub counts_as_live : Worker → Bool
counts_as_live w =
    not (w.state == WorkerState.stopped)
    && not (w.state == WorkerState.failed && w.provider_id == "")

unfoldable pub live_count : State → ℕ
live_count s = count counts_as_live s.workers

unfoldable pub drainable : Worker → Bool
drainable w =
    w.state == WorkerState.ready
    || w.state == WorkerState.suspect
    || w.state == WorkerState.draining

drain_command : Manager → Worker → ℕ → Tx → Command
drain_command m w now tx = record {
  id = fresh m tx;
  type = CommandType.drain;
  worker_id = w.id;
  room_id = "";
  allocation_id = "";
  epoch = 1;
  user_ids = [];
  expires_at = now + 3600;
  done = false;
  attempts = 0;
  not_before = 0;
}

unfoldable pub start_draining : ℕ → Worker → Worker
start_draining now w = record w { draining = true; state = WorkerState.draining; updated_at = now }

-- `beginDrain` at the worker `w`, which is s.Workers[w.ID]
unfoldable pub begin_drain : Manager → ℕ → Worker → Tx → Tx
unfolding drain_command start_draining
begin_drain m now w tx =
    if w.draining
    then tx
    else advance
        (put_command (drain_command m w now tx) (update_worker w.id (start_draining now) tx))
