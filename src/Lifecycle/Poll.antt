-- ===== src/Lifecycle/Poll.antt =====
-- poll of pkg/fleetmanager/lifecycle.go: what the provider says of an instance.
use nakama_agones.Prelude.{
  ℕ, ◌+◌, String, Bool, true, false, not, ◌&&◌, ◌||◌, none, some, ◌==◌, text_Eq, number_Eq, leb,
  if◌then◌else◌, Result, ok, Error, ◌>>=◌, or_fail,
}
use nakama_agones.Prelude.Table.{lookup}
use nakama_agones.State.{Worker}
use nakama_agones.State.Phases.{WorkerState, worker_state_Eq, WorkerError}
use nakama_agones.Provider.{Outcome, Instance, InstanceStatus, has_other}
use nakama_agones.Manager.{Manager, Tx, update_worker, on_worker}
use nakama_agones.Manager.Admission.{older_than}
use nakama_agones.Lifecycle.Sweep.{stopped, lost}
use nakama_agones.Lifecycle.Instances.{provider_lifetime, endpoint, owned, is_booting}

abbrev pub is_running : InstanceStatus → Bool
is_running InstanceStatus.running = true
is_running _ = false

-- `result.Status != "running"`: no endpoint, and not ready
abbrev pub withdraw_endpoint : Worker → Worker
withdraw_endpoint v = record v {
  provider_ready = false;
  state =
      if v.state == WorkerState.ready || v.state == WorkerState.suspect
      then WorkerState.suspect
      else v.state;
  host = "";
  port = 0;
}

abbrev pub bad_endpoint : Worker → Worker
bad_endpoint v = record v {
  error = WorkerError.invalid_provider_endpoint;
  host = "";
  port = 0;
  provider_ready = false;
  state = if v.state == WorkerState.ready then WorkerState.suspect else v.state;
}

-- a running instance with a valid endpoint
unfoldable pub running_state : Manager → ℕ → Worker → WorkerState
running_state m now v =
    if v.ready
      && not (v.boot_id == "")
      && not (older_than now v.last_heartbeat m.cfg.heartbeat_timeout)
    then (if v.draining then WorkerState.draining else WorkerState.ready)
    else if is_booting v.state
    then WorkerState.bootstrapping
    else if not v.draining
    then WorkerState.suspect
    else v.state

abbrev pub heard : Manager → ℕ → Worker → Bool
heard m now v =
    v.ready
    && not (v.boot_id == "")
    && not (older_than now v.last_heartbeat m.cfg.heartbeat_timeout)

unfoldable pub at_endpoint : Manager → ℕ → String × ℕ → Worker → Worker
unfolding running_state
at_endpoint m now (host, port) v = record v {
  host = host;
  port = port;
  provider_ready = true;
  state = running_state m now v;
  error = if heard m now v then WorkerError.empty else v.error;
}

-- what follows the tests for an instance that stopped
unfoldable pub poll_alive : Manager → ℕ → Instance → Worker → Tx → Tx
unfolding at_endpoint
poll_alive m now i w tx =
    if w.state == WorkerState.lost
    then tx
    else if leb (w.created_at + m.cfg.launch_timeout) now && is_booting w.state
    then update_worker w.id
        (λ v. record v {
          state = WorkerState.stopping;
          error = WorkerError.launch_timeout;
          next_check_at = now;
        })
        tx
    else if is_running i.status
    then elim (endpoint m i.network_ports) [
      | none ↦ update_worker w.id bad_endpoint tx
      | some e ↦ update_worker w.id (at_endpoint m now e) tx
    ]
    else tx

abbrev pub unhealthy_next : ℕ → Worker → Worker
unhealthy_next now v = record v {
  state = WorkerState.stopping;
  draining = false;
  next_check_at = now;
}

-- `lost` and the stop that follows it
unfoldable pub poll_unhealthy : ℕ → Worker → Tx → Tx
poll_unhealthy now w tx =
    update_worker w.id (unhealthy_next now) (lost WorkerError.provider_unhealthy now w tx)

-- what follows providerLifetime
unfoldable pub poll_instance : Manager → ℕ → Instance → Worker → Tx → Tx
unfolding poll_alive poll_unhealthy
poll_instance m now i w tx = if w.state == WorkerState.stopping then tx else elim i.status [
  | InstanceStatus.unhealthy ↦ poll_unhealthy now w tx
  | InstanceStatus.stopped ↦ stopped now w (update_worker w.id withdraw_endpoint tx)
  | InstanceStatus.launching ↦
      on_worker w.id (poll_alive m now i) (update_worker w.id withdraw_endpoint tx)
  | InstanceStatus.running ↦ poll_alive m now i w tx
]

abbrev pub query_failed : Worker → Worker
query_failed v = record v { error = WorkerError.provider_query_failed }

unfoldable pub poll_answer : Manager → ℕ → Worker → Outcome Instance → Tx → Tx
unfolding poll_instance
poll_answer m now w Outcome.other_error tx = update_worker w.id query_failed tx
poll_answer m now w (Outcome.api_error e) tx =
    if e.status_code == 404
    then stopped now w tx
    else if e.status_code == 409 && e.reason == "resource_identity_mismatch"
    then lost WorkerError.provider_ownership_mismatch now w tx
    else update_worker w.id query_failed tx
poll_answer m now w (Outcome.done i) tx =
    if not (owned m w i) || has_other "build_hash" m.cfg.build_hash i
    then lost WorkerError.provider_ownership_mismatch now w tx
    else on_worker w.id (poll_instance m now i) (on_worker w.id (provider_lifetime m now i) tx)

-- the transaction of `poll`; `w` is the worker as the snapshot had it
unfoldable pub poll_update : Manager → ℕ → Worker → Outcome Instance → Tx → Result Tx
unfolding poll_answer
poll_update m now w answer tx = if not (tx.leader == m.owner) then ok tx else do
  current ← or_fail (lookup w.id tx.workers) Error.panic
  if not (current.provider_id == w.provider_id)
      then ok tx
      else ok (
          poll_answer m now w answer (
            update_worker w.id (λ v. record v { next_check_at = now + m.cfg.provider_poll_seconds })
              tx))
