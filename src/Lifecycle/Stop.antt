-- ===== src/Lifecycle/Stop.antt =====
-- stop of pkg/fleetmanager/lifecycle.go, and the choice of the operation that a tick makes.
use nakama_agones.Prelude.{
  ℕ, ◌+◌, Bool, true, false, not, ◌&&◌, ◌||◌, Option, none, some, List, [], ◌∷◌, ◌==◌, text_Eq,
  number_Eq, ltb, leb, text_lt, sort, if◌then◌else◌, Result, ok, Error, ◌>>=◌, ◌>>◌, refuse_if,
  or_fail,
}
use nakama_agones.Prelude.Table.{Table, lookup, range}
use nakama_agones.State.{Worker, occupied}
use nakama_agones.State.Phases.{WorkerState, worker_state_Eq, WorkerError}
use nakama_agones.State.Telemetry.{work_finished}
use nakama_agones.Provider.{Outcome, Instance, InstanceStatus}
use nakama_agones.Manager.{Manager, Tx, update_worker}
use nakama_agones.Manager.Admission.{older_than}
use nakama_agones.Lifecycle.Lease.{check_lease}
use nakama_agones.Lifecycle.Sweep.{stopped}
use nakama_agones.Lifecycle.Instances.{owned}

-- a worker that was drained has work left, or has not been heard of
unfoldable pub still_serving : Manager → ℕ → Tx → Worker → Bool
still_serving m now tx w =
    w.draining
    && (not w.drain_ack
        || ltb 0 (occupied tx.state w.id)
        || ltb 0 w.player_count
        || not (work_finished w.metrics)
        || older_than now w.last_heartbeat m.cfg.heartbeat_timeout)

-- the transaction before the provider is told to stop: it changes nothing
unfoldable pub stop_check : Manager → ℕ → Worker → Tx → Result Tx
unfolding still_serving
stop_check m now w tx = do
  check_lease m now tx
  current ← or_fail (lookup w.id tx.workers) Error.busy
  refuse_if
      (not (current.state == WorkerState.stopping) || not (current.provider_id == w.provider_id))
      Error.busy
  refuse_if (still_serving m now tx current) Error.busy
  ok tx

-- the transaction after the provider refused to stop the instance
unfoldable pub stop_failed : Manager → ℕ → Worker → Tx → Result Tx
stop_failed m now w tx = if not (tx.leader == m.owner) then ok tx else do
  current ← or_fail (lookup w.id tx.workers) Error.panic
  ok (
      update_worker w.id
        (λ v. record v {
          error = WorkerError.provider_stop_failed;
          next_check_at = now + m.cfg.provider_poll_seconds;
        })
        tx)

abbrev is_stopped : InstanceStatus → Bool
is_stopped InstanceStatus.stopped = true
is_stopped _ = false

-- whether the answer of Get shows that the instance is gone
unfoldable pub stop_confirmed : Manager → Worker → Outcome Instance → Bool
stop_confirmed m w (Outcome.done i) = is_stopped i.status && owned m w i
stop_confirmed m w (Outcome.api_error e) = e.status_code == 404
stop_confirmed m w Outcome.other_error = false

-- the transaction after the provider accepted the stop; `answer` is that of the Get that follows
unfoldable pub stop_finish : Manager → ℕ → Worker → Outcome Instance → Tx → Result Tx
stop_finish m now w answer tx = if not (tx.leader == m.owner) then ok tx else do
  current ← or_fail (lookup w.id tx.workers) Error.panic
  let checked =
      update_worker w.id (λ v. record v { next_check_at = now + m.cfg.provider_poll_seconds }) tx
  if stop_confirmed m w answer
      then ok (stopped now w checked)
      else ok (
          update_worker w.id (λ v. record v { error = WorkerError.awaiting_stop_confirmation })
            checked)

-- the workers that the end of Tick looks at
unfoldable pub is_due : ℕ → Worker → Bool
is_due now w =
    w.state == WorkerState.requested
    || (leb w.next_check_at now
        && (w.state == WorkerState.unknown
            || w.state == WorkerState.stopping
            || (not (w.provider_id == "")
                && (w.state == WorkerState.launching
                    || w.state == WorkerState.bootstrapping
                    || w.state == WorkerState.ready
                    || w.state == WorkerState.suspect
                    || w.state == WorkerState.draining
                    || w.state == WorkerState.lost))))

unfoldable pub due_workers : ℕ → List Worker → List Worker
due_workers now [] = []
due_workers now (w ∷ ws) = let rest = due_workers now ws in if is_due now w then w ∷ rest else rest

abbrev pub due_at : Worker → ℕ
due_at w = if w.next_check_at == 0 then w.updated_at else w.next_check_at

unfoldable pub due_before : Worker → Worker → Bool
due_before a b = if due_at a == due_at b then text_lt a.id b.id else ltb (due_at a) (due_at b)

-- ids[:1] after the sort
unfoldable pub next_due : ℕ → Table Worker → Option Worker
next_due now workers = elim (sort due_before (due_workers now (range workers))) [
  | [] ↦ none
  | w ∷ ws ↦ some w
]

pub data Operation : Type 0 where
  start reconcile poll stop nothing : Operation

-- the switch on the state of that worker
unfoldable pub operation : ℕ → Worker → Operation
operation now w = elim w.state [
  | WorkerState.requested ↦ Operation.start
  | WorkerState.unknown ↦ if leb w.next_check_at now then Operation.reconcile else Operation.nothing
  | WorkerState.stopping ↦ if leb w.next_check_at now then Operation.stop else Operation.nothing
  | WorkerState.starting ↦ Operation.nothing
  | WorkerState.stopped ↦ Operation.nothing
  | WorkerState.failed ↦ Operation.nothing
  | _ ↦
      if not (w.provider_id == "") && leb w.next_check_at now
      then Operation.poll
      else Operation.nothing
]
