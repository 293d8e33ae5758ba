-- ===== src/Manager/Requests.antt =====
-- The transactions of Allocate, Cancel, Join, Update, Delete and Drain of
-- pkg/fleetmanager/manager.go. Each is the function that the method hands to store.Update.
use nakama_agones.Prelude.{
  ℕ, ◌*◌, String, Bool, not, ◌||◌, List, ◌==◌, text_Eq, ltb, if◌then◌else◌, Result, ok, err, Error,
  ◌>>=◌, ◌>>◌, refuse_if, or_fail,
}
use nakama_agones.Prelude.Int.{ℤ, pos, ltb_ℤ, pos_part}
use nakama_agones.Prelude.Table.{lookup}
use nakama_agones.State.{occupied}
use nakama_agones.State.Phases.{
  Blocked, WorkerState, worker_state_Eq, Phase, phase_Eq, Reason, terminal,
}
use nakama_agones.State.Telemetry.{work_finished}
use nakama_agones.Manager.{Manager, Tx, update_worker}
use nakama_agones.Manager.Users.{contains}
use nakama_agones.Manager.Admission.{eligible}
use nakama_agones.Manager.Allocations.{allocation, cancel, reserve}
use nakama_agones.Manager.Instances.{drainable, begin_drain}

unfoldable pub allocate : Manager → List String → String → ℕ → Tx → Result (String × Tx)
allocate m users key now tx = allocation m users key now m.cfg.allocation_timeout tx

-- Cancel
unfoldable pub cancel_request : Manager → String → String → ℕ → Tx → Result Tx
cancel_request m user aid now tx = do
  a ← or_fail (lookup aid tx.allocations) Error.not_found
  refuse_if (not (contains a.user_ids user)) Error.forbidden
  if terminal a.state || a.state == Phase.cancelling
      then ok tx
      else if a.state == Phase.active
      then err Error.busy
      else ok (cancel m Reason.cancelled now aid tx)

-- Join, less the connection data that it copies out of the worker and the sessions
unfoldable pub join : Manager → String → List String → String → ℕ → Tx → Result Tx
join m wid users aid now tx = do
  a ← or_fail (lookup aid tx.allocations) Error.not_found
  w ← or_fail (lookup wid tx.workers) Error.not_found
  refuse_if (not (a.worker_id == wid)) Error.forbidden
  refuse_if (not (eligible m now w)) Error.busy
  reserve m users now m.cfg.reservation_ttl a tx

-- Update; `metadata` says whether the metadata map is not empty
unfoldable pub update_players : String → ℤ → Bool → Tx → Result Tx
update_players wid player_count metadata tx = do
  w ← or_fail (lookup wid tx.workers) Error.not_found
  refuse_if (ltb_ℤ player_count (pos 0) || ltb_ℤ (pos (w.max_rooms * 2)) player_count) Error.invalid
  refuse_if metadata Error.invalid
  ok (update_worker wid (λ v. record v { player_count = pos_part player_count }) tx)

-- Delete
unfoldable pub delete_worker : Manager → String → ℕ → Tx → Result Tx
delete_worker m wid now tx = do
  w ← or_fail (lookup wid tx.workers) Error.not_found
  if w.state == WorkerState.stopped
      then ok tx
      else if not (drainable w)
          || ltb 0 (occupied tx.state wid)
          || ltb 0 w.player_count
          || not (work_finished w.metrics)
      then err Error.busy
      else ok (begin_drain m now w tx)

-- Drain
unfoldable pub drain : Manager → String → ℕ → Tx → Result Tx
drain m wid now tx = do
  w ← or_fail (lookup wid tx.workers) Error.not_found
  if w.state == WorkerState.stopped
      then ok tx
      else if not (drainable w)
      then err Error.busy
      else ok (begin_drain m now w tx)

-- the transaction of the route admin/retry-creation of HTTPHandler (pkg/fleetmanager/http.go)
unfoldable pub retry_creation : Tx → Tx
retry_creation tx = record tx {
  state = record tx.state { creation_blocked_reason = Blocked.open_; next_create_at = 0 };
}
