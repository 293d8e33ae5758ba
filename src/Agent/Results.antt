-- ===== src/Agent/Results.antt =====
-- The loop of a heartbeat over the results of commands (pkg/fleetmanager/http.go).
use Prim.Native.Nat.{min}
use nakama_agones.Prelude.{
  ℕ, ◌+◌, ◌*◌, ◌^◌, String, true, false, not, ◌&&◌, ◌||◌, none, some, ◌==◌, text_Eq, number_Eq, leb,
  if◌then◌else◌, Result, ok, Error, ◌>>=◌, ◌>>◌, refuse_if, or_fail,
}
use nakama_agones.Prelude.Table.{lookup, modify}
use nakama_agones.State.{Worker, Allocation, Command}
use nakama_agones.State.Phases.{
  Phase, phase_Eq, Reason, is_cancelled, is_prepare_room, is_cancel_room, is_drain,
}
use nakama_agones.Manager.{
  Manager, Tx, fresh, advance, with_commands, put_command, update_worker, update_allocation,
}
use nakama_agones.Manager.Admission.{eligible}
use nakama_agones.Manager.Allocations.{touch, finish, cancel, reserve}
use nakama_agones.Agent.Reports.{CommandResult}

abbrev pub mark_done : Command → Command
mark_done c = record c { done = true }

unfoldable pub prepare_done : Allocation → Allocation
unfolding touch
prepare_done a = touch (record a { state = Phase.prepared })

-- a room that was prepared in time is seated if its worker can be given a room
unfoldable pub room_prepared : Manager → ℕ → Command → Worker → Allocation → Tx → Result Tx
unfolding prepare_done
room_prepared m now c w a tx =
    if leb c.expires_at now || w.draining
    then ok (cancel m Reason.prepare_expired now a.id tx)
    else let prepared = update_allocation a.id prepare_done tx in
      if eligible m now w
      then reserve m a.user_ids now m.cfg.reservation_ttl (prepare_done a) prepared
      else ok prepared

unfoldable pub room_cancelled : ℕ → Allocation → Tx → Tx
room_cancelled now a tx =
    update_allocation a.id
      (finish (if is_cancelled a.error then Phase.cancelled else Phase.expired) a.error now) tx

-- a success, for an allocation of the command's epoch
unfoldable pub acknowledged : Manager → ℕ → String → Command → Allocation → Tx → Result Tx
unfolding room_prepared room_cancelled
acknowledged m now wid c a tx =
    if is_prepare_room c.type && a.state == Phase.preparing
    then (do w ← or_fail (lookup wid tx.workers) Error.panic; room_prepared m now c w a tx)
    else if is_cancel_room c.type && a.state == Phase.cancelling
    then ok (room_cancelled now a tx)
    else ok tx

abbrev pub drain_acknowledged : Command → Worker → Worker
drain_acknowledged c w = if is_drain c.type then record w { drain_ack = true } else w

unfoldable pub succeeded : Manager → ℕ → String → Command → Tx → Result Tx
unfolding acknowledged
succeeded m now wid c tx =
    let noted = update_worker wid (drain_acknowledged c) tx in
    elim (lookup c.allocation_id tx.allocations) [
      | none ↦ ok noted
      | some a ↦ if a.epoch == c.epoch then acknowledged m now wid c a noted else ok noted
    ]

-- int64(2 << min(attempts, 4))
unfoldable pub retry_delay : ℕ → ℕ
retry_delay attempts = 2 * 2 ^ min attempts 4

unfoldable pub retry : Manager → ℕ → Command → Tx → Command
unfolding retry_delay
retry m now c tx = record c {
  id = fresh m tx;
  done = false;
  attempts = c.attempts + 1;
  not_before = now + retry_delay (c.attempts + 1);
  expires_at = now + 3600;
}

unfoldable pub failed : Manager → ℕ → Command → Tx → Tx
unfolding retry
failed m now c tx =
    if is_prepare_room c.type
    then elim (lookup c.allocation_id tx.allocations) [
      | none ↦ tx
      | some a ↦
          if a.state == Phase.preparing then cancel m Reason.room_prepare_failed now a.id tx else tx
    ]
    else advance (put_command (retry m now c tx) tx)

-- the body of the loop; `wid` is the worker that reports
unfoldable pub apply_result : Manager → ℕ → String → CommandResult → Tx → Result Tx
unfolding succeeded failed
apply_result m now wid result tx = do
  c ← or_fail (lookup result.command_id tx.commands) Error.forbidden
  refuse_if (not (c.worker_id == wid)) Error.forbidden
  if c.done
      then ok tx
      else let closed = with_commands (modify result.command_id mark_done tx.commands) tx in
        if result.success then succeeded m now wid c closed else ok (failed m now c closed)
