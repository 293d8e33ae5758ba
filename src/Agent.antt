-- ===== src/Agent.antt =====
-- pkg/fleetmanager/http.go: what the agent of a game server reports, and its bootstrap.
pub mod Reports
pub mod Results
pub mod Rooms
pub mod Backoff
pub mod Replay
pub mod Heard
pub mod Repeat
use Prim.Native.Nat.{min}
use Prim.Native.String.{len, ◌++◌ as text_append}
use nakama_agones.Prelude.{
  ℕ, ◌+◌, String, Bool, true, false, not, ◌&&◌, ◌||◌, List, [], ◌∷◌, ◌==◌, text_Eq, number_Eq, ltb,
  leb, length, take, sort, text_lt, for_each, try_each, if◌then◌else◌, Result, ok, Error, ◌>>=◌,
  ◌>>◌, refuse_if, or_fail,
}
use nakama_agones.Prelude.Table.{lookup, keys, range}
use nakama_agones.State.{Worker, Command}
use nakama_agones.State.Phases.{WorkerState, worker_state_Eq}
use nakama_agones.State.Telemetry.{valid_metrics}
use nakama_agones.Manager.{Manager, Tx, update_worker}
use nakama_agones.Manager.Admission.{older_than}
use Reports.{HeartbeatRequest, check_rooms, record_report}
use Results.{apply_result}
use Rooms.{report_rooms}

-- hmac.Equal on texts, which are not empty
unfoldable pub equal_token : String → String → Bool
equal_token got want = ltb 0 (len got) && got == want

pub record BootstrapRequest : Type 0 where
  pub worker_id : String
  pub bootstrap_token : String
  pub boot_id : String
  pub build_hash : String

-- the tests of bootstrapHTTP before its transaction
unfoldable pub bootstrap_guard : Manager → BootstrapRequest → Result (Unit {0})
bootstrap_guard m input = do
  refuse_if (input.worker_id == "" || input.boot_id == "" || ltb 128 (len input.boot_id))
      Error.invalid
  refuse_if
      (not (
          equal_token input.bootstrap_token (
            m.runtime.encode
              (m.runtime.derive m.cfg.signing_key (text_append "bootstrap:" input.worker_id))))
        || not (input.build_hash == m.cfg.build_hash))
      Error.forbidden

abbrev pub booted : String → Worker → Worker
booted boot_id w = record w { boot_id = boot_id }

-- its transaction
unfoldable pub bootstrap : Manager → BootstrapRequest → ℕ → Tx → Result Tx
bootstrap m input now tx = do
  w ← or_fail (lookup input.worker_id tx.workers) Error.not_found
  refuse_if
      (w.state == WorkerState.stopped
        || w.state == WorkerState.failed
        || w.state == WorkerState.lost)
      Error.busy
  refuse_if (w.boot_id == "" && older_than now w.created_at m.cfg.launch_timeout) Error.forbidden
  refuse_if (not (w.boot_id == "") && not (w.boot_id == input.boot_id)) Error.forbidden
  ok (update_worker input.worker_id (booted input.boot_id) tx)

-- the tests of heartbeatHTTP before its transaction; `token` is the bearer token
unfoldable pub heartbeat_guard : Manager → HeartbeatRequest → String → Result (Unit {0})
heartbeat_guard m input token = do
  refuse_if
      (input.sequence == 0
        || ltb 512 (length input.rooms)
        || ltb 256 (length input.command_results)
        || not (valid_metrics input.metrics))
      Error.invalid
  refuse_if
      (not (
        equal_token token (
          m.runtime.encode (
            m.runtime.derive m.cfg.signing_key (
              text_append "agent:"
                (text_append input.worker_id (text_append ":" input.boot_id)))))))
      Error.forbidden

-- the body of the branch for a report that is newer than the last
unfoldable pub apply_report : Manager → HeartbeatRequest → ℕ → Worker → Tx → Result Tx
apply_report m input now w tx = do
  check_rooms w tx.allocations [] input.rooms
  acknowledged ←
      try_each (apply_result m now w.id) input.command_results
        (update_worker w.id (record_report input now) tx)
  ok (
      for_each (report_rooms m now w.id) input.rooms
        (update_worker w.id (λ v. record v { player_count = 0 }) acknowledged))

pub record HeartbeatResponse : Type 0 where
  pub commands : List Command
  pub draining : Bool
  pub revision : ℕ

unfoldable pub pending_commands : String → ℕ → List Command → List Command
pending_commands wid now [] = []
pending_commands wid now (c ∷ cs) =
    let rest = pending_commands wid now cs in
    if c.worker_id == wid && not c.done && leb c.not_before now then c ∷ rest else rest

abbrev pub command_before : Command → Command → Bool
command_before c d = text_lt c.id d.id

-- the end of the transaction; `w` is the worker after the report
unfoldable pub response : ℕ → Worker → Tx → HeartbeatResponse
response now w tx = record {
  commands = take 64 (sort command_before (pending_commands w.id now (range tx.commands)));
  draining = w.draining;
  revision = tx.revision + 1;
}

-- the transaction of heartbeatHTTP
unfoldable pub heartbeat : Manager → HeartbeatRequest → ℕ → Tx → Result (HeartbeatResponse × Tx)
heartbeat m input now tx = do
  w ← or_fail (lookup input.worker_id tx.workers) Error.not_found
  refuse_if (ltb w.max_rooms (length input.rooms)) Error.forbidden
  refuse_if
      (not (w.boot_id == input.boot_id)
        || w.state == WorkerState.stopped
        || w.state == WorkerState.lost
        || w.state == WorkerState.failed)
      Error.forbidden
  reported ← (if ltb w.last_sequence input.sequence then apply_report m input now w tx else ok tx)
  after ← or_fail (lookup input.worker_id reported.workers) Error.panic
  ok (response now after reported, reported)
