-- ===== src/Agent/Reports.antt =====
-- The report of a heartbeat: its rooms are validated before anything is written
-- (pkg/fleetmanager/http.go).
use nakama_agones.Prelude.{
  ℕ, String, Bool, not, ◌&&◌, ◌||◌, Option, none, some, List, [], ◌∷◌, ◌==◌, text_Eq, ltb, length,
  if◌then◌else◌, Result, ok, Error, ◌>>=◌, ◌>>◌, refuse_if, or_fail,
}
use nakama_agones.Prelude.Table.{Table}
use nakama_agones.State.{Worker, Allocation}
use nakama_agones.State.Phases.{WorkerState, worker_state_Eq}
use nakama_agones.State.Telemetry.{Metrics}
use nakama_agones.Manager.Users.{contains}

pub record RoomReport : Type 0 where
  pub room_id : String
  pub state : String
  pub user_ids : List String

pub record CommandResult : Type 0 where
  pub command_id : String
  pub success : Bool
  pub error : String

pub record HeartbeatRequest : Type 0 where
  pub worker_id : String
  pub boot_id : String
  pub sequence : ℕ
  pub ready : Bool
  pub rooms : List RoomReport
  pub metrics : Metrics
  pub command_results : List CommandResult

unfoldable pub valid_room_state : String → Bool
valid_room_state value =
    value == "waiting_players"
    || value == "playing"
    || value == "closing"
    || value == "closed"
    || value == "between_rounds"

-- the first allocation with this room on this worker
unfoldable pub find_room : String → String → Table Allocation → Option Allocation
find_room room_id wid [] = none
find_room room_id wid ((k, a) ∷ rest) =
    let later = find_room room_id wid rest in
    if a.room_id == room_id && a.worker_id == wid then some a else later

-- the loop over the users of a room; `seen` holds those met before
unfoldable pub check_users : Allocation → List String → List String → Result (Unit {0})
check_users a seen [] = ok tt
check_users a seen (user ∷ users) = do
  refuse_if (not (contains a.user_ids user) || contains seen user) Error.forbidden
  check_users a (user ∷ seen) users

-- the loop over the rooms
unfoldable pub check_rooms :
    Worker → Table Allocation → List String → List RoomReport → Result (Unit {0})
check_rooms w allocations seen [] = ok tt
check_rooms w allocations seen (room ∷ rooms) = do
  refuse_if (contains seen room.room_id || ltb 2 (length room.user_ids)) Error.forbidden
  a ← or_fail (find_room room.room_id w.id allocations) Error.forbidden
  refuse_if (not (valid_room_state room.state)) Error.forbidden
  check_users a [] room.user_ids
  check_rooms w allocations (room.room_id ∷ seen) rooms

-- the state of a worker that reports itself ready and has an endpoint
unfoldable pub reported_state : HeartbeatRequest → Worker → WorkerState
reported_state input w =
    if w.provider_ready
      && not (w.host == "")
      && input.ready
      && not (w.state == WorkerState.stopping)
      && not (w.state == WorkerState.unknown)
      && not (w.state == WorkerState.requested)
      && not (w.state == WorkerState.starting)
    then (if w.draining then WorkerState.draining else WorkerState.ready)
    else w.state

unfoldable pub record_report : HeartbeatRequest → ℕ → Worker → Worker
unfolding reported_state
record_report input now w = record w {
  last_heartbeat = now;
  last_sequence = input.sequence;
  ready = input.ready;
  metrics = input.metrics;
  state = reported_state input w;
}
