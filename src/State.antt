-- ===== src/State.antt =====
-- internal/state/state.go and internal/state/policy.go: the durable control-plane state.
-- The strings that the program writes into `State`, `Error`, `Type` and `CreationBlockedReason` are
-- the constructors of enumerations; identifiers, hosts and resource quantities stay texts.
-- Times are Unix seconds, natural numbers.
pub mod Phases
pub mod Telemetry
use nakama_agones.Prelude.{ℕ, String, Bool, not, ◌&&◌, Option, none, List, [], ◌==◌, text_Eq}
use nakama_agones.Prelude.Table.{Table, count}
use Phases.{WorkerState, Phase, Reason, WorkerError, CommandType, Blocked, terminal}
use Telemetry.{Metrics}

pub record CapacityPolicy : Type 0 where
  pub revision : ℕ
  pub rooms_per_instance : ℕ
  pub cpu_request_millicores : ℕ
  pub cpu_limit_millicores : ℕ
  pub updated_at : ℕ
  pub updated_by : String

pub record PolicyAudit : Type 0 where
  pub at : ℕ
  pub actor : String
  pub before : CapacityPolicy
  pub after : CapacityPolicy

pub record Worker : Type 0 where
  pub policy_revision : ℕ
  pub cpu_request : String
  pub cpu_limit : String
  pub id : String
  pub provider_id : String
  pub provider_ready : Bool
  pub provider_expires_at : ℕ
  pub boot_id : String
  pub state : WorkerState
  pub region : String
  pub build_hash : String
  pub host : String
  pub port : ℕ
  pub max_rooms : ℕ
  pub created_at : ℕ
  pub updated_at : ℕ
  pub last_heartbeat : ℕ
  pub last_sequence : ℕ
  pub next_check_at : ℕ
  pub idle_since : ℕ
  pub ready : Bool
  pub draining : Bool
  pub drain_ack : Bool
  pub player_count : ℕ
  pub metrics : Metrics
  pub error : WorkerError
  pub initial_allocation_id : String

pub record Session : Type 0 where
  pub id : String
  pub user_id : String
  pub seat : ℕ
  pub expires_at : ℕ
  pub connected : Bool
  pub ever_connected : Bool
  pub reconnect_until : ℕ

pub record Allocation : Type 0 where
  pub id : String
  pub request_key : String
  pub room_id : String
  pub worker_id : String
  pub preferred_worker_id : String
  pub user_ids : List String
  pub state : Phase
  pub epoch : ℕ
  pub revision : ℕ
  pub created_at : ℕ
  pub expires_at : ℕ
  pub sessions : List Session
  pub error : Reason
  pub terminal_at : ℕ
  pub notified_revision : ℕ

pub record Command : Type 0 where
  pub id : String
  pub type : CommandType
  pub worker_id : String
  pub room_id : String
  pub allocation_id : String
  pub epoch : ℕ
  pub user_ids : List String
  pub expires_at : ℕ
  pub done : Bool
  pub attempts : ℕ
  pub not_before : ℕ

pub record State : Type 0 where
  pub capacity_policy : Option CapacityPolicy
  pub policy_audit : List PolicyAudit
  pub profile : String
  pub revision : ℕ
  pub leader : String
  pub lease_until : ℕ
  pub next_create_at : ℕ
  pub creation_blocked_reason : Blocked
  pub workers : Table Worker
  pub allocations : Table Allocation
  pub commands : Table Command

unfoldable pub new : State
new = record {
  capacity_policy = none;
  policy_audit = [];
  profile = "";
  revision = 0;
  leader = "";
  lease_until = 0;
  next_create_at = 0;
  creation_blocked_reason = Blocked.open_;
  workers = [];
  allocations = [];
  commands = [];
}

-- the test of `Occupied` on one allocation
abbrev pub occupies : String → Allocation → Bool
occupies worker_id a = a.worker_id == worker_id && not (terminal a.state)

unfoldable pub occupied : State → String → ℕ
occupied s worker_id = count (occupies worker_id) s.allocations
