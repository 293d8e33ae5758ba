-- ===== src/Manager.antt =====
-- pkg/fleetmanager/manager.go and config.go: the controller's configuration, and a transaction of
-- the store as explicit state passing. The operations are in the modules below.
pub mod Users
pub mod Allocations
pub mod Policy
pub mod Instances
pub mod Admission
pub mod Requests
pub mod Create
pub mod Startup
pub mod Idempotence
pub mod Bounds
pub mod Tickets
pub mod Listing
pub mod Passes
pub mod Signing
pub mod Ownership
use nakama_agones.Prelude.{ℕ, ◌+◌, String, Bool, Option, none, some, List, [], ◌∷◌}
use nakama_agones.Prelude.Float.{Float}
use nakama_agones.Prelude.Table.{Table, lookup, insert, modify}
use nakama_agones.State.{State, Worker, Allocation, Command}

-- `Config`, less what only the construction of the process reads. `cpu_request` and `cpu_limit`
-- are fields of `Kubernetes`.
pub record Config : Type 0 where
  pub deployment_id : String
  pub control_url : String
  pub build_hash : String
  pub region : String
  pub port_name : String
  pub max_rooms : ℕ
  pub min_instances : ℕ
  pub max_instances : ℕ
  pub cpu_request : String
  pub cpu_limit : String
  pub game_port : ℕ
  pub admin_token : String
  pub signing_key : List ℕ
  pub server_environment : List (String × String)
  pub launch_timeout : ℕ
  pub allocation_timeout : ℕ
  pub prepare_timeout : ℕ
  pub reservation_ttl : ℕ
  pub reconnect_seconds : ℕ
  pub heartbeat_timeout : ℕ
  pub lost_timeout : ℕ
  pub idle_seconds : ℕ
  pub provider_poll_seconds : ℕ
  pub min_lifetime_for_admission : ℕ
  pub max_queue_age_seconds : Float

-- What the controller uses of the runtime: `draws n` is the n-th value of id() (crypto/rand, in
-- hex), `parse_float`, `scale` and `ceil` are strconv.ParseFloat, the product of a double with 1 or
-- 1000, and int(math.Ceil(x)); `parse_time` is time.Parse(time.RFC3339Nano, s) with Unix();
-- `derive` is HMAC-SHA256 of a purpose under a key and `encode` is unpadded base64url.
pub record Runtime : Type 0 where
  pub draws : ℕ → String
  pub parse_float : String → Option Float
  pub scale : ℕ → Float → Float
  pub ceil : Float → ℕ
  pub parse_time : String → Option ℕ
  pub derive : List ℕ → String → List ℕ
  pub encode : List ℕ → String

pub record Manager : Type 0 where
  pub cfg : Config
  pub owner : String
  pub runtime : Runtime

-- The copy of the state that a transaction works on, and the number of identifiers drawn so far.
pub record Tx : Type 0 where
  pub state : State
  pub open state use *
  pub drawn : ℕ

-- id(): the identifier, to be followed by `advance`
abbrev pub fresh : Manager → Tx → String
fresh m tx = m.runtime.draws tx.drawn

abbrev pub advance : Tx → Tx
advance tx = record tx { drawn = tx.drawn + 1 }

abbrev pub with_workers : Table Worker → Tx → Tx
with_workers t tx = record tx { state = record tx.state { workers = t } }

abbrev pub with_allocations : Table Allocation → Tx → Tx
with_allocations t tx = record tx { state = record tx.state { allocations = t } }

abbrev pub with_commands : Table Command → Tx → Tx
with_commands t tx = record tx { state = record tx.state { commands = t } }

-- writes through the pointers s.Workers[wid] and s.Allocations[aid]
abbrev pub update_worker : String → (Worker → Worker) → Tx → Tx
update_worker wid f tx = with_workers (modify wid f tx.workers) tx

abbrev pub update_allocation : String → (Allocation → Allocation) → Tx → Tx
update_allocation aid f tx = with_allocations (modify aid f tx.allocations) tx

-- what follows `w := s.Workers[wid]`; with no such key the loops and methods below do nothing
abbrev pub on_worker : String → (Worker → Tx → Tx) → Tx → Tx
on_worker wid f tx = elim (lookup wid tx.workers) [ none ↦ tx | some w ↦ f w tx ]

abbrev pub on_allocation : String → (Allocation → Tx → Tx) → Tx → Tx
on_allocation aid f tx = elim (lookup aid tx.allocations) [ none ↦ tx | some a ↦ f a tx ]

-- s.Commands[c.ID] = c
abbrev pub put_command : Command → Tx → Tx
put_command c tx = with_commands (insert c.id c tx.commands) tx
