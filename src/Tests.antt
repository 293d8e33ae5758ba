-- ===== src/Tests.antt =====
-- A concrete fleet: one controller, one instance of two rooms, and its history until two players sit
-- in a room.
mod Witnesses
mod Console
mod Hosting
use nakama_agones.Prelude.{
  ℕ, zero, suc, ◌+◌, ◌≡◌, refl, ap, String, Bool, true, false, Option, none, some, List, [], ◌∷◌,
  arith,
}
use nakama_agones.Prelude.Float.{Float, whole}
use nakama_agones.Provider.{Outcome, Instance, InstanceStatus, Any}
use nakama_agones.State.{Worker}
use nakama_agones.State.Phases.{WorkerState, WorkerError}
use nakama_agones.State.Telemetry.{Metrics, no_metrics}
use nakama_agones.Manager.{Config, Runtime, Tx}
use nakama_agones.Agent.{BootstrapRequest}
use nakama_agones.Agent.Reports.{HeartbeatRequest, CommandResult}
use nakama_agones.Fleet.{Transaction, Step, run}

abbrev pub config : Config
config = record {
  deployment_id = "arena";
  control_url = "https://control";
  build_hash = "b1";
  region = "eu";
  port_name = "game";
  max_rooms = 2;
  min_instances = 1;
  max_instances = 4;
  cpu_request = "500m";
  cpu_limit = "500m";
  game_port = 7777;
  admin_token = "admin";
  signing_key = 1 ∷ 2 ∷ 3 ∷ [];
  server_environment = [];
  launch_timeout = 120;
  allocation_timeout = 60;
  prepare_timeout = 20;
  reservation_ttl = 45;
  reconnect_seconds = 30;
  heartbeat_timeout = 15;
  lost_timeout = 60;
  idle_seconds = 300;
  provider_poll_seconds = 5;
  min_lifetime_for_admission = 900;
  max_queue_age_seconds = whole 30;
}

-- identifiers "i", "ii", "iii", ...
abbrev pub draw : ℕ → String
draw zero = "i"
draw (suc n) = String.◌∷◌ "i" (draw n)

-- the number of characters
abbrev size : String → ℕ
size String.[] = 0
size (String.◌∷◌ c s) = suc (size s)

size-draw : (n : ℕ) → size (draw n) ≡ suc n
size-draw zero = refl
size-draw (suc n) = ap suc (size-draw n)

pub draw-distinct : (i j : ℕ) → draw i ≡ draw j → i ≡ j
draw-distinct i j e =
    let sizes : size (draw i) ≡ size (draw j) = ap size e in
    omega (arith, sizes, size-draw i, size-draw j)

abbrev pub runtime : Runtime
runtime = record {
  draws = draw;
  parse_float = λ s. none;
  scale = λ n x. x;
  ceil = λ x. 0;
  parse_time = λ s. none;
  derive = λ key purpose. key;
  encode = λ key. "token";
}

abbrev pub step : ℕ → Transaction → Step
step now t = record { cfg = config; owner = "a"; now = now; skipped = 0; transaction = t }

abbrev pub instance_ : InstanceStatus → Instance
instance_ status = record {
  instance_id = "p1";
  status = status;
  network_ports =
      record {
        name = "game";
        host = "10.0.0.7";
        external_port = 30001;
        internal_port = 7777;
        protocol = "udp";
      }
      ∷ [];
  custom_data =
      ("fleet_owner", Any.text "arena")
      ∷ ("worker_id", Any.text "i")
      ∷ ("build_hash", Any.text "b1")
      ∷ [];
  ttl = 0;
  started_at = "";
}

abbrev pub beat : ℕ → List CommandResult → HeartbeatRequest
beat sequence results = record {
  worker_id = "i";
  boot_id = "boot";
  sequence = sequence;
  ready = true;
  rooms = [];
  metrics = no_metrics;
  command_results = results;
}

abbrev pub boot : BootstrapRequest
boot = record { worker_id = "i"; bootstrap_token = "token"; boot_id = "boot"; build_hash = "b1" }

-- the instance as the controller's snapshot has it
abbrev pub server : Worker
server = record {
  policy_revision = 1;
  cpu_request = "500m";
  cpu_limit = "500m";
  id = "i";
  provider_id = "p1";
  provider_ready = true;
  provider_expires_at = 0;
  boot_id = "boot";
  state = WorkerState.ready;
  region = "eu";
  build_hash = "b1";
  host = "10.0.0.7";
  port = 30001;
  max_rooms = 2;
  created_at = 100;
  updated_at = 101;
  last_heartbeat = 103;
  last_sequence = 1;
  next_check_at = 108;
  idle_since = 0;
  ready = true;
  draining = false;
  drain_ack = false;
  player_count = 0;
  metrics = no_metrics;
  error = WorkerError.empty;
  initial_allocation_id = "";
}

abbrev pub players : List String
players = "ann" ∷ "bob" ∷ []

-- a tick creates the instance; it starts, its agent boots and reports; two players ask for a room,
-- a tick places it, and the agent prepares it
abbrev pub history : List Step
history =
    step 100 Transaction.tick
    ∷ step 100 (Transaction.begin_start "i")
    ∷ step 100
        (Transaction.finish_start 101 (Outcome.done (instance_ InstanceStatus.launching)) "i")
    ∷ step 102 (Transaction.bootstrap_agent boot)
    ∷ step 103 (Transaction.report (beat 1 []))
    ∷ step 103 (Transaction.poll server (Outcome.done (instance_ InstanceStatus.running)))
    ∷ step 104 (Transaction.allocate_room players "request")
    ∷ step 105 Transaction.tick
    ∷ step 106 (
        Transaction.report
          (beat 2 (record { command_id = "iiii"; success = true; error = "" } ∷ [])))
    ∷ []

abbrev pub reached : Tx
reached = run runtime history
