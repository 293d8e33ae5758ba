-- ===== src/Tests/Console.antt =====
-- The theorems on the console at concrete inputs: a region without capacity, an administrator, and
-- a node whose worker has ended.
use Prim.Native.Nat.{ℕ}
use nakama_agones.Prelude.{
  ◌+◌, ◌≤◌, ◌≡◌, refl, String, Bool, true, false, none, some, List, [], ◌∷◌, arith, ◌⊎◌, ◌==◌,
  text_Eq,
}
use nakama_agones.Prelude.Int.{ℤ, pos}
use nakama_agones.Prelude.Float.{Float, whole}
use nakama_agones.Prelude.Table.{lookup}
use nakama_agones.Console.Names.{last_char, every_char}
use nakama_agones.Console.Values.{Json, Items, Fields}
use nakama_agones.Console.Alerts.{
  AlertConfig, AlertCondition, ConditionState, OperationsState, Storage, valid_config,
}
use nakama_agones.Console.Alerts.Samples.{Doubles}
use nakama_agones.Console.Alerts.Evaluate.{evaluate, Notice}
use nakama_agones.Console.Alerts.Update.{AlertUpdate, update_alerts, valid_feishu_secret}
use nakama_agones.Console.Alerts.Holding.{Sighting}
use nakama_agones.Console.Alerts.Histories.{Settled}
use nakama_agones.Console.Alerts.Reached.{sights, evaluated_state}
use nakama_agones.Console.Alerts.Evaluations.{opened, evaluated, evaluate-Settled}
use nakama_agones.Console.Alerts.Limits.{Limited, evaluating, AlertStep-Limited}
use nakama_agones.Console.Alerts.Notices.{Sent, evaluate-Sent}
use nakama_agones.Console.Alerts.Revisions.{Exclusive, update_alerts-Exclusive}
use nakama_agones.Console.Auth.{Codec, AuthState, Request}
use nakama_agones.Console.Auth.Sessions.{session_cookie_name, create_session}
use nakama_agones.Console.Auth.Lifetimes.{Carries, Cycle, create_session-Cycle}
use nakama_agones.Console.Auth.Throttle.{attempts, allow_login-bounds}
use nakama_agones.Console.Retirement.{RetirementCheck, go, Node, Reads, ◌>>=◌}
use nakama_agones.Console.Retirement.Check.{
  check_identity, check_listing, check_fleet, check_node_retirement, check_reads, check_node,
  reject_if,
}
use nakama_agones.Console.Retirement.Safe.{Safe, check_node_retirement-Safe}

abbrev add_floats : Float → Float → Float
add_floats (Float.finite (ℤ.pos a)) (Float.finite (ℤ.pos b)) = Float.finite (ℤ.pos (a + b))
add_floats a b = Float.nan

abbrev doubles : Doubles
doubles = record {
  plus = add_floats;
  minus = λ a b. a;
  of_int = λ n. Float.nan;
  decimal = λ f. "1.0";
}

abbrev pending_pod : Json
pending_pod = Json.object (
    Fields.entry "phase" (Json.string "Pending")
      (Fields.entry "scheduling_capacity_shortage" (Json.flag true) Fields.no_fields))

abbrev region : Json
region = Json.object (
    Fields.entry "name" (Json.string "eu") (
      Fields.entry "ok" (Json.flag true) (
        Fields.entry "pods" (Json.array (Items.item pending_pod Items.no_items)) Fields.no_fields)))

-- a region in which a pod waits for capacity
abbrev snapshot : Fields
snapshot = Fields.entry "regions" (Json.array (Items.item region Items.no_items)) Fields.no_fields

abbrev alerts : AlertConfig
alerts = record {
  enabled = true;
  feishu_enabled = true;
  wait_p95_ms = whole 1000;
  frame_p99_ms = whole 100;
  hold_seconds = pos 15;
  cooldown_seconds = pos 600;
  min_samples = pos 5;
}

abbrev operations : OperationsState
operations = record {
  revision = 1;
  config = alerts;
  feishu_webhook = "hook";
  feishu_signing_secret = "";
  active = [];
  history = [];
  delivery = record { last_success_at = 0; last_error_code = "" };
  audit = [];
}

abbrev shortage_key : String
shortage_key = "physical_capacity_shortage:eu"

-- the first evaluation, at 100, begins the hold; the second, at 116, ends it
abbrev began : OperationsState
began = evaluated_state doubles 100 snapshot operations

abbrev sightings : String → List Sighting
sightings = sights doubles 100 snapshot operations (λ j. [])

abbrev alarm : AlertCondition
alarm = record {
  key = shortage_key;
  kind = "physical_capacity_shortage";
  worker_id = "";
  region = "eu";
  origin = "kubernetes_scheduler";
  state = ConditionState.firing;
  since = 100;
  last_observed_at = 116;
  last_notified_at = 0;
  last_attempt_at = 116;
  value = whole 1;
  threshold = whole 0;
  firing = true;
  recovery_since = 0;
  recovery_pending = false;
}

evaluate-Settled_example :
    Settled
      (pos 15)
      116
      (sights doubles 116 snapshot began sightings shortage_key)
      (lookup shortage_key began.active)
      alarm
unfolding evaluate evaluated_state lookup sights whole last_char every_char
evaluate-Settled_example =
    evaluate-Settled doubles sightings began 116 snapshot Storage.written shortage_key alarm
      (evaluated (λ j. []) operations 100 snapshot (opened operations refl) (omega arith))
      (omega arith) refl

-- every address is well formed
abbrev any_webhook : String → Bool
any_webhook s = true

operations-Limited : Limited any_webhook operations
unfolding valid_config valid_feishu_secret every_char whole
operations-Limited = record {
  revision = omega arith;
  config = refl;
  webhook = refl;
  secret = refl;
  deliverable = λ on. refl;
  active = omega arith;
  history = omega arith;
  audit = omega arith;
}

AlertStep-Limited_example :
    Limited any_webhook (evaluate doubles 100 snapshot Storage.written operations).0
AlertStep-Limited_example =
    AlertStep-Limited any_webhook operations
      (evaluate doubles 100 snapshot Storage.written operations).0
      (evaluating doubles 100 snapshot Storage.written operations) operations-Limited

abbrev notice : Notice
notice = record {
  webhook = "hook";
  secret = "";
  text =
      "Nakama Agones alerts\nfiring physical_capacity_shortage region=eu worker= value=1.0 threshold=1.0 source=kubernetes_scheduler";
  revision = 1;
  at = 116;
  notified = shortage_key ∷ [];
  recoveries = [];
}

evaluate-Sent_example :
    Sent doubles 116 snapshot began (evaluate doubles 116 snapshot Storage.written began).0 notice
unfolding evaluate evaluated_state lookup whole last_char every_char
evaluate-Sent_example =
    evaluate-Sent doubles 116 snapshot Storage.written began
      (evaluate doubles 116 snapshot Storage.written began).0 notice refl

abbrev change : AlertUpdate
change = record {
  expected_revision = pos 1;
  config = record alerts { hold_seconds = pos 30 };
  feishu_webhook = none;
  feishu_signing_secret = none;
}

update_alerts-Exclusive_example :
    ((update_alerts any_webhook 120 change "ann" Storage.written operations).0 ≡ operations)
    ⊎ Exclusive any_webhook change operations
        (update_alerts any_webhook 120 change "ann" Storage.written operations).0
update_alerts-Exclusive_example =
    update_alerts-Exclusive any_webhook 120 change "ann" Storage.written operations

abbrev codec : Codec
codec = record {
  base64_raw = λ s. some s;
  base64_url = λ s. some "raw";
  hex = λ s. some s;
  byte_length = λ s. 32;
  sha256 = λ s. s;
  pbkdf2 = λ password n salt. some salt;
}

abbrev token : String
token = "aaaaaaaaaaaaaaaaaaaaaaaaaaaaaaaaaaaaaaaaaaa"

abbrev browser : Request
browser = record { cookies = ("fleet-admin-session", token) ∷ []; peer = some "10.0.0.1" }

abbrev nobody : AuthState
nobody = record { sessions = []; peers = []; global = record { count = 0; until = 0 } }

browser-Carries : Carries codec false token browser
unfolding session_cookie_name
browser-Carries = record {
  cookies = refl;
  sized = refl;
  raw = "raw";
  decoded = refl;
  complete = refl;
}

create_session-Cycle_example :
    Cycle codec false 1000 2000 browser
      (create_session codec false 1000 token "csrf" browser nobody).0
      (create_session codec false 1000 token "csrf" browser nobody).1
create_session-Cycle_example =
    create_session-Cycle codec false 1000 2000 token "csrf" browser browser nobody browser-Carries
      (omega arith)

abbrev tries : List (ℕ × Request)
tries = (1000, browser) ∷ (1001, browser) ∷ (1002, browser) ∷ []

allow_login-bounds_example :
    (attempts (λ peer. true) tries nobody ≤ 40)
    × (attempts (λ peer. peer == "10.0.0.1") tries nobody ≤ 10)
allow_login-bounds_example =
    allow_login-bounds 1000 tries "10.0.0.1" nobody
      (omega arith, omega arith, (omega arith, omega arith, (omega arith, omega arith, tt))) tt

-- a node that is not ready, whose worker has ended
abbrev node : Node
node = record {
  name = "n1";
  uid = "u1";
  resource_version = "7";
  labels =
      ("nakama-agones.io/game-node", "true")
      ∷ ("nakama-agones.io/role", "game")
      ∷ ("nakama-agones.io/cluster", "c1")
      ∷ [];
  deletion_timestamp = "";
  conditions = record { kind = "Ready"; value = "Unknown" } ∷ [];
  addresses = record { kind = "InternalIP"; value = "10.0.0.9" } ∷ [];
}

abbrev ended_worker : Json
ended_worker = Json.object (
    Fields.entry "id" (Json.string "w1") (
      Fields.entry "region" (Json.string "eu") (
        Fields.entry "host" (Json.string "10.0.0.9")
          (Fields.entry "state" (Json.string "stopped") Fields.no_fields))))

abbrev over_room : Json
over_room = Json.object (
    Fields.entry "worker_id" (Json.string "w1")
      (Fields.entry "state" (Json.string "completed") Fields.no_fields))

abbrev reads : Reads
reads = record {
  node = go node;
  pods = go (record { continue = ""; nodes = "n2" ∷ [] });
  servers = go (record { continue = ""; nodes = [] });
  snapshot = some (
      go (
        Fields.entry "workers" (Json.array (Items.item ended_worker Items.no_items)) (
          Fields.entry "rooms" (Json.array (Items.item over_room Items.no_items))
            Fields.no_fields)));
}

abbrev retirable : RetirementCheck
retirable = record {
  eligible = true;
  reason = "eligible_permanent_retirement_requires_confirmation";
  region = "eu";
  identity = record {
    name = "n1";
    uid = "u1";
    resource_version = "7";
    internal_ips = "10.0.0.9" ∷ [];
    external_ips = [];
  };
}

check_node_retirement-Safe_example : Safe (λ ip. some ip) ("eu" ∷ []) reads "eu" "n1" "c1" retirable
unfolding check_node_retirement last_char every_char check_reads ◌>>=◌ check_identity reject_if
    check_node check_listing check_fleet
check_node_retirement-Safe_example =
    check_node_retirement-Safe (λ ip. some ip) ("eu" ∷ []) reads "eu" "n1" "c1" retirable refl
