-- ===== src/Tests/Witnesses.antt =====
-- The theorems at concrete inputs: the fleet of the parent module, and states close to it.
use nakama_agones.Prelude.{
  ltb, ◌||◌, err, Error, false, none, some, text_lt, if◌then◌else◌, ◌==◌, text_Eq, ◌≤◌, ◌≡◌, ◌≢◌,
  refl, eq_iff, String, true, [], ◌∷◌, arith, ok, length, ◌>>=◌, refuse_if, or_fail, Returns, not,
}
use nakama_agones.Prelude.Table.{Table, lookup, insert, range, count}
use nakama_agones.Prelude.Table.Laws.{All}
use nakama_agones.State.{Session, Worker, Allocation, Command, new, occupied}
use nakama_agones.State.Phases.{WorkerState, Phase, phase_Eq, Reason, CommandType, terminal}
use nakama_agones.Manager.{Manager, Tx, advance, with_allocations}
use nakama_agones.State.Telemetry.{no_metrics, work_finished}
use nakama_agones.Prelude.Float.{leb_float}
use nakama_agones.Manager.Admission.{eligible}
use nakama_agones.Manager.Policy.{PolicyUpdate, update_policy}
use mathlib.Core.List.{Permᴰ}
use nakama_agones.Manager.Allocations.{new_allocation}
use nakama_agones.Manager.Users.{contains, valid_users}
use nakama_agones.Manager.Requests.{allocate, cancel_request}
use nakama_agones.Manager.Idempotence.{Aside, allocate-again}
use Prim.Native.String.{len}
use nakama_agones.Manager.Signing.{sign-verify_admission, Admits, assignment-Admits}
use nakama_agones.Manager.Tickets.{
  sign, AdmissionClaims, Crypto, bytes_eq, valid_claims, verify_parts, verify_admission,
  ticket_expiry, assignment,
}
use nakama_agones.Manager.Listing.{list_workers}
use nakama_agones.Manager.Passes.{
  Lasts, ticket_expiry-Lasts, list_workers-bounds, Verified, verify_admission-Verified,
}
use nakama_agones.Prelude.Int.{pos}
use nakama_agones.Lifecycle.{tick_update}
use nakama_agones.Lifecycle.Progress.{Succeeds, tick_update-Succeeds}
use nakama_agones.Manager.Ownership.{Shows, assignment-Shows}
use nakama_agones.Manager.Bounds.{Changed, update_policy-Changed}
use nakama_agones.Lifecycle.Lease.{check_lease}
use nakama_agones.Lifecycle.Place.{choose, choose_from}
use nakama_agones.Lifecycle.Stop.{stop_check, still_serving, is_due, operation, next_due}
use nakama_agones.Lifecycle.Exclusion.{ShutOut, tick_update-ShutOut, MayStop, stop_check-MayStop}
use nakama_agones.Lifecycle.Schedule.{is_nothing, is_due-operation, Oldest, next_due-Oldest}
use nakama_agones.Agent.{bootstrap, heartbeat, response}
use nakama_agones.Agent.Results.{failed}
use nakama_agones.Agent.Backoff.{Retried, failed-Retried}
use nakama_agones.Agent.Repeat.{heartbeat-repeated}
use nakama_agones.Agent.Replay.{Bound, bootstrap-Bound, Sendable, response-Sendable}
use nakama_agones.Safety.Effects.{engaged, rooms_of}
use nakama_agones.Safety.Choice.{Fits, choose-Fits, BestOf, choose-is_fullest}
use nakama_agones.Safety.Cancelling.{Ending, cancel_request-Ending}
use nakama_agones.Fleet.{run}
use nakama_agones.Fleet.History.{run-placed, run-exclusive}
use nakama_agones.Tests.{
  config, runtime, draw-distinct, history, reached, server, players, boot, beat,
}

named : ◌≢◌ {A = String} "i" ""
named e = absurd (ground (arith, (eq_iff "i" "").1 e))

run-placed_example : occupied (run runtime history).state "i" ≤ rooms_of (run runtime history) "i"
run-placed_example = run-placed runtime draw-distinct history "i" named

run-exclusive_example : engaged (run runtime history) "ann" ≤ 1
run-exclusive_example = run-exclusive runtime draw-distinct history "ann"

abbrev manager : Manager
manager = record { cfg = config; owner = "a"; runtime = runtime }

-- a second room that waits
abbrev waiting_room : Allocation
waiting_room = record {
  id = "w";
  request_key = "second";
  room_id = "r";
  worker_id = "";
  preferred_worker_id = "";
  user_ids = "cat" ∷ "dan" ∷ [];
  state = Phase.waiting_capacity;
  epoch = 1;
  revision = 1;
  created_at = 106;
  expires_at = 166;
  sessions = [];
  error = Reason.empty;
  terminal_at = 0;
  notified_revision = 0;
}

-- one instance, ready and empty
abbrev ready_fleet : Tx
ready_fleet = record {
  state = record new { leader = "a"; lease_until = 135; workers = ("i", server) ∷ [] };
  drawn = 10;
}

-- the same with the waiting room
abbrev waiting_fleet : Tx
waiting_fleet = record {
  state = record ready_fleet.state { allocations = ("w", waiting_room) ∷ [] };
  drawn = 10;
}

choose-Fits_example : Fits manager 107 waiting_fleet.state waiting_room server 0
unfolding choose choose_from lookup eligible leb_float no_metrics occupied count
choose-Fits_example =
    choose-Fits manager 107 waiting_fleet.state waiting_room server 0 (refl, tt) refl

choose-is_fullest_example :
    BestOf manager 107 waiting_fleet.state waiting_room
      (range waiting_fleet.workers)
      (choose manager 107 waiting_fleet.state waiting_room)
choose-is_fullest_example = choose-is_fullest manager 107 waiting_fleet.state waiting_room

-- the instance, drained and idle, about to be stopped
abbrev stopping_server : Worker
stopping_server = record server {
  state = WorkerState.stopping;
  draining = true;
  drain_ack = true;
  last_heartbeat = 100;
}

abbrev stopping_fleet : Tx
stopping_fleet = record {
  state = record ready_fleet.state { workers = ("i", stopping_server) ∷ [] };
  drawn = 10;
}

stop_check-MayStop_example :
    (stopping_fleet ≡ stopping_fleet)
    × ((current : Worker) × MayStop manager 107 stopping_server current stopping_fleet)
unfolding stop_check check_lease still_serving ◌>>=◌ refuse_if or_fail lookup occupied count
    work_finished no_metrics new
stop_check-MayStop_example =
    (stop_check-MayStop manager 107 stopping_server stopping_fleet).at stopping_fleet refl

abbrev other_manager : Manager
other_manager = record { cfg = config; owner = "b"; runtime = runtime }

apart : manager.owner ≢ other_manager.owner
apart e = absurd (ground (arith, (eq_iff "a" "b").1 e))

-- the state that a tick commits
abbrev ticked : Tx
ticked = (tick_update-Succeeds manager 107 ready_fleet refl).0

tick_update-ShutOut_example : ShutOut other_manager 120 ticked
tick_update-ShutOut_example =
    tick_update-ShutOut manager other_manager 107 120 ready_fleet ticked apart
      (tick_update-Succeeds manager 107 ready_fleet refl).1 (omega arith)

-- the room that the request makes
abbrev requested : Allocation
requested =
    new_allocation manager players "request" 107 manager.cfg.allocation_timeout waiting_fleet

-- the waiting room is of two other users, and is visited after the new one
abbrev reordered : Table Allocation
reordered = (requested.id, requested) ∷ ("w", waiting_room) ∷ []

abbrev granted : Tx
granted =
    with_allocations (insert requested.id requested waiting_fleet.allocations)
      (advance (advance waiting_fleet))

allocate-again_example :
    (allocate manager players "request" 107 waiting_fleet ≡ ok (requested.id, granted))
    × (allocate manager players "request" 120 (with_allocations reordered granted)
        ≡ ok (requested.id, with_allocations reordered granted))
unfolding insert new_allocation Aside terminal contains valid_users
allocate-again_example =
    allocate-again manager players "request" 107 120 waiting_fleet reordered refl ((refl, refl), tt)
      (Permᴰ.swap refl refl)

cancel_request-Ending_example :
    Returns (Ending "cat" "w" waiting_fleet) (cancel_request manager "cat" "w" 107 waiting_fleet)
cancel_request-Ending_example = cancel_request-Ending manager "cat" "w" 107 waiting_fleet (refl, tt)

abbrev larger : PolicyUpdate
larger = record {
  expected_revision = 1;
  rooms_per_instance = 4;
  cpu_request_millicores = 500;
  cpu_limit_millicores = 500;
  actor = "ops@arena";
}

update_policy-Changed_example :
    Returns (Changed manager larger 107 ready_fleet) (update_policy manager larger 107 ready_fleet)
update_policy-Changed_example = update_policy-Changed manager larger 107 ready_fleet

bootstrap-Bound_example :
    Returns (Bound manager boot ready_fleet) (bootstrap manager boot 107 ready_fleet)
bootstrap-Bound_example = bootstrap-Bound manager boot 107 ready_fleet

heartbeat-repeated_example :
    Returns
      (λ r. Returns (λ again. again.1 ≡ r.1) (heartbeat manager (beat 3 []) 120 r.1))
      (heartbeat manager (beat 3 []) 107 ready_fleet)
unfolding lookup
heartbeat-repeated_example =
    heartbeat-repeated manager (beat 3 []) 107 120 server ready_fleet refl refl

response-Sendable_example :
    (length (response 107 server reached).commands ≤ 64)
    × All (Sendable "i" 107) (response 107 server reached).commands
response-Sendable_example = response-Sendable 107 server reached

next_due-Oldest_example : Oldest 110 (range ready_fleet.workers) (next_due 110 ready_fleet.workers)
next_due-Oldest_example = next_due-Oldest 110 ready_fleet.workers

is_due-operation_example : is_due 110 server ≡ not (is_nothing (operation 110 server))
is_due-operation_example = is_due-operation 110 server

-- a drain that has failed twice fails again
abbrev drain_order : Command
drain_order = record {
  id = "c";
  type = CommandType.drain;
  worker_id = "i";
  room_id = "";
  allocation_id = "";
  epoch = 0;
  user_ids = [];
  expires_at = 200;
  done = false;
  attempts = 2;
  not_before = 0;
}

failed-Retried_example :
    Retried manager 107 drain_order ready_fleet (failed manager 107 drain_order ready_fleet)
failed-Retried_example = failed-Retried manager 107 drain_order ready_fleet refl

abbrev seat : Session
seat = record {
  id = "s";
  user_id = "ann";
  seat = 0;
  expires_at = 151;
  connected = false;
  ever_connected = true;
  reconnect_until = 130;
}

ticket_expiry-Lasts_example : Lasts 107 true seat 130
unfolding ticket_expiry refuse_if ◌>>=◌
ticket_expiry-Lasts_example = (ticket_expiry-Lasts 107 true seat).at 130 refl

list_workers-bounds_example :
    Returns
      (λ r. (length r.0 ≤ 10) × (10 ≤ 100) × All (λ k. text_lt "a" k ≡ true) r.0)
      (list_workers ready_fleet.state (record { state = none; region = "eu" }) 10 "a")
list_workers-bounds_example =
    list_workers-bounds ready_fleet.state (record { state = none; region = "eu" }) 10 "a"

abbrev claims : AdmissionClaims
claims = record {
  schema_version = pos 1;
  user_id = "ann";
  worker_id = "i";
  boot_id = "boot";
  room_id = "iii";
  allocation_id = "ii";
  reservation_id = "s";
  seat = pos 0;
  epoch = pos 1;
  expires_at = pos 130;
  nonce = "n";
  resume = false;
}

-- payload "p" holds the claims, and "q" is its signature
abbrev crypto : Crypto
crypto = record {
  marshal = λ c. some (1 ∷ []);
  unmarshal = λ b. some claims;
  encode = λ b. "p";
  decode = λ s. if s == "q" then some (7 ∷ 7 ∷ []) else some (1 ∷ []);
  derive = λ key purpose. 7 ∷ 7 ∷ [];
  split = λ s. "p" ∷ "q" ∷ [];
}

verify_admission-Verified_example : Verified crypto (1 ∷ []) "p.q" 107 claims
unfolding verify_admission verify_parts valid_claims bytes_eq refuse_if or_fail ◌>>=◌
verify_admission-Verified_example =
    (verify_admission-Verified crypto (1 ∷ []) "p.q" 107).at claims refl

-- as above, and the signature is encoded as "q"
abbrev portable : Crypto
portable = record crypto { encode = λ b. if bytes_eq b (1 ∷ []) then "p" else "q" }

sign-verify_admission_example :
    (sign portable (1 ∷ []) claims >>= λ token. verify_admission portable (1 ∷ []) token 107) ≡ (
      sign portable (1 ∷ []) claims >>= λ token.
      if ltb 4096 (len token) || not (valid_claims 107 claims)
      then err Error.invalid
      else ok claims)
unfolding bytes_eq
sign-verify_admission_example =
    sign-verify_admission portable (1 ∷ []) claims (1 ∷ []) 107 "p" "q" refl refl refl refl refl
      refl refl

-- the room of the history's end, asked for by one of its players
assignment-Shows_example :
    Returns
      (Shows reached.state "ann" "ii")
      (assignment crypto manager reached.state "ann" "ii" false 107 "n")
assignment-Shows_example = assignment-Shows crypto manager reached.state "ann" "ii" false 107 "n"

assignment-Admits_example :
    Returns
      (λ out.
        (out.state == Phase.assigned || out.state == Phase.active) ≡ true
        → Admits portable manager reached.state "ann" 107 false out)
      (assignment portable manager reached.state "ann" "ii" false 107 "n")
assignment-Admits_example =
    assignment-Admits portable manager reached.state "ann" "ii" false 107 "n"

-- the instance and a room that it has prepared
abbrev prepared_fleet : Tx
prepared_fleet = record {
  state = record ready_fleet.state {
    allocations = ("w", record waiting_room { state = Phase.prepared; worker_id = "i" }) ∷ [];
  };
  drawn = 10;
}

tick_update-Succeeds_example : Succeeds (tick_update manager 120 prepared_fleet)
tick_update-Succeeds_example = tick_update-Succeeds manager 120 prepared_fleet refl
