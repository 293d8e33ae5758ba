-- ===== src/Fleet.antt =====
-- The store and all its clients. internal/state/state.go commits a transaction whole or not at all;
-- a fleet's history is a list of transactions of its controllers, in the order of their commits.
pub mod History
use nakama_agones.Prelude.{
  ℕ, ◌+◌, String, Bool, Option, none, some, List, [], ◌∷◌, Result, ok, err, Error, ◌>>=◌, for_each,
}
use nakama_agones.Prelude.Int.{ℤ}
use nakama_agones.Provider.{Outcome, Instance}
use nakama_agones.State.{Worker, new}
use nakama_agones.Manager.{Config, Runtime, Manager, Tx}
use nakama_agones.Manager.Policy.{PolicyUpdate, update_policy}
use nakama_agones.Manager.Startup.{attach}
use nakama_agones.Manager.Requests.{
  allocate, cancel_request, join, update_players, delete_worker, drain, retry_creation,
}
use nakama_agones.Manager.Create.{create}
use nakama_agones.Lifecycle.{tick_update}
use nakama_agones.Lifecycle.Notify.{mark_notified}
use nakama_agones.Lifecycle.Lease.{renew_lease, release_lease}
use nakama_agones.Lifecycle.Instances.{start_begin, start_finish}
use nakama_agones.Lifecycle.Reconcile.{reconcile_update}
use nakama_agones.Lifecycle.Poll.{poll_update}
use nakama_agones.Lifecycle.Stop.{stop_check, stop_failed, stop_finish}
use nakama_agones.Agent.{BootstrapRequest, bootstrap, heartbeat}
use nakama_agones.Agent.Reports.{HeartbeatRequest}

-- The functions that the controller and the HTTP handlers hand to store.Update. A worker among the
-- arguments is the copy of an earlier snapshot, and an outcome is an answer of the provider.
pub data Transaction : Type 0 where
  attach_controller : (profile : String) → Transaction
  allocate_room : (users : List String) (key : String) → Transaction
  cancel_room : (user aid : String) → Transaction
  create_instance : (max_players : ℕ) (users : List String) → Transaction
  join_room : (wid : String) (users : List String) (aid : String) → Transaction
  update_instance : (wid : String) (player_count : ℤ) (metadata : Bool) → Transaction
  delete_instance drain_instance : (wid : String) → Transaction
  change_policy : (change : PolicyUpdate) → Transaction
  tick keep_lease leave : Transaction
  begin_start : (wid : String) → Transaction
  finish_start : (later : ℕ) (answer : Outcome Instance) (wid : String) → Transaction
  reconcile : (answer : Outcome (List Instance)) (wid : String) → Transaction
  poll : (w : Worker) (answer : Outcome Instance) → Transaction
  check_stop fail_stop : (w : Worker) → Transaction
  finish_stop : (w : Worker) (answer : Outcome Instance) → Transaction
  bootstrap_agent : (input : BootstrapRequest) → Transaction
  report : (input : HeartbeatRequest) → Transaction
  notify_users : (aid : String) (revision : ℕ) → Transaction
  allow_creation : Transaction

-- the state that a function with a result leaves
abbrev pub state_of {ℓ} : {A : Type ℓ} → Result (A × Tx) → Result Tx
state_of (ok r) = ok r.1
state_of (err e) = err e

unfoldable pub perform : Manager → ℕ → Transaction → Tx → Result Tx
perform m now (attach_controller profile) tx = attach m profile tx
perform m now (allocate_room users key) tx = state_of (allocate m users key now tx)
perform m now (cancel_room user aid) tx = cancel_request m user aid now tx
perform m now (create_instance max_players users) tx = create m max_players users now tx
perform m now (join_room wid users aid) tx = join m wid users aid now tx
perform m now (update_instance wid player_count metadata) tx =
    update_players wid player_count metadata tx
perform m now (delete_instance wid) tx = delete_worker m wid now tx
perform m now (drain_instance wid) tx = drain m wid now tx
perform m now (change_policy change) tx = update_policy m change now tx
perform m now tick tx = tick_update m now tx
perform m now keep_lease tx = renew_lease m now tx
perform m now leave tx = ok (release_lease m tx)
perform m now (begin_start wid) tx = start_begin m now wid tx
perform m now (finish_start later answer wid) tx = start_finish m now later answer wid tx
perform m now (reconcile answer wid) tx = reconcile_update m now answer wid tx
perform m now (poll w answer) tx = poll_update m now w answer tx
perform m now (check_stop w) tx = stop_check m now w tx
perform m now (fail_stop w) tx = stop_failed m now w tx
perform m now (finish_stop w answer) tx = stop_finish m now w answer tx
perform m now (bootstrap_agent input) tx = bootstrap m input now tx
perform m now (report input) tx = state_of (heartbeat m input now tx)
perform m now (notify_users aid revision) tx = ok (mark_notified aid revision tx)
perform m now allow_creation tx = ok (retry_creation tx)

-- Memory.Update: the transaction works on a copy, which replaces the state if it returns no error
unfoldable pub update : (Tx → Result Tx) → Tx → Option Error × Tx
update fn tx = elim (fn tx) [
  | err e ↦ (some e, tx)
  | ok next ↦ (none, record next { state = record next.state { revision = next.revision + 1 } })
]

-- One transaction: whose, with which configuration, at what time, and how many identifiers the controllers have drawn since
-- the one before that no state keeps (nonces, and the transactions that were rolled back).
pub record Step : Type 0 where
  pub cfg : Config
  pub owner : String
  pub now : ℕ
  pub skipped : ℕ
  pub transaction : Transaction

abbrev pub skip : ℕ → Tx → Tx
skip n tx = record tx { drawn = tx.drawn + n }

abbrev pub controller : Runtime → Step → Manager
controller r s = record { cfg = s.cfg; owner = s.owner; runtime = r }

unfoldable pub advance_fleet : Runtime → Step → Tx → Tx
unfolding update perform
advance_fleet r s tx = (update (perform (controller r s) s.now s.transaction) (skip s.skipped tx)).1

-- the fleet after its history, from the empty store
abbrev pub empty_fleet : Tx
empty_fleet = record { state = new; drawn = 0 }

unfoldable pub run : Runtime → List Step → Tx
unfolding advance_fleet
run r steps = for_each (advance_fleet r) steps empty_fleet
