-- ===== src/Manager/Create.antt =====
-- Create of pkg/fleetmanager/manager.go: a new instance, with its first room if users are given.
use Prim.Native.String.{◌++◌ as text_append}
use nakama_agones.Prelude.{
  ℕ, ◌*◌, ◌/◌, ◌%◌, String, Bool, true, false, not, ◌&&◌, ◌||◌, List, [], ◌∷◌, ◌==◌, text_Eq,
  number_Eq, ltb, leb, any, Result, ok, Error, ◌>>=◌, ◌>>◌, refuse_if,
}
use nakama_agones.State.{Allocation, Worker}
use nakama_agones.State.Phases.{is_open}
use nakama_agones.Manager.{Manager, Tx, fresh, update_worker, update_allocation}
use nakama_agones.Manager.Users.{valid_users}
use nakama_agones.Manager.Allocations.{allocation}
use nakama_agones.Manager.Instances.{new_worker, live_count}
use nakama_agones.Manager.Policy.{policy}

abbrev not_empty : List String → Bool
not_empty [] = false
not_empty (u ∷ us) = true

-- the tests before the transaction; `regions` are the regions of the latencies
unfoldable pub create_guard : Manager → ℕ → List String → List String → Result (Unit {0})
create_guard m max_players users regions = do
  refuse_if (ltb max_players 2 || not (max_players % 2 == 0) || ltb 1024 max_players) Error.invalid
  refuse_if (not_empty users && not (valid_users users)) Error.invalid
  refuse_if (any (λ r. not (r == m.cfg.region)) regions) Error.invalid

abbrev pub prefer : String → Allocation → Allocation
prefer wid a = record a { preferred_worker_id = wid }

abbrev pub initially : String → Worker → Worker
initially aid w = record w { initial_allocation_id = aid }

-- the initial room of the created instance `wid`
unfoldable pub initial_room : Manager → List String → String → ℕ → Tx → Result Tx
initial_room m [] wid now tx = ok tx
initial_room m (u ∷ us) wid now tx = do
  (aid, tx') ← allocation m (u ∷ us) (text_append "create:" wid) now m.cfg.allocation_timeout tx
  ok (update_worker wid (initially aid) (update_allocation aid (prefer wid) tx'))

-- the transaction of Create; the worker's identifier is `fresh m tx`
unfoldable pub create : Manager → ℕ → List String → ℕ → Tx → Result Tx
create m max_players users now tx = do
  refuse_if (ltb ((policy m tx.state).rooms_per_instance * 2) max_players) Error.busy
  refuse_if
      (leb m.cfg.max_instances (live_count tx.state) || not (is_open tx.creation_blocked_reason))
      Error.busy
  initial_room m users (fresh m tx) now (new_worker m now (max_players / 2) tx)
