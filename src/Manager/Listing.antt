-- ===== src/Manager/Listing.antt =====
-- Get and List of pkg/fleetmanager/manager.go, and Policy of policy.go, on the state of a View.
use nakama_agones.Prelude.{
  ℕ, String, Bool, true, not, ◌&&◌, ◌||◌, Option, none, some, List, [], ◌∷◌, ◌==◌, text_Eq,
  number_Eq, ltb, length, take, sort, text_lt, if◌then◌else◌, Result, ok, Error, ◌>>=◌, ◌>>◌,
  refuse_if, or_fail,
}
use nakama_agones.Prelude.Table.{Table, lookup, count}
use nakama_agones.State.{State, Worker}
use nakama_agones.State.Phases.{WorkerState, worker_state_Eq, live_worker}
use nakama_agones.Manager.{Manager}
use nakama_agones.Manager.Policy.{cpu_milli, policy}

unfoldable pub get : State → String → Result Worker
get s wid = do
  w ← or_fail (lookup wid s.workers) Error.not_found
  refuse_if (w.state == WorkerState.stopped) Error.not_found
  ok w

-- the query of List, where it names a state or a region; no worker is in a state of another name
pub record Filter : Type 0 where
  pub state : Option WorkerState
  pub region : String

-- the test of the loop, less the order of the keys
unfoldable pub listed : Filter → Worker → Bool
listed f w =
    not (w.state == WorkerState.stopped)
    && elim f.state [ none ↦ true | some p ↦ p == w.state ]
    && (f.region == "" || f.region == w.region)

-- the loop; `after` is the cursor
unfoldable pub ids_after : Filter → String → Table Worker → List String
ids_after f after [] = []
ids_after f after ((wid, w) ∷ m) =
    let rest = ids_after f after m in if text_lt after wid && listed f w then wid ∷ rest else rest

last_of : String → List String → String
last_of x [] = x
last_of x (y ∷ ys) = last_of y ys

-- The keys of one page, and what the next cursor encodes if there is one.
unfoldable pub page : ℕ → List String → List String × Option String
unfolding last_of
page limit ids =
    if ltb limit (length ids)
    then (take limit ids, elim (take limit ids) [ [] ↦ none | i ∷ is ↦ some (last_of i is) ])
    else (ids, none)

unfoldable pub list_workers : State → Filter → ℕ → String → Result (List String × Option String)
unfolding ids_after page
list_workers s f limit after = do
  refuse_if (ltb limit 1 || ltb 100 limit) Error.invalid
  ok (page limit (sort text_lt (ids_after f after s.workers)))

-- whether a worker runs with another capacity than the policy asks for
unfoldable pub requires_replacement : Manager → State → Worker → Bool
requires_replacement m s w =
    let p = policy m s in
    live_worker w.state
    && (not (w.max_rooms == p.rooms_per_instance)
        || not (cpu_milli m.runtime w.cpu_request == p.cpu_request_millicores)
        || not (cpu_milli m.runtime w.cpu_limit == p.cpu_limit_millicores))

-- "requires_replacement_count" of Policy
unfoldable pub replacement_count : Manager → State → ℕ
unfolding requires_replacement
replacement_count m s = count (requires_replacement m s) s.workers
