-- ===== src/Lifecycle/Place.antt =====
-- The loops of Tick's transaction that seat prepared rooms and place waiting ones
-- (pkg/fleetmanager/lifecycle.go).
use nakama_agones.Prelude.{
  ℕ, ◌+◌, String, Bool, true, false, not, ◌&&◌, ◌||◌, Option, none, some, List, [], ◌∷◌, ◌==◌,
  text_Eq, number_Eq, ltb, text_lt, sort, for_each, if◌then◌else◌, Result, ok,
}
use nakama_agones.Prelude.Table.{Table, lookup, range}
use nakama_agones.State.{State, Worker, Allocation, Command, occupied}
use nakama_agones.State.Phases.{Phase, phase_Eq, CommandType}
use nakama_agones.Manager.{
  Manager, Tx, fresh, advance, update_worker, update_allocation, put_command,
}
use nakama_agones.Manager.Admission.{eligible}
use nakama_agones.Manager.Allocations.{touch, reserve}

-- the body of the loop over prepared allocations
unfoldable pub admit_prepared : Manager → ℕ → String → Tx → Result Tx
admit_prepared m now aid tx = elim (lookup aid tx.allocations) [
  | none ↦ ok tx
  | some a ↦
      if a.state == Phase.prepared
      then elim (lookup a.worker_id tx.workers) [
        | none ↦ ok tx
        | some w ↦
            if eligible m now w then reserve m a.user_ids now m.cfg.reservation_ttl a tx else ok tx
      ]
      else ok tx
]

-- the allocations in state waiting_capacity
unfoldable pub filter_waiting : List Allocation → List Allocation
filter_waiting [] = []
filter_waiting (a ∷ rest) =
    let more = filter_waiting rest in if a.state == Phase.waiting_capacity then a ∷ more else more

unfoldable pub waiting : Table Allocation → List Allocation
unfolding filter_waiting
waiting allocations = filter_waiting (range allocations)

-- the order of sort.Slice: those made for an instance first, then by age, then by identifier
unfoldable pub placed_before : Allocation → Allocation → Bool
placed_before a b =
    let a_pinned = not (a.preferred_worker_id == "") in
    let b_pinned = not (b.preferred_worker_id == "") in
    if (a_pinned && not b_pinned) || (not a_pinned && b_pinned)
    then a_pinned
    else if a.created_at == b.created_at
    then text_lt a.id b.id
    else ltb a.created_at b.created_at

-- whether the worker can take the allocation, its rooms apart
unfoldable pub candidate : Manager → ℕ → Allocation → Worker → Bool
candidate m now a w =
    eligible m now w && (a.preferred_worker_id == "" || a.preferred_worker_id == w.id)

-- `n > best || n == best && (chosen == nil || w.ID < chosen.ID)`; `best` is -1 as long as none is
-- chosen
unfoldable pub improves : Worker → ℕ → Option (Worker × ℕ) → Bool
improves w n none = true
improves w n (some (chosen, best)) = ltb best n || (n == best && text_lt w.id chosen.id)

-- the loop over s.Workers
unfoldable pub choose_from :
    Manager → ℕ → State → Allocation → List Worker → Option (Worker × ℕ) → Option (Worker × ℕ)
unfolding candidate improves
choose_from m now s a [] best = best
choose_from m now s a (w ∷ ws) best =
    let n = occupied s w.id in
    choose_from m now s a ws
      (if candidate m now a w && ltb n w.max_rooms && improves w n best then some (w, n) else best)

unfoldable pub choose : Manager → ℕ → State → Allocation → Option (Worker × ℕ)
choose m now s a = choose_from m now s a (range s.workers) none

unfoldable pub place : Manager → ℕ → String → Allocation → Allocation
unfolding touch
place m now wid a = touch (record a {
  worker_id = wid;
  state = Phase.preparing;
  expires_at = now + m.cfg.prepare_timeout;
})

prepare_command : Manager → ℕ → Allocation → String → Tx → Command
prepare_command m now a wid tx = record {
  id = fresh m tx;
  type = CommandType.prepare_room;
  worker_id = wid;
  room_id = a.room_id;
  allocation_id = a.id;
  epoch = a.epoch;
  user_ids = a.user_ids;
  expires_at = now + m.cfg.prepare_timeout;
  done = false;
  attempts = 0;
  not_before = 0;
}

-- what follows the choice of the worker `wid` for `a`, which is s.Allocations[a.ID]
unfoldable pub place_on : Manager → ℕ → Allocation → String → Tx → Tx
unfolding prepare_command
place_on m now a wid tx = advance (
    put_command (prepare_command m now a wid tx) (
      update_worker wid (λ w. record w { idle_since = 0 })
        (update_allocation a.id (place m now wid) tx)))

-- the body of the loop over `waiting`
unfoldable pub place_one : Manager → ℕ → Allocation → Tx → Tx
place_one m now a tx = elim (choose m now tx.state a) [
  | none ↦ tx
  | some (w, n) ↦ place_on m now a w.id tx
]

unfoldable pub place_waiting : Manager → ℕ → Tx → Tx
place_waiting m now tx = for_each (place_one m now) (sort placed_before (waiting tx.allocations)) tx
