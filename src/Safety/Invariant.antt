-- ===== src/Safety/Invariant.antt =====
-- What holds of the fleet between two transactions: an unfinished room is on a worker that exists
-- and that has at most its number of rooms, and no user is in two unfinished rooms.
use nakama_agones.Prelude.{ℕ, ◌≤◌, ◌≡◌, ◌≢◌, String, arith, Result, Returns, none}
use nakama_agones.Prelude.Table.{lookup}
use nakama_agones.State.{occupied}
use nakama_agones.Manager.{Tx}
use nakama_agones.Safety.Effects.{engaged, rooms_of, KeyedWorkers, KeyedAllocations, Quiet}

-- `draws` is the sequence of the identifiers that id() returns: those to come name no worker.
pub record IsSafe (draws : ℕ → String) (tx : Tx) : Type 0 where
  pub workers_keyed : KeyedWorkers tx.workers
  pub allocations_keyed : KeyedAllocations tx.allocations
  pub placed : (wid : String) → wid ≢ "" → occupied tx.state wid ≤ rooms_of tx wid
  pub exclusive : (user : String) → engaged tx user ≤ 1
  pub unused : (n : ℕ) → tx.drawn ≤ n → lookup (draws n) tx.workers ≡ none

module _ {draws : ℕ → String} where
  pub Quiet-IsSafe : {s t : Tx} → Quiet s t → IsSafe draws s → IsSafe draws t
  Quiet-IsSafe {s} {t} q h = record {
    workers_keyed = q.workers_keyed h.workers_keyed;
    allocations_keyed = q.allocations_keyed h.allocations_keyed;
    placed = λ wid named. omega (arith, q.occupied_le wid, q.rooms_eq wid, h.placed wid named);
    exclusive = λ user. omega (arith, q.engaged_le user, h.exclusive user);
    unused = λ n later. q.absent (draws n) (h.unused n (omega (arith, q.drawn_le)));
  }

  pub Returns-IsSafe :
      {s : Tx} {r : Result Tx} → Returns (Quiet s) r → IsSafe draws s → Returns (IsSafe draws) r
  Returns-IsSafe q h = record { at = λ t e. Quiet-IsSafe (q.at t e) h }
