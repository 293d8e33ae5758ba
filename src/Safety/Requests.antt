-- ===== src/Safety/Requests.antt =====
-- The requests of the game's server keep the fleet safe (pkg/fleetmanager/manager.go).
use native.Mathlib.Nat.{le_refl}
use nakama_agones.Prelude.{
  ℕ, ◌≡◌, refl, String, Bool, true, false, ◌||◌, List, [], ◌∷◌, ◌==◌, text_Eq, number_Eq,
  if◌then◌else◌, Bool-cases, inl, inr, Returns, Returns-ok, Returns-err, Returns-seq,
  Returns-refuse_if, Returns-or_fail, ok, err, Error,
}
use nakama_agones.Prelude.Int.{ℤ, pos_part}
use nakama_agones.Prelude.Table.Laws.{count-modify-le, Entries-modify}
use nakama_agones.State.{Worker, occupies, occupied}
use nakama_agones.State.Phases.{Phase, phase_Eq, Reason, worker_state_Eq, terminal}
use nakama_agones.Manager.{Manager, Tx, update_allocation}
use nakama_agones.Manager.Instances.{begin_drain}
use nakama_agones.Manager.Policy.{PolicyUpdate, update_policy}
use nakama_agones.Manager.Requests.{
  allocate, cancel_request, join, update_players, delete_worker, drain, retry_creation,
}
use nakama_agones.Manager.Create.{prefer, initially, initial_room, create}
use nakama_agones.Lifecycle.Notify.{notified, notify_found, mark_notified}
use nakama_agones.Safety.Effects.{
  KeyedAllocations, engages, Quiet, Quiet-refl, Quiet-trans, Quiet-same, update_allocation-Quiet,
}
use nakama_agones.Safety.Operations.{
  lookup-id, cancel-Quiet, reserve-Quiet, begin_drain-Quiet, on_allocation-Quiet, if-Quiet,
}
use nakama_agones.Safety.Hosting.{write-Quiet}
use nakama_agones.Safety.Invariant.{IsSafe, Quiet-IsSafe}
use nakama_agones.Safety.Admitting.{allocation-IsSafe, new_worker-IsSafe}

pub cancel_request-Quiet :
    (m : Manager) (user aid : String) (now : ℕ) (tx : Tx)
    → KeyedAllocations tx.allocations
    → Returns (Quiet tx) (cancel_request m user aid now tx)
unfolding cancel_request
cancel_request-Quiet m user aid now tx keyed = Returns-or_fail _ _ _ _ λ a e.
    Returns-refuse_if _ _ _ _ λ own.
      elim (Bool-cases (terminal a.state || a.state == Phase.cancelling)) [
        | inl over ↦ rw over (Returns-ok _ _ (Quiet-refl tx))
        | inr live ↦ rw live (elim (Bool-cases (a.state == Phase.active)) [
          | inl playing ↦ rw playing (Returns-err _ _)
          | inr idle ↦ rw idle (Returns-ok _ _ (cancel-Quiet m Reason.cancelled now aid tx keyed))
        ])
      ]

pub join-Quiet :
    (m : Manager) (wid : String) (users : List String) (aid : String) (now : ℕ) (tx : Tx)
    → KeyedAllocations tx.allocations
    → Returns (Quiet tx) (join m wid users aid now tx)
unfolding join
join-Quiet m wid users aid now tx keyed = Returns-or_fail _ _ _ _ λ a e.
    Returns-or_fail _ _ _ _ λ w there. Returns-refuse_if _ _ _ _ λ here.
      Returns-refuse_if _ _ _ _
        λ fit. reserve-Quiet m users now _ a tx (lookup-id aid a tx.allocations keyed e)

pub update_players-Quiet :
    (wid : String) (player_count : ℤ) (metadata : Bool) (tx : Tx)
    → Returns (Quiet tx) (update_players wid player_count metadata tx)
unfolding update_players
update_players-Quiet wid player_count metadata tx = Returns-or_fail _ _ _ _ λ w e.
    Returns-refuse_if _ _ _ _ λ fit. Returns-refuse_if _ _ _ _ λ plain. Returns-ok _ _ (
      write-Quiet wid (λ v. record v { player_count = pos_part player_count }) tx (λ v. refl)
        (λ v. refl))

drain_or-Quiet :
    (m : Manager) (now : ℕ) (w : Worker) (stopped refused : Bool) (tx : Tx) (error : Error)
    → Returns
        (Quiet tx)
        (if stopped then ok tx else if refused then err error else ok (begin_drain m now w tx))
drain_or-Quiet m now w true refused tx error = Returns-ok _ _ (Quiet-refl tx)
drain_or-Quiet m now w false true tx error = Returns-err _ _
drain_or-Quiet m now w false false tx error = Returns-ok _ _ (begin_drain-Quiet m now w tx)

pub delete_worker-Quiet :
    (m : Manager) (wid : String) (now : ℕ) (tx : Tx)
    → Returns (Quiet tx) (delete_worker m wid now tx)
unfolding delete_worker
delete_worker-Quiet m wid now tx =
    Returns-or_fail _ _ _ _ λ w e. drain_or-Quiet m now w _ _ tx Error.busy

pub drain-Quiet :
    (m : Manager) (wid : String) (now : ℕ) (tx : Tx) → Returns (Quiet tx) (drain m wid now tx)
unfolding drain
drain-Quiet m wid now tx = Returns-or_fail _ _ _ _ λ w e. drain_or-Quiet m now w _ _ tx Error.busy

pub update_policy-Quiet :
    (m : Manager) (u : PolicyUpdate) (now : ℕ) (tx : Tx)
    → Returns (Quiet tx) (update_policy m u now tx)
unfolding update_policy
update_policy-Quiet m u now tx = Returns-refuse_if _ _ _ _ λ valid.
    Returns-refuse_if _ _ _ _ λ current. Returns-ok _ _ (Quiet-same _ _ refl refl (le_refl _))

pub allocate-IsSafe :
    (m : Manager) (users : List String) (key : String) (now : ℕ) (tx : Tx)
    → IsSafe m.runtime.draws tx
    → Returns (λ r. IsSafe m.runtime.draws r.1) (allocate m users key now tx)
unfolding allocate
allocate-IsSafe m users key now tx = allocation-IsSafe m users key now _ tx

preferred-Quiet : (aid wid : String) (tx : Tx) → Quiet tx (update_allocation aid (prefer wid) tx)
unfolding occupied
preferred-Quiet aid wid tx = record {
  rooms_eq = λ j. refl;
  occupied_le = λ j. count-modify-le (occupies j) aid (prefer wid) (λ a e. e) tx.allocations;
  engaged_le = λ user. count-modify-le (engages user) aid (prefer wid) (λ a e. e) tx.allocations;
  workers_keyed = λ k. k;
  allocations_keyed = Entries-modify _ aid (prefer wid) tx.allocations (λ j a e. e);
  absent = λ k e. e;
  drawn_le = le_refl _;
}

initial_room-IsSafe :
    (m : Manager) (users : List String) (wid : String) (now : ℕ) (tx : Tx)
    → IsSafe m.runtime.draws tx
    → Returns (IsSafe m.runtime.draws) (initial_room m users wid now tx)
unfolding initial_room
initial_room-IsSafe m [] wid now tx safe = Returns-ok _ tx safe
initial_room-IsSafe m (u ∷ us) wid now tx safe = Returns-seq _ _ _ λ r e. Returns-ok _ _ (
    Quiet-IsSafe
      (Quiet-trans (preferred-Quiet r.0 wid r.1)
        (write-Quiet wid (initially r.0) _ (λ v. refl) (λ v. refl)))
      ((allocation-IsSafe m (u ∷ us) _ now _ tx safe).at r e))

pub create-IsSafe :
    (m : Manager) (max_players : ℕ) (users : List String) (now : ℕ) (tx : Tx)
    → ((i j : ℕ) → m.runtime.draws i ≡ m.runtime.draws j → i ≡ j)
    → IsSafe m.runtime.draws tx
    → Returns (IsSafe m.runtime.draws) (create m max_players users now tx)
unfolding create
create-IsSafe m max_players users now tx distinct safe = Returns-refuse_if _ _ _ _ λ small.
    Returns-refuse_if _ _ _ _
      λ room. initial_room-IsSafe m users _ now _ (new_worker-IsSafe m now _ tx distinct safe)

pub retry_creation-Quiet : (tx : Tx) → Quiet tx (retry_creation tx)
unfolding retry_creation
retry_creation-Quiet tx = Quiet-same _ _ refl refl (le_refl _)

pub mark_notified-Quiet :
    (aid : String) (revision : ℕ) (tx : Tx)
    → KeyedAllocations tx.allocations
    → Quiet tx (mark_notified aid revision tx)
unfolding mark_notified
mark_notified-Quiet aid revision tx keyed =
    on_allocation-Quiet aid (notify_found revision) tx keyed (λ a found.
      if-Quiet (a.revision == revision) tx _ _
        (update_allocation-Quiet (notified revision) a tx found (λ b. refl)
          (record { worker_eq = refl; users_eq = refl; closed = λ h. h }))
        (Quiet-refl tx))
