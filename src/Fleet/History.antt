-- ===== src/Fleet/History.antt =====
-- The safety of every history of a fleet.
use native.Mathlib.Nat.{le_refl}
use nakama_agones.Prelude.{
  ℕ, ◌≤◌, ◌≡◌, ◌≢◌, refl, String, text_Eq, List, arith, Result, ok, err, Returns, Returns-ok,
  Returns-err, Returns-refuse_if, Result-cases, inl, inr, for_each_inv,
}
use nakama_agones.Prelude.Table.{lookup, count}
use nakama_agones.State.{new, occupied}
use nakama_agones.Manager.{Runtime, Manager, Tx}
use nakama_agones.Manager.Startup.{adopt_policy, attach}
use nakama_agones.Safety.Effects.{
  Quiet, Quiet-trans, Quiet-same, map_workers-Quiet, rooms_of, engaged,
}
use nakama_agones.Safety.Requests.{
  cancel_request-Quiet, join-Quiet, update_players-Quiet, delete_worker-Quiet, drain-Quiet,
  update_policy-Quiet, allocate-IsSafe, create-IsSafe, retry_creation-Quiet, mark_notified-Quiet,
}
use nakama_agones.Safety.Hosting.{
  start_begin-Quiet, renew_lease-Quiet, release_lease-Quiet, poll_update-Quiet, stop_check-Quiet,
  stop_failed-Quiet, stop_finish-Quiet, reconcile_update-Quiet, start_finish-Quiet,
}
use nakama_agones.Safety.Serving.{bootstrap-Quiet, heartbeat-Quiet}
use nakama_agones.Safety.Ticking.{tick_update-IsSafe}
use nakama_agones.Safety.Invariant.{IsSafe, Quiet-IsSafe, Returns-IsSafe}
use nakama_agones.Fleet.{
  Transaction, Step, perform, update, controller, skip, advance_fleet, run, state_of, empty_fleet,
}

attach-Quiet : (m : Manager) (profile : String) (tx : Tx) → Returns (Quiet tx) (attach m profile tx)
unfolding attach adopt_policy
attach-Quiet m profile tx = Returns-refuse_if _ _ _ _ λ same. Returns-refuse_if _ _ _ _ λ native.
    Returns-ok _ _ (
      Quiet-trans
        (map_workers-Quiet (adopt_policy m) tx
          (record { id_eq = λ w. ground arith; rooms_eq = λ w. ground arith }))
        (Quiet-same _ _ refl refl (le_refl _)))

-- what holds of the state that a function with a result leaves
Returns-state_of :
    {A : Type 0} (P : Tx → Type 0) (r : Result (A × Tx))
    → Returns (λ x. P x.1) r
    → Returns P (state_of r)
Returns-state_of P (ok x) h = Returns-ok P x.1 (h.at x refl)
Returns-state_of P (err e) h = Returns-err P e

module _ (m : Manager) (distinct : (i j : ℕ) → m.runtime.draws i ≡ m.runtime.draws j → i ≡ j)
    (now : ℕ) where
  perform-IsSafe :
      (t : Transaction) (tx : Tx)
      → IsSafe m.runtime.draws tx
      → Returns (IsSafe m.runtime.draws) (perform m now t tx)
  unfolding perform
  perform-IsSafe (Transaction.attach_controller profile) tx h =
      Returns-IsSafe (attach-Quiet m profile tx) h
  perform-IsSafe (Transaction.allocate_room users key) tx h =
      Returns-state_of _ _ (allocate-IsSafe m users key now tx h)
  perform-IsSafe (Transaction.cancel_room user aid) tx h =
      Returns-IsSafe (cancel_request-Quiet m user aid now tx h.allocations_keyed) h
  perform-IsSafe (Transaction.create_instance max_players users) tx h =
      create-IsSafe m max_players users now tx distinct h
  perform-IsSafe (Transaction.join_room wid users aid) tx h =
      Returns-IsSafe (join-Quiet m wid users aid now tx h.allocations_keyed) h
  perform-IsSafe (Transaction.update_instance wid player_count metadata) tx h =
      Returns-IsSafe (update_players-Quiet wid player_count metadata tx) h
  perform-IsSafe (Transaction.delete_instance wid) tx h =
      Returns-IsSafe (delete_worker-Quiet m wid now tx) h
  perform-IsSafe (Transaction.drain_instance wid) tx h = Returns-IsSafe (drain-Quiet m wid now tx) h
  perform-IsSafe (Transaction.change_policy change) tx h =
      Returns-IsSafe (update_policy-Quiet m change now tx) h
  perform-IsSafe Transaction.tick tx h = tick_update-IsSafe m distinct now tx h
  perform-IsSafe Transaction.keep_lease tx h = Returns-IsSafe (renew_lease-Quiet m now tx) h
  perform-IsSafe Transaction.leave tx h = Returns-ok _ _ (Quiet-IsSafe (release_lease-Quiet m tx) h)
  perform-IsSafe (Transaction.begin_start wid) tx h =
      Returns-IsSafe (start_begin-Quiet m now wid tx) h
  perform-IsSafe (Transaction.finish_start later answer wid) tx h =
      Returns-IsSafe (start_finish-Quiet m now wid later answer tx) h
  perform-IsSafe (Transaction.reconcile answer wid) tx h =
      Returns-IsSafe (reconcile_update-Quiet m now wid answer tx) h
  perform-IsSafe (Transaction.poll w answer) tx h =
      Returns-IsSafe (poll_update-Quiet m now w answer tx) h
  perform-IsSafe (Transaction.check_stop w) tx h = Returns-IsSafe (stop_check-Quiet m now w tx) h
  perform-IsSafe (Transaction.fail_stop w) tx h = Returns-IsSafe (stop_failed-Quiet m now w tx) h
  perform-IsSafe (Transaction.finish_stop w answer) tx h =
      Returns-IsSafe (stop_finish-Quiet m now w answer tx) h
  perform-IsSafe (Transaction.bootstrap_agent input) tx h =
      Returns-IsSafe (bootstrap-Quiet m input now tx) h
  perform-IsSafe (Transaction.report input) tx h =
      Returns-state_of (IsSafe m.runtime.draws) _ (record {
        at = λ r e. Quiet-IsSafe ((heartbeat-Quiet m input now tx h.allocations_keyed).at r e) h;
      })
  perform-IsSafe (Transaction.notify_users aid revision) tx h =
      Returns-ok _ _ (Quiet-IsSafe (mark_notified-Quiet aid revision tx h.allocations_keyed) h)
  perform-IsSafe Transaction.allow_creation tx h =
      Returns-ok _ _ (Quiet-IsSafe (retry_creation-Quiet tx) h)

update-IsSafe :
    {draws : ℕ → String} (fn : Tx → Result Tx) (tx : Tx)
    → IsSafe draws tx
    → Returns (IsSafe draws) (fn tx)
    → IsSafe draws (update fn tx).1
unfolding update
update-IsSafe fn tx h r = elim (Result-cases (fn tx)) [
  | inl (e, refused) ↦ rw (refused, update) h
  | inr (next, done) ↦
      rw (done, update) (Quiet-IsSafe (Quiet-same _ _ refl refl (le_refl _)) (r.at next done))
]

-- The empty store is safe.
empty-IsSafe : (draws : ℕ → String) → IsSafe draws empty_fleet
unfolding new lookup count occupied
empty-IsSafe draws = record {
  workers_keyed = tt;
  allocations_keyed = tt;
  placed = λ wid named. omega arith;
  exclusive = λ user. omega arith;
  unused = λ n later. refl;
}

module _ (r : Runtime) (distinct : (i j : ℕ) → r.draws i ≡ r.draws j → i ≡ j) where
  pub run-IsSafe : (steps : List Step) → IsSafe r.draws (run r steps)
  unfolding run advance_fleet
  run-IsSafe steps =
      for_each_inv (IsSafe r.draws) (advance_fleet r)
        (λ s tx h.
          let skipped =
            Quiet-IsSafe (Quiet-same tx (skip s.skipped tx) refl refl (omega arith)) h in
          let m = controller r s in
          update-IsSafe (perform m s.now s.transaction) _ skipped
            (perform-IsSafe m distinct s.now s.transaction _ skipped))
        steps empty_fleet (empty-IsSafe r.draws)

  -- At every point of every history of a fleet a worker has no more unfinished rooms than its
  -- max_rooms, and one that is not in the table has none: whichever controllers act,
  -- in whatever order and with whatever configurations, answers of the provider and reports of the
  -- agents. The identifiers that the controllers draw must be distinct, and the worker's not empty.
  pub run-placed :
      (steps : List Step) (wid : String)
      → wid ≢ ""
      → occupied (run r steps).state wid ≤ rooms_of (run r steps) wid
  run-placed steps wid named = (run-IsSafe steps).placed wid named

  -- At every point of every history of a fleet no user is in two unfinished rooms. The identifiers
  -- that the controllers draw must be distinct.
  pub run-exclusive : (steps : List Step) (user : String) → engaged (run r steps) user ≤ 1
  run-exclusive steps user = (run-IsSafe steps).exclusive user
