-- ===== src/Safety/Sweeping.antt =====
-- The loops of Tick's transaction that sweep, expire and collect are quiet
-- (pkg/fleetmanager/lifecycle.go). Collection forgets no worker of an unfinished room.
use nakama_agones.Prelude.{
  ℕ, refl, String, Option, none, some, List, text_Eq, for_each, for_each_inv,
}
use nakama_agones.State.Phases.{Reason, WorkerError}
use nakama_agones.Manager.{Manager, Tx}
use nakama_agones.Lifecycle.Sweep.{
  drain_expiring, note_interrupted, suspect_silent, lose_silent, sweep_worker, expiry, cancel_for,
  expire_found, expire_allocation,
}
use nakama_agones.Safety.Effects.{
  KeyedAllocations, Quiet, Quiet-refl, Quiet-trans, update_worker-Quiet,
}
use nakama_agones.Safety.Operations.{
  begin_drain-Quiet, lost-Quiet, on_worker-Quiet, on_allocation-Quiet, cancel-Quiet, if-Quiet,
}

-- A loop whose body is quiet is quiet.
pub for_each-Quiet :
    (body : String → Tx → Tx)
    → ((k : String) (tx : Tx) → KeyedAllocations tx.allocations → Quiet tx (body k tx))
    → (ks : List String) (tx : Tx) → KeyedAllocations tx.allocations
    → Quiet tx (for_each body ks tx)
for_each-Quiet body h ks tx keyed =
    for_each_inv (λ s. Quiet tx s) body (λ k s q. Quiet-trans q (h k s (q.allocations_keyed keyed)))
      ks tx (Quiet-refl tx)

pub sweep_worker-Quiet :
    (m : Manager) (now : ℕ) (wid : String) (tx : Tx) → Quiet tx (sweep_worker m now wid tx)
unfolding sweep_worker
sweep_worker-Quiet m now wid tx =
    Quiet-trans
      (on_worker-Quiet wid (drain_expiring m now) tx
        (λ w. if-Quiet _ _ _ _ (begin_drain-Quiet m now w tx) (Quiet-refl _)))
      (Quiet-trans
        (on_worker-Quiet wid (note_interrupted now) _ (λ w.
          if-Quiet _ _ _ _
            (update_worker-Quiet w.id _ _ (record { id_eq = λ v. refl; rooms_eq = λ v. refl }))
            (Quiet-refl _)))
        (Quiet-trans
          (on_worker-Quiet wid (suspect_silent m now) _ (λ w.
            if-Quiet _ _ _ _
              (update_worker-Quiet w.id _ _ (record { id_eq = λ v. refl; rooms_eq = λ v. refl }))
              (Quiet-refl _)))
          (on_worker-Quiet wid (lose_silent m now) _
            (λ w. if-Quiet _ _ _ _ (lost-Quiet WorkerError.agent_lost now w _) (Quiet-refl _)))))

cancel_for-Quiet :
    (m : Manager) (now : ℕ) (aid : String) (o : Option Reason) (tx : Tx)
    → KeyedAllocations tx.allocations
    → Quiet tx (cancel_for m now aid o tx)
unfolding cancel_for
cancel_for-Quiet m now aid none tx keyed = Quiet-refl tx
cancel_for-Quiet m now aid (some reason) tx keyed = cancel-Quiet m reason now aid tx keyed

pub expire_allocation-Quiet :
    (m : Manager) (now : ℕ) (aid : String) (tx : Tx)
    → KeyedAllocations tx.allocations
    → Quiet tx (expire_allocation m now aid tx)
unfolding expire_allocation
expire_allocation-Quiet m now aid tx keyed =
    on_allocation-Quiet aid (expire_found m now aid) tx keyed
      (λ a e. cancel_for-Quiet m now aid (expiry now tx a) tx keyed)
