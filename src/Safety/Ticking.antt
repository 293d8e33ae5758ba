-- ===== src/Safety/Ticking.antt =====
-- The transaction of Tick keeps the fleet safe (pkg/fleetmanager/lifecycle.go).
use nakama_agones.Prelude.{
  ℕ, ◌≡◌, refl, String, ◌==◌, text_Eq, for_each_inv, try_each_inv, Bool-cases, Option-cases, inl,
  inr, Returns, Returns-ok, Returns-seq, Returns-refuse_if, arith,
}
use nakama_agones.Prelude.Table.{lookup, keys}
use nakama_agones.State.{Worker, occupied}
use nakama_agones.State.Phases.{Phase, phase_Eq}
use nakama_agones.Manager.{Manager, Tx, update_worker}
use nakama_agones.Manager.Admission.{eligible}
use nakama_agones.Manager.Policy.{policy}
use nakama_agones.Lifecycle.{tick_update}
use nakama_agones.Lifecycle.Lease.{take_lease, hold}
use nakama_agones.Lifecycle.Sweep.{sweep_worker, expire_allocation}
use nakama_agones.Lifecycle.Collect.{keep_allocation, collect, collect_worker}
use nakama_agones.Lifecycle.Place.{admit_prepared}
use nakama_agones.Lifecycle.Scale.{
  grow, needs_instance, idle_from, retires, retire_idle, stop_drained, stop_at, retire_at,
  retire_worker, in_service, queued, ready_count, scale,
}
use nakama_agones.Safety.Effects.{
  Quiet, Quiet-refl, Quiet-trans, Quiet-same, update_worker-Quiet, retain_allocations-Quiet,
}
use nakama_agones.Safety.Operations.{
  lookup-id, begin_drain-Quiet, reserve-Quiet, on_worker-Quiet, if-Quiet,
}
use nakama_agones.Safety.Sweeping.{for_each-Quiet, sweep_worker-Quiet, expire_allocation-Quiet}
use nakama_agones.Safety.Invariant.{IsSafe, Quiet-IsSafe, Returns-IsSafe}
use nakama_agones.Safety.Placing.{collect_worker-IsSafe, place_waiting-IsSafe}
use nakama_agones.Safety.Admitting.{new_worker-IsSafe}

collect-IsSafe :
    {draws : ℕ → String} (now : ℕ) (tx : Tx) → IsSafe draws tx → IsSafe draws (collect now tx)
unfolding collect
collect-IsSafe {draws} now tx safe =
    for_each_inv (IsSafe draws) (collect_worker now) (collect_worker-IsSafe now) _ _ (
      Quiet-IsSafe
        (Quiet-trans (retain_allocations-Quiet (keep_allocation now) tx)
          (Quiet-same _ _ refl refl (omega arith)))
        safe)

admit_prepared-IsSafe :
    {draws : ℕ → String} (m : Manager) (now : ℕ) (aid : String) (tx : Tx)
    → IsSafe draws tx
    → Returns (IsSafe draws) (admit_prepared m now aid tx)
unfolding admit_prepared
admit_prepared-IsSafe m now aid tx safe = elim (Option-cases (lookup aid tx.allocations)) [
  | inl e ↦ rw (e, admit_prepared) (Returns-ok _ tx safe)
  | inr (a, e) ↦
      rw (e, admit_prepared)
        (elim (Bool-cases (a.state == Phase.prepared)) [
          | inr other ↦ rw other (Returns-ok _ tx safe)
          | inl prepared ↦ rw prepared (elim (Option-cases (lookup a.worker_id tx.workers)) [
            | inl gone ↦ rw (gone, admit_prepared) (Returns-ok _ tx safe)
            | inr (w, there) ↦
                rw (there, admit_prepared)
                  (elim (Bool-cases (eligible m now w)) [
                    | inr unfit ↦ rw unfit (Returns-ok _ tx safe)
                    | inl fit ↦ rw fit (
                        Returns-IsSafe
                          (reserve-Quiet m a.user_ids now m.cfg.reservation_ttl a tx
                            (lookup-id aid a tx.allocations safe.allocations_keyed e))
                          safe)
                  ])
          ])
        ])
]

module _ (m : Manager) (now q : ℕ) where
  marked-Quiet : (w : Worker) (n : ℕ) (tx : Tx) → Quiet tx (update_worker w.id (idle_from now n) tx)
  unfolding idle_from
  marked-Quiet w n tx =
      update_worker-Quiet w.id (idle_from now n) tx
        (record { id_eq = λ v. refl; rooms_eq = λ v. refl })

  retire_idle-Quiet :
      (w : Worker) (tx : Tx) (rest : ℕ) → Quiet tx (retire_idle m now q w (tx, rest)).0
  unfolding retire_idle
  retire_idle-Quiet w tx rest = elim (Bool-cases (in_service w)) [
    | inr other ↦ rw other (Quiet-refl tx)
    | inl serving ↦
        rw serving
          (elim (Bool-cases (
            retires m now q rest (occupied tx.state w.id)
              (idle_from now (occupied tx.state w.id) w))) [
                | inr busy ↦ rw busy (marked-Quiet w (occupied tx.state w.id) tx)
                | inl idle ↦ rw idle (
                    Quiet-trans (marked-Quiet w (occupied tx.state w.id) tx)
                      (begin_drain-Quiet m now (idle_from now (occupied tx.state w.id) w) _))
              ])
  ]

  stop_drained-Quiet : (w : Worker) (tx : Tx) → Quiet tx (stop_drained m now w tx)
  unfolding stop_drained
  stop_drained-Quiet w tx =
      if-Quiet _ _ _ _
        (update_worker-Quiet w.id _ tx (record { id_eq = λ v. refl; rooms_eq = λ v. refl }))
        (Quiet-refl tx)

  retire_worker-Quiet : (wid : String) (s : Tx × ℕ) → Quiet s.0 (retire_worker m now q wid s).0
  unfolding retire_worker stop_at retire_at
  retire_worker-Quiet wid s = elim (Option-cases (lookup wid s.0.workers)) [
    | inl e ↦
        rw (e, retire_at)
          (on_worker-Quiet wid (stop_drained m now) s.0 (λ w. stop_drained-Quiet w _))
    | inr (w, e) ↦
        rw (e, retire_at)
          (Quiet-trans (retire_idle-Quiet w s.0 s.1)
            (on_worker-Quiet wid (stop_drained m now) _ (λ v. stop_drained-Quiet v _)))
  ]

module _ (m : Manager) (distinct : (i j : ℕ) → m.runtime.draws i ≡ m.runtime.draws j → i ≡ j)
    (now : ℕ) where
  grow-IsSafe : (tx : Tx) → IsSafe m.runtime.draws tx → IsSafe m.runtime.draws (grow m now tx)
  unfolding grow
  grow-IsSafe tx safe = elim (Bool-cases (needs_instance m now tx)) [
    | inr enough ↦ rw enough safe
    | inl needed ↦ rw needed (
        Quiet-IsSafe (Quiet-same _ _ refl refl (omega arith))
          (new_worker-IsSafe m now (policy m tx.state).rooms_per_instance tx distinct safe))
  ]

  scale-IsSafe : (tx : Tx) → IsSafe m.runtime.draws tx → IsSafe m.runtime.draws (scale m now tx)
  unfolding scale
  scale-IsSafe tx safe =
      for_each_inv (λ s. IsSafe m.runtime.draws s.0) (retire_worker m now (queued tx))
        (λ wid s. Quiet-IsSafe (retire_worker-Quiet m now (queued tx) wid s))
        (keys (grow m now tx).workers) (grow m now tx, ready_count tx) (grow-IsSafe tx safe)

  take_lease-IsSafe :
      (tx : Tx) → IsSafe m.runtime.draws tx → Returns (IsSafe m.runtime.draws) (take_lease m now tx)
  unfolding take_lease
  take_lease-IsSafe tx safe = Returns-refuse_if _ _ _ _ λ free.
      Returns-ok _ _ (Quiet-IsSafe (Quiet-same tx (hold m now tx) refl refl (omega arith)) safe)

  -- A tick leaves a safe fleet safe, whatever the order in which it meets workers and rooms.
  pub tick_update-IsSafe :
      (tx : Tx)
      → IsSafe m.runtime.draws tx
      → Returns (IsSafe m.runtime.draws) (tick_update m now tx)
  unfolding tick_update
  tick_update-IsSafe tx safe = Returns-seq _ _ _ λ held taken.
      let h = (take_lease-IsSafe tx safe).at held taken in
      let swept =
        for_each-Quiet (sweep_worker m now) (λ k t keyed. sweep_worker-Quiet m now k t)
          (keys held.workers) held h.allocations_keyed in
      let s = Quiet-IsSafe swept h in
      let expired =
        for_each-Quiet (expire_allocation m now) (expire_allocation-Quiet m now) (keys _) _
          s.allocations_keyed in
      Returns-seq _ _ _ λ admitted e. Returns-ok _ _ (
        scale-IsSafe _ (
          place_waiting-IsSafe m now admitted (
            (try_each_inv (IsSafe m.runtime.draws) (admit_prepared m now)
                (admit_prepared-IsSafe m now) (keys _) _
                (collect-IsSafe now _ (Quiet-IsSafe expired s))).at
              admitted e)))
