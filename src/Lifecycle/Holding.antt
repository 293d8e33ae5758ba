-- ===== src/Lifecycle/Holding.antt =====
-- The transaction of Tick leaves the lease as its beginning took it (pkg/fleetmanager/lifecycle.go).
use nakama_agones.Prelude.{
  ℕ, ◌+◌, ◌≡◌, refl, String, Bool, true, false, not, ◌&&◌, ◌||◌, Option, none, some, ◌==◌, text_Eq,
  number_Eq, ltb, Bool-cases, Option-cases, inl, inr, ok, if◌then◌else◌, for_each_inv, for_each,
  sort, try_each_inv, Error, Returns, Returns-ok, Returns-err, Returns-if, Returns-seq,
  Returns-refuse_if, ◌>>=◌, ◌∙◌,
}
use nakama_agones.Prelude.Table.{lookup, keys}
use nakama_agones.State.{Worker, Allocation, occupied}
use nakama_agones.State.Phases.{
  Phase, phase_Eq, Reason, terminal, WorkerError, WorkerState, worker_state_Eq,
}
use nakama_agones.State.Telemetry.{work_finished}
use nakama_agones.Manager.{Manager, Tx, on_worker, on_allocation}
use nakama_agones.Manager.Users.{same_users}
use nakama_agones.Manager.Admission.{eligible, older_than}
use nakama_agones.Manager.Instances.{begin_drain, new_worker}
use nakama_agones.Manager.Allocations.{cancel, cancel_found, send_cancel, reserve}
use nakama_agones.Lifecycle.{tick_update}
use nakama_agones.Lifecycle.Lease.{take_lease}
use nakama_agones.Lifecycle.Sweep.{
  fail_rooms, lost, drain_expiring, note_interrupted, suspect_silent, lose_silent, sweep_worker,
  expiry, cancel_for, expire_found, expire_allocation,
}
use nakama_agones.Lifecycle.Collect.{forget, collect_found, collect_worker, collect}
use nakama_agones.Lifecycle.Place.{
  admit_prepared, choose, place_on, place_one, place_waiting, placed_before, waiting,
}
use nakama_agones.Lifecycle.Scale.{
  grow, needs_instance, idle_from, retires, retire_idle, stop_drained, stop_at, retire_at,
  retire_worker, in_service, scale,
}

-- the lease is that of `leader`, until `until`
pub record Leased (leader : String) (until : ℕ) (tx : Tx) : Type 0 where
  pub led : tx.leader ≡ leader
  pub lasts : tx.lease_until ≡ until

module _ {leader : String} {until : ℕ} where
  -- what does not touch the lease
  apart :
      (tx t : Tx)
      → t.leader ≡ tx.leader
      → t.lease_until ≡ tx.lease_until
      → Leased leader until tx
      → Leased leader until t
  apart tx t e f h = record { led = e ∙ h.led; lasts = f ∙ h.lasts }

  if-Leased :
      (b : Bool) (x y : Tx)
      → Leased leader until x
      → Leased leader until y
      → Leased leader until (if b then x else y)
  if-Leased true x y h k = h
  if-Leased false x y h k = k

  on_worker-Leased :
      (wid : String) (f : Worker → Tx → Tx) (tx : Tx)
      → ((w : Worker) → Leased leader until (f w tx))
      → Leased leader until tx
      → Leased leader until (on_worker wid f tx)
  on_worker-Leased wid f tx h k = elim (Option-cases (lookup wid tx.workers)) [
    | inl e ↦ rw (e, on_worker) k
    | inr (w, e) ↦ rw (e, on_worker) (h w)
  ]

  on_allocation-Leased :
      (aid : String) (f : Allocation → Tx → Tx) (tx : Tx)
      → ((a : Allocation) → Leased leader until (f a tx))
      → Leased leader until tx
      → Leased leader until (on_allocation aid f tx)
  on_allocation-Leased aid f tx h k = elim (Option-cases (lookup aid tx.allocations)) [
    | inl e ↦ rw (e, on_allocation) k
    | inr (a, e) ↦ rw (e, on_allocation) (h a)
  ]

  module _ (m : Manager) (now : ℕ) where
    begin_drain-Leased :
        (w : Worker) (tx : Tx)
        → Leased leader until tx
        → Leased leader until (begin_drain m now w tx)
    unfolding begin_drain
    begin_drain-Leased w tx h = if-Leased w.draining _ _ h (apart tx _ refl refl h)

    cancel_found-Leased :
        (reason : Reason) (a : Allocation) (tx : Tx)
        → Leased leader until tx
        → Leased leader until (cancel_found m reason now a tx)
    unfolding cancel_found send_cancel
    cancel_found-Leased reason a tx h =
        elim (Bool-cases (terminal a.state || a.state == Phase.cancelling)) [
          | inl over ↦ rw over h
          | inr open_ ↦ elim (Bool-cases (a.worker_id == "")) [
            | inl early ↦ rw (open_, early) (apart tx _ refl refl h)
            | inr placed ↦ rw (open_, placed) (apart tx _ refl refl h)
          ]
        ]

    cancel-Leased :
        (reason : Reason) (aid : String) (tx : Tx)
        → Leased leader until tx
        → Leased leader until (cancel m reason now aid tx)
    unfolding cancel
    cancel-Leased reason aid tx h =
        on_allocation-Leased aid (cancel_found m reason now) tx
          (λ a. cancel_found-Leased reason a tx h) h

    lost-Leased :
        (e : WorkerError) (w : Worker) (tx : Tx)
        → Leased leader until tx
        → Leased leader until (lost e now w tx)
    unfolding lost fail_rooms
    lost-Leased e w tx h = apart tx _ refl refl h

    sweep_worker-Leased :
        (wid : String) (tx : Tx)
        → Leased leader until tx
        → Leased leader until (sweep_worker m now wid tx)
    unfolding sweep_worker drain_expiring note_interrupted suspect_silent lose_silent
    sweep_worker-Leased wid tx h =
        let t₁ = on_worker wid (drain_expiring m now) tx in
        let h₁ : Leased leader until t₁ =
          on_worker-Leased wid (drain_expiring m now) tx
            (λ w. if-Leased _ _ _ (begin_drain-Leased w tx h) h) h in
        let t₂ = on_worker wid (note_interrupted now) t₁ in
        let h₂ : Leased leader until t₂ =
          on_worker-Leased wid (note_interrupted now) t₁
            (λ w.
              if-Leased (w.state == WorkerState.starting && older_than now w.updated_at 15) _ _
                (apart t₁ _ refl refl h₁) h₁)
            h₁ in
        let t₃ = on_worker wid (suspect_silent m now) t₂ in
        let h₃ : Leased leader until t₃ =
          on_worker-Leased wid (suspect_silent m now) t₂
            (λ w.
              if-Leased
                (w.state == WorkerState.ready
                  && older_than now w.last_heartbeat m.cfg.heartbeat_timeout)
                _ _ (apart t₂ _ refl refl h₂) h₂)
            h₂ in
        on_worker-Leased wid (lose_silent m now) t₃
          (λ w. if-Leased _ _ _ (lost-Leased WorkerError.agent_lost w t₃ h₃) h₃) h₃

    cancel_for-Leased :
        (aid : String) (o : Option Reason) (tx : Tx)
        → Leased leader until tx
        → Leased leader until (cancel_for m now aid o tx)
    unfolding cancel_for
    cancel_for-Leased aid none tx h = h
    cancel_for-Leased aid (some reason) tx h = cancel-Leased reason aid tx h

    expire-Leased :
        (aid : String) (tx : Tx)
        → Leased leader until tx
        → Leased leader until (expire_allocation m now aid tx)
    unfolding expire_allocation expire_found
    expire-Leased aid tx h =
        on_allocation-Leased aid (expire_found m now aid) tx
          (λ a. cancel_for-Leased aid (expiry now tx a) tx h) h

    forget-Leased :
        (wid : String) (tx : Tx) → Leased leader until tx → Leased leader until (forget wid tx)
    unfolding forget
    forget-Leased wid tx h = apart tx _ refl refl h

    collect-Leased : (tx : Tx) → Leased leader until tx → Leased leader until (collect now tx)
    unfolding collect collect_worker collect_found
    collect-Leased tx h =
        for_each_inv (Leased leader until) (collect_worker now)
          (λ wid t k.
            on_worker-Leased wid (collect_found now wid) t
              (λ w. if-Leased _ _ _ (forget-Leased wid t k) k) k)
          _ _ (apart tx _ refl refl h)

    reserve-Leased :
        (ttl : ℕ) (a : Allocation) (tx : Tx)
        → Leased leader until tx
        → Returns (Leased leader until) (reserve m a.user_ids now ttl a tx)
    unfolding reserve
    reserve-Leased ttl a tx h = elim (Bool-cases (not (same_users a.user_ids a.user_ids))) [
      | inl others ↦ rw others (Returns-err _ _)
      | inr same ↦ elim (Bool-cases (a.state == Phase.assigned || a.state == Phase.active)) [
        | inl seated ↦ rw (same, seated) (Returns-ok _ tx h)
        | inr unseated ↦ elim (Bool-cases (not (a.state == Phase.prepared))) [
          | inl early ↦ rw (same, unseated, early) (Returns-err _ _)
          | inr ready ↦ rw (same, unseated, ready) (Returns-ok _ _ (apart tx _ refl refl h))
        ]
      ]
    ]

    admit-Leased :
        (aid : String) (tx : Tx)
        → Leased leader until tx
        → Returns (Leased leader until) (admit_prepared m now aid tx)
    unfolding admit_prepared
    admit-Leased aid tx h = elim (Option-cases (lookup aid tx.allocations)) [
      | inl e ↦ rw (e, admit_prepared) (Returns-ok _ tx h)
      | inr (a, e) ↦
          rw (e, admit_prepared)
            (Returns-if _ (a.state == Phase.prepared) _ _
              (λ prepared. elim (Option-cases (lookup a.worker_id tx.workers)) [
                | inl gone ↦ rw (gone, admit_prepared) (Returns-ok _ tx h)
                | inr (w, there) ↦
                    rw (there, admit_prepared)
                      (Returns-if _ (eligible m now w) _ _
                        (λ fit. reserve-Leased m.cfg.reservation_ttl a tx h)
                        (λ unfit. Returns-ok _ tx h))
              ])
              (λ other. Returns-ok _ tx h))
    ]

    place_one-Leased :
        (a : Allocation) (tx : Tx)
        → Leased leader until tx
        → Leased leader until (place_one m now a tx)
    unfolding place_one place_on
    place_one-Leased a tx h = elim (Option-cases (choose m now tx.state a)) [
      | inl e ↦ rw (e, place_one) h
      | inr (chosen, e) ↦ rw (e, place_one) (apart tx _ refl refl h)
    ]

    place_waiting-Leased :
        (tx : Tx) → Leased leader until tx → Leased leader until (place_waiting m now tx)
    unfolding place_waiting
    place_waiting-Leased tx h =
        for_each_inv (Leased leader until) (place_one m now) place_one-Leased
          (sort placed_before (waiting tx.allocations)) tx h

    grow-Leased : (tx : Tx) → Leased leader until tx → Leased leader until (grow m now tx)
    unfolding grow new_worker
    grow-Leased tx h = if-Leased (needs_instance m now tx) _ _ (apart tx _ refl refl h) h

    stop_drained-Leased :
        (w : Worker) (tx : Tx)
        → Leased leader until tx
        → Leased leader until (stop_drained m now w tx)
    unfolding stop_drained
    stop_drained-Leased w tx h =
        if-Leased
          (w.state == WorkerState.draining
            && w.drain_ack
            && occupied tx.state w.id == 0
            && w.player_count == 0
            && work_finished w.metrics
            && not (older_than now w.last_heartbeat m.cfg.heartbeat_timeout))
          _ _ (apart tx _ refl refl h) h

    retire-Leased :
        (q : ℕ) (wid : String) (s : Tx × ℕ)
        → Leased leader until s.0
        → Leased leader until (retire_worker m now q wid s).0
    unfolding retire_worker stop_at retire_at retire_idle
    retire-Leased q wid (tx, rest) h =
        on_worker-Leased wid (stop_drained m now) (retire_at m now q wid (tx, rest)).0
          (λ w. stop_drained-Leased w _ idle) idle
      where
        idle : Leased leader until (retire_at m now q wid (tx, rest)).0
        idle = elim (Option-cases (lookup wid tx.workers)) [
          | inl e ↦ rw (e, retire_at) h
          | inr (w, e) ↦
              rw (e, retire_at)
                (elim (Bool-cases (in_service w)) [
                  | inr other ↦ rw other h
                  | inl serving ↦
                      rw serving
                        (elim (Bool-cases (
                          retires m now q rest (occupied tx.state w.id)
                            (idle_from now (occupied tx.state w.id) w))) [
                              | inr busy ↦ rw busy (apart tx _ refl refl h)
                              | inl quiet ↦ rw quiet (
                                  begin_drain-Leased (idle_from now (occupied tx.state w.id) w) _
                                    (apart tx _ refl refl h))
                            ])
                ])
        ]

    scale-Leased : (tx : Tx) → Leased leader until tx → Leased leader until (scale m now tx)
    unfolding scale
    scale-Leased tx h =
        for_each_inv (λ s. Leased leader until s.0) (retire_worker m now _) (retire-Leased _) _ _
          (grow-Leased tx h)

-- The lease that a tick takes is there when its transaction is committed.
pub tick_update-Leased :
    (m : Manager) (now : ℕ) (tx : Tx) → Returns (Leased m.owner (now + 30)) (tick_update m now tx)
unfolding tick_update take_lease ◌>>=◌
tick_update-Leased m now tx = Returns-seq _ _ _ λ held e.
    let P = Leased m.owner (now + 30) in
    let h : P held = taken held e in
    let swept = for_each (sweep_worker m now) (keys held.workers) held in
    let h₁ : P swept =
      for_each_inv P (sweep_worker m now) (sweep_worker-Leased m now) (keys held.workers) held h in
    let expired = for_each (expire_allocation m now) (keys swept.allocations) swept in
    let h₂ : P expired =
      for_each_inv P (expire_allocation m now) (expire-Leased m now) (keys swept.allocations) swept
        h₁ in
    let h₃ = collect-Leased m now expired h₂ in
    Returns-seq _ _ _ λ admitted e.
      let seated : P admitted =
        (try_each_inv P (admit_prepared m now) (admit-Leased m now)
            (keys (collect now expired).allocations) (collect now expired) h₃).at
          admitted e in
      Returns-ok _ _ (
        scale-Leased m now (place_waiting m now admitted)
          (place_waiting-Leased m now admitted seated))
  where
    taken : (t : Tx) → take_lease m now tx ≡ ok t → Leased m.owner (now + 30) t
    taken t e =
        (Returns-refuse_if (Leased m.owner (now + 30))
            (not (tx.leader == m.owner) && ltb now tx.lease_until) Error.lease _
            (λ free. Returns-ok _ _ (record { led = refl; lasts = refl }))).at
          t e
