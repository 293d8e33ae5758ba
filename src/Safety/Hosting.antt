-- ===== src/Safety/Hosting.antt =====
-- The transactions that record the answers of the provider are quiet, and so are those of the lease
-- (pkg/fleetmanager/lifecycle.go).
use native.Mathlib.Nat.{le_refl}
use nakama_agones.Prelude.{
  ℕ, ◌+◌, ◌≡◌, refl, String, Option, none, some, List, [], ◌∷◌, ◌==◌, text_Eq, number_Eq,
  Bool-cases, Option-cases, inl, inr, Returns, Returns-ok, Returns-refuse_if, Returns-or_fail,
  arith,
}
use nakama_agones.Prelude.Table.{lookup}
use nakama_agones.State.{Worker}
use nakama_agones.State.Phases.{WorkerState, worker_state_Eq, WorkerError, Blocked}
use nakama_agones.Provider.{Outcome, Instance, InstanceStatus}
use nakama_agones.Manager.{Manager, Tx, update_worker, on_worker}
use nakama_agones.Lifecycle.Lease.{check_lease, renew_lease, release_lease}
use nakama_agones.Lifecycle.Sweep.{stopped}
use nakama_agones.Lifecycle.Instances.{
  provider_lifetime, endpoint, start_begin, start_error, start_answer, start_finish, start_unknown,
  start_failed, launched, block_creation, delay_creation,
}
use nakama_agones.Lifecycle.Reconcile.{reconcile_answer, reconcile_update, still_unknown, adopted}
use nakama_agones.Lifecycle.Poll.{
  poll_alive, poll_unhealthy, poll_instance, poll_answer, poll_update, withdraw_endpoint,
  query_failed, unhealthy_next, bad_endpoint, at_endpoint,
}
use nakama_agones.Lifecycle.Stop.{stop_check, stop_failed, stop_finish, stop_confirmed}
use nakama_agones.Safety.Effects.{Quiet, Quiet-refl, Quiet-trans, Quiet-same, update_worker-Quiet}
use nakama_agones.Safety.Operations.{stopped-Quiet, lost-Quiet, on_worker-Quiet, if-Quiet}

pub write-Quiet :
    (wid : String) (f : Worker → Worker) (tx : Tx)
    → ((v : Worker) → (f v).id ≡ v.id)
    → ((v : Worker) → (f v).max_rooms ≡ v.max_rooms)
    → Quiet tx (update_worker wid f tx)
write-Quiet wid f tx p q = update_worker-Quiet wid f tx (record { id_eq = p; rooms_eq = q })

block-Quiet : (b : Blocked) (tx : Tx) → Quiet tx (block_creation b tx)
block-Quiet b tx = Quiet-same tx _ refl refl (le_refl _)

delay-Quiet : (t : ℕ) (tx : Tx) → Quiet tx (delay_creation t tx)
delay-Quiet t tx = Quiet-same tx _ refl refl (le_refl _)

provider_lifetime-Quiet :
    (m : Manager) (now : ℕ) (i : Instance) (w : Worker) (tx : Tx)
    → Quiet tx (provider_lifetime m now i w tx)
unfolding provider_lifetime
provider_lifetime-Quiet m now i w tx = if-Quiet _ _ _ _ (Quiet-refl tx) (
    if-Quiet _ _ _ _
      (Quiet-trans (write-Quiet w.id _ tx (λ v. ground arith) (λ v. ground arith))
        (block-Quiet Blocked.provider_lifetime_too_short _))
      (write-Quiet w.id _ tx (λ v. refl) (λ v. refl)))

start_error-Quiet :
    (now : ℕ) (answer : Outcome Instance) (wid : String) (tx : Tx)
    → Quiet tx (start_error now answer wid tx)
unfolding start_error
start_error-Quiet now answer wid tx =
    Quiet-trans
      (if-Quiet _ _ _ _
        (if-Quiet _ _ _ _
          (Quiet-trans (write-Quiet wid (start_unknown _ now) tx (λ v. refl) (λ v. refl))
            (block-Quiet Blocked.provider_configuration_requires_review _))
          (write-Quiet wid (start_unknown _ now) tx (λ v. refl) (λ v. refl)))
        (if-Quiet _ _ _ _
          (Quiet-trans (write-Quiet wid start_failed tx (λ v. refl) (λ v. refl))
            (block-Quiet Blocked.provider_configuration_requires_review _))
          (write-Quiet wid start_failed tx (λ v. refl) (λ v. refl))))
      (delay-Quiet (now + 15) _)

pub start_begin-Quiet :
    (m : Manager) (now : ℕ) (wid : String) (tx : Tx) → Returns (Quiet tx) (start_begin m now wid tx)
unfolding start_begin check_lease
start_begin-Quiet m now wid tx = Returns-refuse_if _ _ _ _ λ leased. Returns-or_fail _ _ _ _ λ w e.
    Returns-refuse_if _ _ _ _
      λ requested. Returns-ok _ _ (write-Quiet wid _ tx (λ v. refl) (λ v. refl))

pub renew_lease-Quiet :
    (m : Manager) (now : ℕ) (tx : Tx) → Returns (Quiet tx) (renew_lease m now tx)
unfolding renew_lease check_lease
renew_lease-Quiet m now tx =
    Returns-refuse_if _ _ _ _ λ leased. Returns-ok _ _ (Quiet-same tx _ refl refl (le_refl _))

pub release_lease-Quiet : (m : Manager) (tx : Tx) → Quiet tx (release_lease m tx)
unfolding release_lease
release_lease-Quiet m tx = elim (Bool-cases (tx.leader == m.owner)) [
  | inl leads ↦ rw leads (Quiet-same tx _ refl refl (le_refl _))
  | inr other ↦ rw other (Quiet-refl tx)
]

module _ (m : Manager) (now : ℕ) (w : Worker) where
  poll_alive-Quiet : (i : Instance) (v : Worker) (tx : Tx) → Quiet tx (poll_alive m now i v tx)
  unfolding poll_alive at_endpoint
  poll_alive-Quiet i v tx = if-Quiet _ _ _ _ (Quiet-refl tx) (
      if-Quiet _ _ _ _ (write-Quiet v.id _ tx (λ u. refl) (λ u. refl))
        (if-Quiet _ _ _ _ (at-Quiet (endpoint m i.network_ports)) (Quiet-refl tx)))
    where
      at-Quiet :
          (o : Option (String × ℕ))
          → Quiet tx (elim o [
            | none ↦ update_worker v.id bad_endpoint tx
            | some e ↦ update_worker v.id (at_endpoint m now e) tx
          ])
      at-Quiet none = write-Quiet v.id bad_endpoint tx (λ u. refl) (λ u. refl)
      at-Quiet (some e) = write-Quiet v.id (at_endpoint m now e) tx (λ u. refl) (λ u. refl)

  poll_instance-Quiet :
      (i : Instance) (v : Worker) (tx : Tx) → Quiet tx (poll_instance m now i v tx)
  unfolding poll_instance poll_unhealthy
  poll_instance-Quiet i v tx = if-Quiet _ _ _ _ (Quiet-refl tx) (status-Quiet i.status)
    where
      withdraw-Quiet : Quiet tx (update_worker v.id withdraw_endpoint tx)
      withdraw-Quiet = write-Quiet v.id withdraw_endpoint tx (λ u. refl) (λ u. refl)

      status-Quiet :
          (s : InstanceStatus)
          → Quiet tx (elim s [
            | InstanceStatus.unhealthy ↦ poll_unhealthy now v tx
            | InstanceStatus.stopped ↦ stopped now v (update_worker v.id withdraw_endpoint tx)
            | InstanceStatus.launching ↦
                on_worker v.id (poll_alive m now i) (update_worker v.id withdraw_endpoint tx)
            | InstanceStatus.running ↦ poll_alive m now i v tx
          ])
      status-Quiet InstanceStatus.unhealthy =
          Quiet-trans (lost-Quiet WorkerError.provider_unhealthy now v tx)
            (write-Quiet v.id (unhealthy_next now) _ (λ u. refl) (λ u. refl))
      status-Quiet InstanceStatus.stopped = Quiet-trans withdraw-Quiet (stopped-Quiet now v _)
      status-Quiet InstanceStatus.launching = Quiet-trans withdraw-Quiet (
          on_worker-Quiet v.id (poll_alive m now i) (update_worker v.id withdraw_endpoint tx)
            (λ u. poll_alive-Quiet i u (update_worker v.id withdraw_endpoint tx)))
      status-Quiet InstanceStatus.running = poll_alive-Quiet i v tx

  poll_answer-Quiet :
      (answer : Outcome Instance) (tx : Tx) → Quiet tx (poll_answer m now w answer tx)
  unfolding poll_answer
  poll_answer-Quiet Outcome.other_error tx =
      write-Quiet w.id query_failed tx (λ u. refl) (λ u. refl)
  poll_answer-Quiet (Outcome.api_error e) tx = if-Quiet _ _ _ _ (stopped-Quiet now w tx) (
      if-Quiet _ _ _ _ (lost-Quiet WorkerError.provider_ownership_mismatch now w tx)
        (write-Quiet w.id query_failed tx (λ u. refl) (λ u. refl)))
  poll_answer-Quiet (Outcome.done i) tx =
      if-Quiet _ _ _ _ (lost-Quiet WorkerError.provider_ownership_mismatch now w tx) (
        Quiet-trans
          (on_worker-Quiet w.id (provider_lifetime m now i) tx
            (λ v. provider_lifetime-Quiet m now i v tx))
          (on_worker-Quiet w.id (poll_instance m now i) _ (λ v. poll_instance-Quiet i v _)))

  pub poll_update-Quiet :
      (answer : Outcome Instance) (tx : Tx) → Returns (Quiet tx) (poll_update m now w answer tx)
  unfolding poll_update
  poll_update-Quiet answer tx = elim (Bool-cases (tx.leader == m.owner)) [
    | inr other ↦ rw other (Returns-ok _ tx (Quiet-refl tx))
    | inl leads ↦ rw leads (
        Returns-or_fail _ _ _ _ λ current e.
          elim (Bool-cases (current.provider_id == w.provider_id)) [
            | inr changed ↦ rw changed (Returns-ok _ tx (Quiet-refl tx))
            | inl same ↦ rw same (
                Returns-ok _ _ (
                  Quiet-trans (write-Quiet w.id _ tx (λ u. refl) (λ u. refl))
                    (poll_answer-Quiet answer _)))
          ])
  ]

  pub stop_check-Quiet : (tx : Tx) → Returns (Quiet tx) (stop_check m now w tx)
  unfolding stop_check check_lease
  stop_check-Quiet tx = Returns-refuse_if _ _ _ _ λ leased. Returns-or_fail _ _ _ _ λ current e.
      Returns-refuse_if _ _ _ _
        λ stopping. Returns-refuse_if _ _ _ _ λ idle. Returns-ok _ tx (Quiet-refl tx)

  pub stop_failed-Quiet : (tx : Tx) → Returns (Quiet tx) (stop_failed m now w tx)
  unfolding stop_failed
  stop_failed-Quiet tx = elim (Bool-cases (tx.leader == m.owner)) [
    | inr other ↦ rw other (Returns-ok _ tx (Quiet-refl tx))
    | inl leads ↦ rw leads (
        Returns-or_fail _ _ _ _
          λ current e. Returns-ok _ _ (write-Quiet w.id _ tx (λ u. refl) (λ u. refl)))
  ]

  pub stop_finish-Quiet :
      (answer : Outcome Instance) (tx : Tx) → Returns (Quiet tx) (stop_finish m now w answer tx)
  unfolding stop_finish
  stop_finish-Quiet answer tx = elim (Bool-cases (tx.leader == m.owner)) [
    | inr other ↦ rw other (Returns-ok _ tx (Quiet-refl tx))
    | inl leads ↦ rw leads (
        Returns-or_fail _ _ _ _ λ current e. elim (Bool-cases (stop_confirmed m w answer)) [
          | inl gone ↦ rw gone (
              Returns-ok _ _ (
                Quiet-trans (write-Quiet w.id _ tx (λ u. refl) (λ u. refl))
                  (stopped-Quiet now w _)))
          | inr waits ↦ rw waits (
              Returns-ok _ _ (
                Quiet-trans (write-Quiet w.id _ tx (λ u. refl) (λ u. refl))
                  (write-Quiet w.id _ _ (λ u. refl) (λ u. refl))))
        ])
  ]

module _ (m : Manager) (now : ℕ) (wid : String) where
  reconcile_answer-Quiet :
      (answer : Outcome (List Instance)) (tx : Tx) → Quiet tx (reconcile_answer m now answer wid tx)
  unfolding reconcile_answer
  reconcile_answer-Quiet (Outcome.api_error e) tx =
      if-Quiet _ _ _ _
        (Quiet-trans (write-Quiet wid still_unknown tx (λ u. refl) (λ u. refl))
          (block-Quiet Blocked.provider_configuration_requires_review _))
        (write-Quiet wid still_unknown tx (λ u. refl) (λ u. refl))
  reconcile_answer-Quiet Outcome.other_error tx =
      write-Quiet wid still_unknown tx (λ u. refl) (λ u. refl)
  reconcile_answer-Quiet (Outcome.done []) tx = Quiet-refl tx
  reconcile_answer-Quiet (Outcome.done (i ∷ [])) tx =
      Quiet-trans (write-Quiet wid (adopted now i) tx (λ u. refl) (λ u. refl)) (
        on_worker-Quiet wid (provider_lifetime m now i) _
          (λ v. provider_lifetime-Quiet m now i v _))
  reconcile_answer-Quiet (Outcome.done (i ∷ j ∷ is)) tx =
      write-Quiet wid _ tx (λ u. refl) (λ u. refl)

  pub reconcile_update-Quiet :
      (answer : Outcome (List Instance)) (tx : Tx)
      → Returns (Quiet tx) (reconcile_update m now answer wid tx)
  unfolding reconcile_update
  reconcile_update-Quiet answer tx = elim (Bool-cases (tx.leader == m.owner)) [
    | inr other ↦ rw other (Returns-ok _ tx (Quiet-refl tx))
    | inl leads ↦ rw leads (elim (Option-cases (lookup wid tx.workers)) [
      | inl e ↦ rw (e, reconcile_update) (Returns-ok _ tx (Quiet-refl tx))
      | inr (current, e) ↦
          rw (e, reconcile_update)
            (elim (Bool-cases (current.state == WorkerState.unknown)) [
              | inr known ↦ rw known (Returns-ok _ tx (Quiet-refl tx))
              | inl unknown ↦ rw unknown (
                  Returns-ok _ _ (
                    Quiet-trans (write-Quiet wid _ tx (λ u. refl) (λ u. refl))
                      (reconcile_answer-Quiet answer _)))
            ])
    ])
  ]

  start_answer-Quiet :
      (later : ℕ) (answer : Outcome Instance) (tx : Tx)
      → Quiet tx (start_answer m now later answer wid tx)
  unfolding start_answer
  start_answer-Quiet later (Outcome.done i) tx =
      Quiet-trans (write-Quiet wid (launched later i) tx (λ u. refl) (λ u. refl)) (
        on_worker-Quiet wid (provider_lifetime m later i) _
          (λ v. provider_lifetime-Quiet m later i v _))
  start_answer-Quiet later (Outcome.api_error e) tx =
      start_error-Quiet now (Outcome.api_error e) wid tx
  start_answer-Quiet later Outcome.other_error tx = start_error-Quiet now Outcome.other_error wid tx

  pub start_finish-Quiet :
      (later : ℕ) (answer : Outcome Instance) (tx : Tx)
      → Returns (Quiet tx) (start_finish m now later answer wid tx)
  unfolding start_finish
  start_finish-Quiet later answer tx = elim (Bool-cases (tx.leader == m.owner)) [
    | inr other ↦ rw other (Returns-ok _ tx (Quiet-refl tx))
    | inl leads ↦ rw leads (
        Returns-or_fail _ _ _ _ λ current e. Returns-ok _ _ (
          Quiet-trans (write-Quiet wid _ tx (λ u. refl) (λ u. refl))
            (start_answer-Quiet later answer _)))
  ]
