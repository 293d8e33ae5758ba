-- ===== src/Lifecycle/Progress.antt =====
-- The transaction of Tick succeeds whenever the lease can be had (pkg/fleetmanager/lifecycle.go).
use nakama_agones.Prelude.{
  ℕ, ◌≡◌, refl, String, true, false, not, ◌&&◌, ◌||◌, List, [], ◌∷◌, ◌==◌, text_Eq, ltb, Bool-cases,
  Option-cases, inl, inr, Result, ok, ◌>>=◌, refuse_if, try_each,
}
use nakama_agones.Prelude.Table.{lookup}
use nakama_agones.State.{Allocation}
use nakama_agones.State.Phases.{Phase, phase_Eq}
use nakama_agones.Manager.{Manager, Tx}
use nakama_agones.Manager.Admission.{eligible}
use nakama_agones.Manager.Allocations.{reserve}
use nakama_agones.Manager.Idempotence.{same_users_refl}
use nakama_agones.Lifecycle.{tick_update}
use nakama_agones.Lifecycle.Lease.{take_lease}
use nakama_agones.Lifecycle.Place.{admit_prepared}

abbrev pub Succeeds : Result Tx → Type 0
Succeeds r = (t : Tx) × (r ≡ ok t)

reserve-Succeeds :
    (m : Manager) (now ttl : ℕ) (a : Allocation) (tx : Tx)
    → (a.state == Phase.prepared) ≡ true
    → Succeeds (reserve m a.user_ids now ttl a tx)
unfolding reserve
reserve-Succeeds m now ttl a tx e =
    rw (same_users_refl a.user_ids)
      (elim (Bool-cases (a.state == Phase.assigned || a.state == Phase.active)) [
        | inl seated ↦ rw seated (tx, refl)
        | inr unseated ↦ rw (unseated, e) (_, refl)
      ])

admit_prepared-Succeeds :
    (m : Manager) (now : ℕ) (aid : String) (tx : Tx) → Succeeds (admit_prepared m now aid tx)
unfolding admit_prepared
admit_prepared-Succeeds m now aid tx = elim (Option-cases (lookup aid tx.allocations)) [
  | inl e ↦ rw (e, admit_prepared) (tx, refl)
  | inr (a, e) ↦
      rw (e, admit_prepared)
        (elim (Bool-cases (a.state == Phase.prepared)) [
          | inr other ↦ rw other (tx, refl)
          | inl prepared ↦ rw prepared (elim (Option-cases (lookup a.worker_id tx.workers)) [
            | inl gone ↦ rw (gone, admit_prepared) (tx, refl)
            | inr (w, there) ↦
                rw (there, admit_prepared)
                  (elim (Bool-cases (eligible m now w)) [
                    | inr unfit ↦ rw unfit (tx, refl)
                    | inl fit ↦ rw fit (reserve-Succeeds m now m.cfg.reservation_ttl a tx prepared)
                  ])
          ])
        ])
]

try_each-Succeeds :
    (body : String → Tx → Result Tx)
    → ((k : String) (tx : Tx) → Succeeds (body k tx))
    → (ks : List String) (tx : Tx) → Succeeds (try_each body ks tx)
unfolding try_each ◌>>=◌
try_each-Succeeds body h [] tx = (tx, refl)
try_each-Succeeds body h (k ∷ ks) tx = rw (h k tx).1 (try_each-Succeeds body h ks (h k tx).0)

-- The transaction of a tick fails only if another controller holds the lease: no room, worker or
-- command of the state, missing or of whatever contents, makes it fail.
pub tick_update-Succeeds :
    (m : Manager) (now : ℕ) (tx : Tx)
    → (not (tx.leader == m.owner) && ltb now tx.lease_until) ≡ false
    → Succeeds (tick_update m now tx)
unfolding tick_update take_lease ◌>>=◌ refuse_if
tick_update-Succeeds m now tx free =
    rw free (
      rw (try_each-Succeeds (admit_prepared m now) (admit_prepared-Succeeds m now) _ _).1 (_, refl))
