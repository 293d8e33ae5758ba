-- ===== src/Safety/Operations.antt =====
-- The operations of the manager and of the sweep that are quiet: those that end, cancel and seat
-- rooms, and those that write to workers (pkg/fleetmanager/manager.go, lifecycle.go).
use mathlib.Core.Path.{subst}
use nakama_agones.Prelude.{
  ℕ, ◌≡◌, refl, sym, String, Bool, true, false, ◌||◌, some, arith, ◌==◌, text_Eq, if◌then◌else◌,
  Bool-cases, Option-cases, inl, inr, Returns, Returns-ok, Returns-err, List,
}
use nakama_agones.Prelude.Table.{Table, lookup}
use nakama_agones.Prelude.Table.Laws.{Entries-lookup}
use nakama_agones.State.{Worker, Allocation}
use nakama_agones.State.Phases.{
  Phase, phase_Eq, phase_eq_iff, Reason, WorkerState, WorkerError, terminal,
}
use nakama_agones.Manager.{Manager, Tx, update_worker, on_worker, on_allocation}
use nakama_agones.Manager.Users.{same_users}
use nakama_agones.Manager.Allocations.{
  finish, begin_cancel, send_cancel, cancel_found, cancel, assign, reserve,
}
use nakama_agones.Manager.Instances.{begin_drain, start_draining}
use nakama_agones.Lifecycle.Sweep.{fail_room, fail_rooms, stopped, lost, gone}
use nakama_agones.Safety.Effects.{
  KeyedAllocations, Quiet, Quiet-refl, Quiet-trans, Quiet-same, Calm, update_worker-Quiet,
  update_allocation-Quiet, map_allocations-Quiet,
}

pub lookup-id :
    (aid : String) (a : Allocation) (m : Table Allocation)
    → KeyedAllocations m
    → lookup aid m ≡ some a
    → lookup a.id m ≡ some a
lookup-id aid a m keyed e =
    let key : a.id ≡ aid = Entries-lookup (λ k b. b.id ≡ k) aid a m keyed e in
    subst (λ k. lookup k m ≡ some a) (sym key) e

finish-Calm :
    (phase : Phase) (reason : Reason) (now : ℕ) (a : Allocation)
    → terminal phase ≡ true
    → Calm a (finish phase reason now a)
unfolding finish
finish-Calm phase reason now a h = ground arith

send_cancel-Quiet :
    (m : Manager) (a : Allocation) (now : ℕ) (tx : Tx) → Quiet tx (send_cancel m a now tx)
unfolding send_cancel
send_cancel-Quiet m a now tx = Quiet-same tx _ refl refl (omega arith)

pub cancel_found-Quiet :
    (m : Manager) (reason : Reason) (now : ℕ) (a : Allocation) (tx : Tx)
    → lookup a.id tx.allocations ≡ some a
    → Quiet tx (cancel_found m reason now a tx)
unfolding cancel_found finish begin_cancel
cancel_found-Quiet m reason now a tx found =
    elim (Bool-cases (terminal a.state || a.state == Phase.cancelling)) [
      | inl over ↦ rw over (Quiet-refl tx)
      | inr live ↦ rw live (elim (Bool-cases (a.worker_id == "")) [
        | inl unplaced ↦
            rw unplaced (update_allocation-Quiet _ a tx found (λ b. refl) (ground arith))
        | inr placed ↦ rw placed (
            Quiet-trans
              (update_allocation-Quiet (begin_cancel reason) a tx found (λ b. refl) (ground arith))
              (send_cancel-Quiet m a now _))
      ])
    ]

-- What a loop or a method does at an allocation that it looks up.
pub on_allocation-Quiet :
    (aid : String) (f : Allocation → Tx → Tx) (tx : Tx)
    → KeyedAllocations tx.allocations
    → ((a : Allocation) → lookup a.id tx.allocations ≡ some a → Quiet tx (f a tx))
    → Quiet tx (on_allocation aid f tx)
on_allocation-Quiet aid f tx keyed h = elim (Option-cases (lookup aid tx.allocations)) [
  | inl e ↦ rw (e, on_allocation) (Quiet-refl tx)
  | inr (a, e) ↦ rw (e, on_allocation) (h a (lookup-id aid a _ keyed e))
]

pub cancel-Quiet :
    (m : Manager) (reason : Reason) (now : ℕ) (aid : String) (tx : Tx)
    → KeyedAllocations tx.allocations
    → Quiet tx (cancel m reason now aid tx)
unfolding cancel
cancel-Quiet m reason now aid tx keyed =
    on_allocation-Quiet aid (cancel_found m reason now) tx keyed
      (λ a. cancel_found-Quiet m reason now a tx)

assign-Calm :
    (m : Manager) (drawn now ttl : ℕ) (a : Allocation)
    → a.state ≡ Phase.prepared
    → Calm a (assign m drawn now ttl a)
unfolding assign
assign-Calm m drawn now ttl a e = ground arith

-- Seating a room changes no other room.
pub reserve-Quiet :
    (m : Manager) (users : List String) (now ttl : ℕ) (a : Allocation) (tx : Tx)
    → lookup a.id tx.allocations ≡ some a
    → Returns (Quiet tx) (reserve m users now ttl a tx)
unfolding reserve assign
reserve-Quiet m users now ttl a tx found = elim (Bool-cases (same_users a.user_ids users)) [
  | inr differ ↦ rw differ (Returns-err _ _)
  | inl same ↦ rw same (elim (Bool-cases (a.state == Phase.assigned || a.state == Phase.active)) [
    | inl seated ↦ rw seated (Returns-ok _ tx (Quiet-refl tx))
    | inr unseated ↦ rw unseated (elim (Bool-cases (a.state == Phase.prepared)) [
      | inr unready ↦ rw unready (Returns-err _ _)
      | inl prepared ↦ rw prepared (
          Returns-ok _ _ (
            Quiet-trans
              (update_allocation-Quiet _ a tx found (λ b. refl)
                (assign-Calm m tx.drawn now ttl a ((phase_eq_iff _ _).0 prepared)))
              (Quiet-same _ _ refl refl (omega arith))))
    ])
  ])
]

pub begin_drain-Quiet :
    (m : Manager) (now : ℕ) (w : Worker) (tx : Tx) → Quiet tx (begin_drain m now w tx)
unfolding begin_drain
begin_drain-Quiet m now w tx = elim (Bool-cases w.draining) [
  | inl already ↦ rw already (Quiet-refl tx)
  | inr fresh ↦ rw fresh (
      Quiet-trans
        (update_worker-Quiet w.id (start_draining now) tx
          (record { id_eq = λ v. refl; rooms_eq = λ v. refl }))
        (Quiet-same _ _ refl refl (omega arith)))
]

fail_room-Calm :
    (wid : String) (reason : Reason) (now : ℕ) (a : Allocation)
    → Calm a (fail_room wid reason now a)
unfolding fail_room finish
fail_room-Calm wid reason now a = ground arith

fail_room-id :
    (wid : String) (reason : Reason) (now : ℕ) (a : Allocation)
    → (fail_room wid reason now a).id ≡ a.id
unfolding fail_room finish
fail_room-id wid reason now a = ground arith

fail_rooms-Quiet :
    (wid : String) (reason : Reason) (now : ℕ) (tx : Tx) → Quiet tx (fail_rooms wid reason now tx)
unfolding fail_rooms
fail_rooms-Quiet wid reason now tx =
    Quiet-trans
      (map_allocations-Quiet (fail_room wid reason now) tx (fail_room-id wid reason now)
        (fail_room-Calm wid reason now))
      (Quiet-same _ _ refl refl (omega arith))

gone-Quiet :
    (wid : String) (phase : WorkerState) (e : WorkerError) (now : ℕ) (tx : Tx)
    → Quiet tx (update_worker wid (gone phase e now) tx)
gone-Quiet wid phase e now tx =
    update_worker-Quiet wid _ tx (record { id_eq = λ v. refl; rooms_eq = λ v. refl })

pub stopped-Quiet : (now : ℕ) (w : Worker) (tx : Tx) → Quiet tx (stopped now w tx)
unfolding stopped
stopped-Quiet now w tx =
    Quiet-trans (gone-Quiet w.id WorkerState.stopped WorkerError.empty now tx)
      (fail_rooms-Quiet w.id Reason.server_stopped now _)

pub lost-Quiet : (e : WorkerError) (now : ℕ) (w : Worker) (tx : Tx) → Quiet tx (lost e now w tx)
unfolding lost
lost-Quiet e now w tx =
    Quiet-trans (gone-Quiet w.id WorkerState.lost e now tx)
      (fail_rooms-Quiet w.id Reason.server_lost now _)

-- What a loop or a method does at a worker that it looks up.
pub on_worker-Quiet :
    (wid : String) (f : Worker → Tx → Tx) (tx : Tx)
    → ((w : Worker) → Quiet tx (f w tx))
    → Quiet tx (on_worker wid f tx)
on_worker-Quiet wid f tx h = elim (Option-cases (lookup wid tx.workers)) [
  | inl e ↦ rw (e, on_worker) (Quiet-refl tx)
  | inr (w, e) ↦ rw (e, on_worker) (h w)
]

pub if-Quiet : (b : Bool) (s t u : Tx) → Quiet s t → Quiet s u → Quiet s (if b then t else u)
if-Quiet true s t u p q = p
if-Quiet false s t u p q = q
