-- ===== src/Agent/Heard.antt =====
-- What the transaction of heartbeatHTTP leaves of the number of the last report
-- (pkg/fleetmanager/http.go).

use native.Mathlib.Nat.{le_refl}
use nakama_agones.Prelude.{
  ℕ, ◌≤◌, ◌≡◌, refl, ap, ◌∙◌, String, not, ◌&&◌, ◌||◌, some, arith, ◌==◌, text_Eq, number_Eq, leb,
  length, Bool-cases, Option-cases, inl, inr, for_each_inv, Returns, Returns-ok, Returns-err,
  Returns-refuse_if, Returns-or_fail,
}
use nakama_agones.Prelude.Table.{lookup, keys}
use nakama_agones.Prelude.Table.Laws.{lookup-modify}
use nakama_agones.State.{Worker, Allocation, Command}
use nakama_agones.State.Phases.{
  Phase, phase_Eq, Reason, terminal, is_prepare_room, is_cancel_room, worker_state_Eq,
}
use nakama_agones.Manager.{Manager, Tx, on_allocation, update_worker}
use nakama_agones.Manager.Users.{same_users}
use nakama_agones.Manager.Admission.{eligible}
use nakama_agones.Manager.Allocations.{cancel, cancel_found, send_cancel, reserve}
use nakama_agones.Agent.Reports.{RoomReport, CommandResult}
use nakama_agones.Agent.Results.{
  room_prepared, prepare_done, room_cancelled, acknowledged, drain_acknowledged, succeeded, failed,
  apply_result,
}
use nakama_agones.Agent.Rooms.{seated, add_players, report_room, report_rooms}

-- the worker has been heard of with a report of this number or a later one
pub record Heard (wid : String) (n : ℕ) (tx : Tx) : Type 0 where
  pub worker : Worker
  pub stored : lookup wid tx.workers ≡ some worker
  pub reached : n ≤ worker.last_sequence

module _ {wid : String} {n : ℕ} where
  apart : (tx t : Tx) → t.workers ≡ tx.workers → Heard wid n tx → Heard wid n t
  apart tx t e h = record {
    worker = h.worker;
    stored = ap (lookup wid) e ∙ h.stored;
    reached = h.reached;
  }

  pub write-Heard :
      (k : String) (f : Worker → Worker) (tx : Tx)
      → ((v : Worker) → v.last_sequence ≤ (f v).last_sequence)
      → Heard wid n tx
      → Heard wid n (update_worker k f tx)
  write-Heard k f tx keep h = elim (Bool-cases (k == wid)) [
    | inl same ↦ record {
      worker = f h.worker;
      stored = lookup-modify k wid f tx.workers ∙ rw (same, h.stored) refl;
      reached = omega (arith, h.reached, keep h.worker);
    }
    | inr other ↦ record {
      worker = h.worker;
      stored = lookup-modify k wid f tx.workers ∙ rw other h.stored;
      reached = h.reached;
    }
  ]

  on_allocation-Heard :
      (aid : String) (f : Allocation → Tx → Tx) (tx : Tx)
      → ((a : Allocation) → Heard wid n (f a tx))
      → Heard wid n tx
      → Heard wid n (on_allocation aid f tx)
  on_allocation-Heard aid f tx h k = elim (Option-cases (lookup aid tx.allocations)) [
    | inl e ↦ rw (e, on_allocation) k
    | inr (a, e) ↦ rw (e, on_allocation) (h a)
  ]

  module _ (m : Manager) (now : ℕ) where
    cancel_found-Heard :
        (reason : Reason) (a : Allocation) (tx : Tx)
        → Heard wid n tx
        → Heard wid n (cancel_found m reason now a tx)
    unfolding cancel_found send_cancel
    cancel_found-Heard reason a tx h =
        elim (Bool-cases (terminal a.state || a.state == Phase.cancelling)) [
          | inl over ↦ rw over h
          | inr open_ ↦ elim (Bool-cases (a.worker_id == "")) [
            | inl early ↦ rw (open_, early) (apart tx _ refl h)
            | inr placed ↦ rw (open_, placed) (apart tx _ refl h)
          ]
        ]

    cancel-Heard :
        (reason : Reason) (aid : String) (tx : Tx)
        → Heard wid n tx
        → Heard wid n (cancel m reason now aid tx)
    unfolding cancel
    cancel-Heard reason aid tx h =
        on_allocation-Heard aid (cancel_found m reason now) tx
          (λ a. cancel_found-Heard reason a tx h) h

    reserve-Heard :
        (users : _) (ttl : ℕ) (a : Allocation) (tx : Tx)
        → Heard wid n tx
        → Returns (Heard wid n) (reserve m users now ttl a tx)
    unfolding reserve
    reserve-Heard users ttl a tx h = elim (Bool-cases (not (same_users a.user_ids users))) [
      | inl others ↦ rw others (Returns-err _ _)
      | inr same ↦ elim (Bool-cases (a.state == Phase.assigned || a.state == Phase.active)) [
        | inl seated_ ↦ rw (same, seated_) (Returns-ok _ tx h)
        | inr unseated ↦ elim (Bool-cases (not (a.state == Phase.prepared))) [
          | inl early ↦ rw (same, unseated, early) (Returns-err _ _)
          | inr ready ↦ rw (same, unseated, ready) (Returns-ok _ _ (apart tx _ refl h))
        ]
      ]
    ]

    prepared-Heard :
        (c : Command) (w : Worker) (a : Allocation) (tx : Tx)
        → Heard wid n tx
        → Returns (Heard wid n) (room_prepared m now c w a tx)
    unfolding room_prepared prepare_done
    prepared-Heard c w a tx h = elim (Bool-cases (leb c.expires_at now || w.draining)) [
      | inl late ↦ rw late (Returns-ok _ _ (cancel-Heard Reason.prepare_expired a.id tx h))
      | inr timely ↦ elim (Bool-cases (eligible m now w)) [
        | inl fit ↦ rw (timely, fit) (reserve-Heard _ _ _ _ (apart tx _ refl h))
        | inr unfit ↦ rw (timely, unfit) (Returns-ok _ _ (apart tx _ refl h))
      ]
    ]

    acknowledged-Heard :
        (k : String) (c : Command) (a : Allocation) (tx : Tx)
        → Heard wid n tx
        → Returns (Heard wid n) (acknowledged m now k c a tx)
    unfolding acknowledged room_cancelled
    acknowledged-Heard k c a tx h =
        elim (Bool-cases (is_prepare_room c.type && a.state == Phase.preparing)) [
          | inl prepares ↦ rw prepares (Returns-or_fail _ _ _ _ λ w e. prepared-Heard c w a tx h)
          | inr other ↦ elim (Bool-cases (is_cancel_room c.type && a.state == Phase.cancelling)) [
            | inl cancels ↦ rw (other, cancels) (Returns-ok _ _ (apart tx _ refl h))
            | inr neither ↦ rw (other, neither) (Returns-ok _ tx h)
          ]
        ]

    succeeded-Heard :
        (k : String) (c : Command) (tx : Tx)
        → Heard wid n tx
        → Returns (Heard wid n) (succeeded m now k c tx)
    unfolding succeeded
    succeeded-Heard k c tx h =
        let noted = update_worker k (drain_acknowledged c) tx in
        let g : Heard wid n noted = write-Heard k (drain_acknowledged c) tx (λ v. ground arith) h in
        elim (Option-cases (lookup c.allocation_id tx.allocations)) [
          | inl e ↦ rw (e, succeeded) (Returns-ok _ noted g)
          | inr (a, e) ↦
              rw (e, succeeded)
                (elim (Bool-cases (a.epoch == c.epoch)) [
                  | inl current ↦ rw current (acknowledged-Heard k c a noted g)
                  | inr past ↦ rw past (Returns-ok _ noted g)
                ])
        ]

    failed-Heard : (c : Command) (tx : Tx) → Heard wid n tx → Heard wid n (failed m now c tx)
    unfolding failed
    failed-Heard c tx h = elim (Bool-cases (is_prepare_room c.type)) [
      | inr other ↦ rw other (apart tx _ refl h)
      | inl prepares ↦ rw prepares (elim (Option-cases (lookup c.allocation_id tx.allocations)) [
        | inl e ↦ rw (e, failed) h
        | inr (a, e) ↦
            rw (e, failed)
              (elim (Bool-cases (a.state == Phase.preparing)) [
                | inl waits ↦ rw waits (cancel-Heard Reason.room_prepare_failed a.id tx h)
                | inr past ↦ rw past h
              ])
      ])
    ]

    pub apply_result-Heard :
        (k : String) (result : CommandResult) (tx : Tx)
        → Heard wid n tx
        → Returns (Heard wid n) (apply_result m now k result tx)
    unfolding apply_result
    apply_result-Heard k result tx h = Returns-or_fail _ _ _ _ λ c e.
        Returns-refuse_if _ _ _ _ λ own. elim (Bool-cases c.done) [
          | inl over ↦ rw over (Returns-ok _ tx h)
          | inr open_ ↦ elim (Bool-cases result.success) [
            | inl good ↦ rw (open_, good) (succeeded-Heard k c _ (apart tx _ refl h))
            | inr bad ↦ rw (open_, bad) (Returns-ok _ _ (failed-Heard c _ (apart tx _ refl h)))
          ]
        ]

    report_room-Heard :
        (k : String) (room : RoomReport) (a : Allocation) (tx : Tx)
        → Heard wid n tx
        → Heard wid n (report_room m now k room a tx)
    unfolding report_room
    report_room-Heard k room a tx h =
        elim (Bool-cases
          (not (a.room_id == room.room_id) || not (a.worker_id == k) || terminal a.state)) [
            | inl other ↦ rw other h
            | inr own ↦ elim (Bool-cases (room.state == "closed")) [
              | inl closed ↦ elim (Bool-cases (seated a)) [
                | inl yes_ ↦ rw (own, closed, yes_) (apart tx _ refl h)
                | inr no_ ↦ rw (own, closed, no_) h
              ]
              | inr open_ ↦ elim (Bool-cases (seated a)) [
                | inl yes_ ↦
                    rw (own, open_, yes_)
                      (write-Heard k (add_players (length room.user_ids)) _ (λ v. le_refl _)
                        (apart tx _ refl h))
                | inr no_ ↦
                    rw (own, open_, no_)
                      (write-Heard k (add_players (length room.user_ids)) tx (λ v. le_refl _) h)
              ]
            ]
          ]

    pub report_rooms-Heard :
        (k : String) (room : RoomReport) (tx : Tx)
        → Heard wid n tx
        → Heard wid n (report_rooms m now k room tx)
    unfolding report_rooms
    report_rooms-Heard k room tx h =
        for_each_inv (Heard wid n) (λ aid. on_allocation aid (report_room m now k room))
          (λ aid t g.
            on_allocation-Heard aid (report_room m now k room) t
              (λ a. report_room-Heard k room a t g) g)
          (keys tx.allocations) tx h
