-- ===== src/Safety/Serving.antt =====
-- The transactions of the agents are quiet: bootstrap and heartbeat (pkg/fleetmanager/http.go).
use native.Mathlib.Nat.{le_refl}
use nakama_agones.Prelude.{
  ℕ, ◌≡◌, refl, String, true, not, ◌&&◌, ◌||◌, some, ◌==◌, text_Eq, number_Eq, eq_iff, leb,
  for_each_inv, try_each_inv, if◌then◌else◌, Bool-cases, Option-cases, inl, inr, Returns,
  Returns-ok, Returns-seq, Returns-refuse_if, Returns-or_fail, Returns-if, Returns-elim, Result,
  arith, length,
}
use nakama_agones.Prelude.Table.{Table, lookup, modify}
use nakama_agones.Prelude.Table.Laws.{lookup-modify}
use nakama_agones.State.{Worker, Allocation, Command}
use nakama_agones.State.Phases.{
  Phase, phase_Eq, phase_eq_iff, Reason, terminal, is_prepare_room, is_cancel_room,
}
use nakama_agones.Manager.{
  Manager, Tx, update_worker, update_allocation, with_commands, advance, put_command,
}
use nakama_agones.Manager.Admission.{eligible}
use nakama_agones.Manager.Allocations.{finish}
use nakama_agones.Agent.{BootstrapRequest, booted, bootstrap, apply_report, heartbeat}
use nakama_agones.Agent.Reports.{HeartbeatRequest, RoomReport, CommandResult, record_report}
use nakama_agones.Agent.Results.{
  prepare_done, room_prepared, room_cancelled, acknowledged, drain_acknowledged, succeeded, failed,
  apply_result, retry,
}
use nakama_agones.Agent.Rooms.{report_players, seated, add_players, report_room, report_rooms}
use nakama_agones.Safety.Effects.{
  KeyedAllocations, Quiet, Quiet-refl, Quiet-trans, Quiet-same, Calm, update_allocation-Quiet,
}
use nakama_agones.Safety.Operations.{
  lookup-id, cancel-Quiet, reserve-Quiet, on_allocation-Quiet, if-Quiet,
}
use nakama_agones.Safety.Sweeping.{for_each-Quiet}
use nakama_agones.Safety.Hosting.{write-Quiet}

pub bootstrap-Quiet :
    (m : Manager) (input : BootstrapRequest) (now : ℕ) (tx : Tx)
    → Returns (Quiet tx) (bootstrap m input now tx)
unfolding bootstrap
bootstrap-Quiet m input now tx = Returns-or_fail _ _ _ _ λ w e. Returns-refuse_if _ _ _ _ λ live.
    Returns-refuse_if _ _ _ _ λ timely. Returns-refuse_if _ _ _ _ λ same.
      Returns-ok _ _ (write-Quiet input.worker_id (booted input.boot_id) tx (λ v. refl) (λ v. refl))

Returns-trans : {s t : Tx} {r : Result Tx} → Quiet s t → Returns (Quiet t) r → Returns (Quiet s) r
Returns-trans p q = record { at = λ u e. Quiet-trans p (q.at u e) }

commands-Quiet : (cs : Table Command) (tx : Tx) → Quiet tx (with_commands cs tx)
commands-Quiet cs tx = Quiet-same tx _ refl refl (le_refl _)

put_command-Quiet : (c : Command) (tx : Tx) → Quiet tx (advance (put_command c tx))
put_command-Quiet c tx = Quiet-same tx _ refl refl (omega arith)

room_cancelled-Quiet :
    (now : ℕ) (a : Allocation) (tx : Tx)
    → lookup a.id tx.allocations ≡ some a
    → Quiet tx (room_cancelled now a tx)
unfolding room_cancelled finish
room_cancelled-Quiet now a tx found =
    update_allocation-Quiet _ a tx found (λ b. refl) (ground arith)

module _ (m : Manager) (now : ℕ) (wid : String) where
  room_prepared-Quiet :
      (c : Command) (w : Worker) (a : Allocation) (tx : Tx)
      → KeyedAllocations tx.allocations
      → lookup a.id tx.allocations ≡ some a
      → a.state ≡ Phase.preparing
      → Returns (Quiet tx) (room_prepared m now c w a tx)
  unfolding room_prepared prepare_done
  room_prepared-Quiet c w a tx keyed found preparing =
      elim (Bool-cases (leb c.expires_at now || w.draining)) [
        | inl late ↦
            rw late (Returns-ok _ _ (cancel-Quiet m Reason.prepare_expired now a.id tx keyed))
        | inr timely ↦ rw timely (elim (Bool-cases (eligible m now w)) [
          | inr unfit ↦ rw unfit (Returns-ok _ _ prepared)
          | inl fit ↦
              rw fit (
                Returns-trans prepared (reserve-Quiet m a.user_ids now _ (prepare_done a) _ stored))
        ])
      ]
    where
      prepared : Quiet tx (update_allocation a.id prepare_done tx)
      prepared = update_allocation-Quiet prepare_done a tx found (λ b. refl) (ground arith)

      stored : lookup a.id (modify a.id prepare_done tx.allocations) ≡ some (prepare_done a)
      stored =
          rw (lookup-modify a.id a.id prepare_done tx.allocations, found)
            (ground (arith, eq_iff a.id a.id))

  acknowledged-Quiet :
      (c : Command) (a : Allocation) (tx : Tx)
      → KeyedAllocations tx.allocations
      → lookup a.id tx.allocations ≡ some a
      → Returns (Quiet tx) (acknowledged m now wid c a tx)
  unfolding acknowledged
  acknowledged-Quiet c a tx keyed found =
      elim (Bool-cases (is_prepare_room c.type && a.state == Phase.preparing)) [
        | inl e ↦ rw e (
            Returns-or_fail _ (lookup wid tx.workers) _ _
              (λ w h. room_prepared-Quiet c w a tx keyed found (preparing e)))
        | inr e ↦ rw e (elim (Bool-cases (is_cancel_room c.type && a.state == Phase.cancelling)) [
          | inl h ↦ rw h (Returns-ok _ _ (room_cancelled-Quiet now a tx found))
          | inr h ↦ rw h (Returns-ok _ _ (Quiet-refl tx))
        ])
      ]
    where
      preparing :
          (is_prepare_room c.type && a.state == Phase.preparing) ≡ true → a.state ≡ Phase.preparing
      preparing e = (phase_eq_iff a.state Phase.preparing).0 (ground arith)

  noted-Quiet : (c : Command) (tx : Tx) → Quiet tx (update_worker wid (drain_acknowledged c) tx)
  noted-Quiet c tx = write-Quiet wid _ tx (λ v. ground arith) (λ v. ground arith)

  succeeded-Quiet :
      (c : Command) (tx : Tx)
      → KeyedAllocations tx.allocations
      → Returns (Quiet tx) (succeeded m now wid c tx)
  unfolding succeeded
  succeeded-Quiet c tx keyed =
      Returns-elim _ (lookup c.allocation_id tx.allocations) _ _
        (λ e. Returns-ok _ _ (noted-Quiet c tx))
        (λ a e.
          Returns-if _ _ _ _
            (λ h.
              Returns-trans (noted-Quiet c tx)
                (acknowledged-Quiet c a _ keyed (lookup-id c.allocation_id a _ keyed e)))
            (λ h. Returns-ok _ _ (noted-Quiet c tx)))

  failed-Quiet :
      (c : Command) (tx : Tx) → KeyedAllocations tx.allocations → Quiet tx (failed m now c tx)
  unfolding failed
  failed-Quiet c tx keyed = elim (Bool-cases (is_prepare_room c.type)) [
    | inr e ↦ rw e (put_command-Quiet (retry m now c tx) tx)
    | inl e ↦ rw e (elim (Option-cases (lookup c.allocation_id tx.allocations)) [
      | inl h ↦ rw h (Quiet-refl tx)
      | inr (a, h) ↦ rw h (
          if-Quiet (a.state == Phase.preparing) tx _ _
            (cancel-Quiet m Reason.room_prepare_failed now a.id tx keyed) (Quiet-refl tx))
    ])
  ]

  apply_result-Quiet :
      (result : CommandResult) (tx : Tx)
      → KeyedAllocations tx.allocations
      → Returns (Quiet tx) (apply_result m now wid result tx)
  unfolding apply_result
  apply_result-Quiet result tx keyed = Returns-or_fail _ _ _ _ λ c e.
      Returns-refuse_if _ _ _ _ λ own. elim (Bool-cases c.done) [
        | inl done ↦ rw done (Returns-ok _ _ (Quiet-refl tx))
        | inr new ↦ rw new (elim (Bool-cases result.success) [
          | inl won ↦ rw won (Returns-trans (commands-Quiet _ tx) (succeeded-Quiet c _ keyed))
          | inr lost ↦
              rw lost (Returns-ok _ _ (Quiet-trans (commands-Quiet _ tx) (failed-Quiet c _ keyed)))
        ])
      ]

  report_room-Quiet :
      (room : RoomReport) (a : Allocation) (tx : Tx)
      → lookup a.id tx.allocations ≡ some a
      → Quiet tx (report_room m now wid room a tx)
  unfolding report_room finish report_players
  report_room-Quiet room a tx found =
      if-Quiet (not (a.room_id == room.room_id) || not (a.worker_id == wid) || terminal a.state) tx
        _ _ (Quiet-refl tx)
        (if-Quiet (room.state == "closed") tx _ _
          (if-Quiet (seated a) tx _ _
            (update_allocation-Quiet (finish Phase.completed Reason.empty now) a tx found
              (λ b. refl) (ground arith))
            (Quiet-refl tx))
          (Quiet-trans reported
            (write-Quiet wid (add_players (length room.user_ids)) _ (λ v. refl) (λ v. refl))))
    where
      calm : seated a ≡ true → Calm a (report_players m now room a)
      calm s = ground arith

      reported :
          Quiet tx (if seated a then update_allocation a.id (report_players m now room) tx else tx)
      reported = elim (Bool-cases (seated a)) [
        | inl s ↦ rw s (
            update_allocation-Quiet (report_players m now room) a tx found (λ b. ground arith)
              (calm s))
        | inr s ↦ rw s (Quiet-refl tx)
      ]

  report_rooms-Quiet :
      (room : RoomReport) (tx : Tx)
      → KeyedAllocations tx.allocations
      → Quiet tx (report_rooms m now wid room tx)
  unfolding report_rooms
  report_rooms-Quiet room tx keyed =
      for_each-Quiet _
        (λ aid s k.
          on_allocation-Quiet aid (report_room m now wid room) s k
            (λ a. report_room-Quiet room a s))
        _ tx keyed

pub apply_report-Quiet :
    (m : Manager) (input : HeartbeatRequest) (now : ℕ) (w : Worker) (tx : Tx)
    → KeyedAllocations tx.allocations
    → Returns (Quiet tx) (apply_report m input now w tx)
unfolding apply_report record_report
apply_report-Quiet m input now w tx keyed = Returns-seq _ _ _ λ u e. Returns-seq _ _ _ λ s acked.
    Returns-ok _ _ (
      let q : Quiet tx s =
        (try_each_inv (Quiet tx) (apply_result m now w.id)
            (λ r t p.
              Returns-trans p (apply_result-Quiet m now w.id r t (p.allocations_keyed keyed)))
            input.command_results _ recorded).at
          s acked in
      Quiet-trans q (
        Quiet-trans (write-Quiet w.id _ s (λ v. refl) (λ v. refl)) (
          for_each_inv (Quiet (update_worker w.id (λ v. record v { player_count = 0 }) s)) _
            (λ room t p. Quiet-trans p (
              report_rooms-Quiet m now w.id room t
                (p.allocations_keyed (q.allocations_keyed keyed))))
            input.rooms _ (Quiet-refl _))))
  where
    recorded : Quiet tx (update_worker w.id (record_report input now) tx)
    recorded = write-Quiet w.id _ tx (λ v. refl) (λ v. refl)

-- The state after a heartbeat; its answer is left out.
pub heartbeat-Quiet :
    (m : Manager) (input : HeartbeatRequest) (now : ℕ) (tx : Tx)
    → KeyedAllocations tx.allocations
    → Returns (λ r. Quiet tx r.1) (heartbeat m input now tx)
unfolding heartbeat
heartbeat-Quiet m input now tx keyed = Returns-or_fail _ _ _ _ λ w e.
    Returns-refuse_if _ _ _ _ λ small. Returns-refuse_if _ _ _ _ λ same.
      Returns-seq _ _ _ λ s reported. Returns-or_fail _ _ _ _ λ v found. Returns-ok _ _ (
        (Returns-if (Quiet tx) _ _ _ (λ h. apply_report-Quiet m input now w tx keyed)
            (λ h. Returns-ok _ tx (Quiet-refl tx))).at
          s reported)
