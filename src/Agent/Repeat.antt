-- ===== src/Agent/Repeat.antt =====
-- A report that arrives twice (heartbeatHTTP of pkg/fleetmanager/http.go).
use mathlib.Core.Path.{subst}
use native.Mathlib.Nat.{le_refl}
use nakama_agones.Prelude.{
  ℕ, ◌≤◌, ◌≡◌, sym, ap, ◌∙◌, false, some, arith, text_Eq, number_Eq, eq_iff, ltb, if◌then◌else◌,
  Bool-cases, inl, inr, ok, for_each_inv, try_each_inv, Returns, Returns-ok, Returns-seq,
  Returns-refuse_if, Returns-or_fail,
}
use nakama_agones.Prelude.Table.{lookup}
use nakama_agones.Prelude.Table.Laws.{lookup-modify}
use nakama_agones.State.{Worker}
use nakama_agones.State.Phases.{phase_Eq, worker_state_Eq}
use nakama_agones.Manager.{Manager, Tx, update_worker}
use nakama_agones.Agent.{apply_report, heartbeat}
use nakama_agones.Agent.Reports.{HeartbeatRequest, record_report}
use nakama_agones.Agent.Results.{apply_result}
use nakama_agones.Agent.Rooms.{report_rooms}
use nakama_agones.Agent.Heard.{Heard, write-Heard, apply_result-Heard, report_rooms-Heard}

apply_report-Heard :
    (m : Manager) (input : HeartbeatRequest) (now : ℕ) (w : Worker) (tx : Tx)
    → lookup w.id tx.workers ≡ some w
    → Returns (Heard w.id input.sequence) (apply_report m input now w tx)
unfolding apply_report record_report
apply_report-Heard m input now w tx found = Returns-seq _ _ _ λ u checked.
    let P = Heard w.id input.sequence in
    let recorded = update_worker w.id (record_report input now) tx in
    let h : P recorded = record {
      worker = record_report input now w;
      stored =
          lookup-modify w.id w.id (record_report input now) tx.workers
          ∙ rw found (ground (arith, eq_iff w.id w.id));
      reached = le_refl _;
    } in
    Returns-seq _ _ _ λ acknowledged_ e.
      let g : P acknowledged_ =
        (try_each_inv P (apply_result m now w.id) (apply_result-Heard m now w.id)
            input.command_results recorded h).at
          acknowledged_ e in
      Returns-ok _ _ (
        for_each_inv P (report_rooms m now w.id) (report_rooms-Heard m now w.id) input.rooms _
          (write-Heard w.id (λ v. record v { player_count = 0 }) acknowledged_ (λ v. le_refl _) g))

-- a report whose number is not above the last one
heartbeat-replayed :
    (m : Manager) (input : HeartbeatRequest) (now : ℕ) (w : Worker) (tx : Tx)
    → lookup input.worker_id tx.workers ≡ some w
    → input.sequence ≤ w.last_sequence
    → Returns (λ r. r.1 ≡ tx) (heartbeat m input now tx)
unfolding heartbeat
heartbeat-replayed m input now w tx found old = Returns-or_fail _ _ _ _ λ v e.
    Returns-refuse_if _ _ _ _ λ small. Returns-refuse_if _ _ _ _ λ same.
      Returns-seq _ _ _ λ s reported.
        Returns-or_fail _ _ _ _
          λ u there. Returns-ok _ _ (unchanged v (some_inj v w (sym e ∙ found)) s reported)
  where
    some_inj : (v u : Worker) → some v ≡ some u → v ≡ u
    some_inj v u e = cc

    unchanged :
        (v : Worker)
        → v ≡ w
        → (s : Tx)
        → (if ltb v.last_sequence input.sequence then apply_report m input now v tx else ok tx)
          ≡ ok s
        → s ≡ tx
    unchanged v same s e =
        let stale : ltb v.last_sequence input.sequence ≡ false =
          ground (arith, old, ap (λ u. u.last_sequence) same) in
        let kept : ok tx ≡ ok s = rw stale at e in cc

-- In a state whose worker stands under its identifier, the transaction of a report that was answered
-- and arrives again changes nothing, at whatever time: if it is answered once more, the state is the
-- one that the first answer left. (Only the store counts its revision up, as for every commit.)
pub heartbeat-repeated :
    (m : Manager) (input : HeartbeatRequest) (now later : ℕ) (w : Worker) (tx : Tx)
    → lookup input.worker_id tx.workers ≡ some w
    → w.id ≡ input.worker_id
    → Returns
        (λ r. Returns (λ again. again.1 ≡ r.1) (heartbeat m input later r.1))
        (heartbeat m input now tx)
unfolding heartbeat
heartbeat-repeated m input now later w tx found keyed = Returns-or_fail _ _ _ _ λ v e.
    Returns-refuse_if _ _ _ _ λ small. Returns-refuse_if _ _ _ _ λ same.
      Returns-seq _ _ _ λ t reported. Returns-or_fail _ _ _ _ λ u there. Returns-ok _ _ (
        let h = heard v (some_inj v w (sym e ∙ found)) t reported in
        heartbeat-replayed m input later h.worker t h.stored h.reached)
  where
    some_inj : (v u : Worker) → some v ≡ some u → v ≡ u
    some_inj v u e = cc

    ok_inj : (a b : Tx) → ok a ≡ ok b → a ≡ b
    ok_inj a b e = cc

    heard :
        (v : Worker)
        → v ≡ w
        → (t : Tx)
        → (if ltb v.last_sequence input.sequence then apply_report m input now v tx else ok tx)
          ≡ ok t
        → Heard input.worker_id input.sequence t
    heard v same t e =
        let stored : lookup v.id tx.workers ≡ some v =
          subst (λ x. lookup x.id tx.workers ≡ some x) (sym same)
            (subst (λ k. lookup k tx.workers ≡ some w) (sym keyed) found) in
        let named : v.id ≡ input.worker_id = ap (λ x. x.id) same ∙ keyed in
        elim (Bool-cases (ltb v.last_sequence input.sequence)) [
          | inl new_ ↦
              let applied : apply_report m input now v tx ≡ ok t = rw new_ at e in
              subst (λ k. Heard k input.sequence t) named
                ((apply_report-Heard m input now v tx stored).at t applied)
          | inr stale ↦
              let kept : ok tx ≡ ok t = rw stale at e in
              let unchanged : tx ≡ t = ok_inj tx t kept in
              subst (Heard input.worker_id input.sequence) unchanged (record {
                worker = w;
                stored = found;
                reached = ground (arith, stale, ap (λ x. x.last_sequence) same);
              })
        ]
