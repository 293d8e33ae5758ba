-- ===== src/Lifecycle/Reconcile.antt =====
-- reconcileUnknown of pkg/fleetmanager/lifecycle.go: a create whose outcome is not known is looked
-- up, and reissued under the same name unless several instances answer.
use nakama_agones.Prelude.{
  ℕ, ◌+◌, String, Bool, not, ◌&&◌, ◌||◌, none, some, List, [], ◌∷◌, ◌==◌, text_Eq, number_Eq, leb,
  length, if◌then◌else◌, Result, ok,
}
use nakama_agones.Prelude.Table.{lookup}
use nakama_agones.State.{Worker}
use nakama_agones.State.Phases.{WorkerState, worker_state_Eq, WorkerError, Blocked}
use nakama_agones.Provider.{ApiError, Outcome, Instance}
use nakama_agones.Manager.{Manager, Tx, update_worker, on_worker}
use nakama_agones.Lifecycle.Instances.{block_creation, provider_lifetime, owned, launched}

unfoldable pub matches_of : Manager → Worker → List Instance → List Instance
matches_of m w [] = []
matches_of m w (i ∷ is) = let rest = matches_of m w is in if owned m w i then i ∷ rest else rest

-- whether Start is called again after List has answered
unfoldable pub reissues : List Instance → Bool
reissues found = leb (length found) 1

-- `matches` or `err` after the calls: `listed` is the answer of List, and `reissued` that of Start,
-- which counts only if `reissues` holds
unfoldable pub gather :
    Manager → Worker → Outcome (List Instance) → Outcome Instance → Outcome (List Instance)
gather m w (Outcome.api_error e) reissued = Outcome.api_error e
gather m w Outcome.other_error reissued = Outcome.other_error
gather m w (Outcome.done listed) reissued =
    if reissues (matches_of m w listed)
    then elim reissued [
      | Outcome.done i ↦ Outcome.done (i ∷ [])
      | Outcome.api_error e ↦ Outcome.api_error e
      | Outcome.other_error ↦ Outcome.other_error
    ]
    else Outcome.done (matches_of m w listed)

-- the errors of List or Start that stop further creation
unfoldable pub reconcile_misconfigured : ApiError → Bool
reconcile_misconfigured e =
    not e.outcome_unknown
    && (e.status_code == 400
        || e.status_code == 401
        || e.status_code == 403
        || e.status_code == 409
        || e.status_code == 422)

abbrev pub still_unknown : Worker → Worker
still_unknown v = record v { error = WorkerError.create_still_unknown }

abbrev pub adopted : ℕ → Instance → Worker → Worker
adopted now i v = record (launched now i v) { error = WorkerError.empty }

unfoldable pub reconcile_answer : Manager → ℕ → Outcome (List Instance) → String → Tx → Tx
unfolding reconcile_misconfigured
reconcile_answer m now (Outcome.api_error e) wid tx =
    let unknown = update_worker wid still_unknown tx in
    if reconcile_misconfigured e
    then block_creation Blocked.provider_configuration_requires_review unknown
    else unknown
reconcile_answer m now Outcome.other_error wid tx = update_worker wid still_unknown tx
reconcile_answer m now (Outcome.done []) wid tx = tx
reconcile_answer m now (Outcome.done (i ∷ [])) wid tx =
    on_worker wid (provider_lifetime m now i) (update_worker wid (adopted now i) tx)
reconcile_answer m now (Outcome.done (i ∷ j ∷ is)) wid tx =
    update_worker wid
      (λ v. record v { error = WorkerError.multiple_instances_require_operator_review }) tx

-- the transaction
unfoldable pub reconcile_update : Manager → ℕ → Outcome (List Instance) → String → Tx → Result Tx
unfolding reconcile_answer
reconcile_update m now answer wid tx =
    if not (tx.leader == m.owner) then ok tx else elim (lookup wid tx.workers) [
      | none ↦ ok tx
      | some current ↦
          if not (current.state == WorkerState.unknown)
          then ok tx
          else ok (
              reconcile_answer m now answer wid (
                update_worker wid
                  (λ v. record v { next_check_at = now + m.cfg.provider_poll_seconds }) tx))
    ]
