-- ===== src/Lifecycle/Instances.antt =====
-- providerLifetime, endpoint, owned, start and reconcileUnknown of pkg/fleetmanager/lifecycle.go:
-- what the answers of the provider do to the state. Each transaction takes the provider's answer.
use nakama_agones.Prelude.{
  ℕ, ◌+◌, String, Bool, false, not, ◌&&◌, ◌||◌, Option, none, some, List, [], ◌∷◌, ◌==◌, text_Eq,
  number_Eq, ltb, leb, if◌then◌else◌, Result, ok, Error, ◌>>=◌, ◌>>◌, refuse_if, or_fail,
}
use nakama_agones.Prelude.Table.{lookup}
use nakama_agones.State.{Worker}
use nakama_agones.State.Phases.{WorkerState, worker_state_Eq, WorkerError, Blocked}
use nakama_agones.Provider.{Outcome, Instance, Port, is_outcome_unknown, has_text}
use nakama_agones.Manager.{Manager, Tx, update_worker, on_worker}
use nakama_agones.Lifecycle.Lease.{check_lease}

abbrev pub block_creation : Blocked → Tx → Tx
block_creation b tx = record tx { state = record tx.state { creation_blocked_reason = b } }

abbrev pub delay_creation : ℕ → Tx → Tx
delay_creation t tx = record tx { state = record tx.state { next_create_at = t } }

abbrev pub is_booting : WorkerState → Bool
is_booting state = state == WorkerState.launching || state == WorkerState.bootstrapping

-- time.Parse of StartedAt, with CreatedAt where it fails
unfoldable pub started : Manager → Worker → Instance → ℕ
started m w i = elim (m.runtime.parse_time i.started_at) [ none ↦ w.created_at | some t ↦ t ]

unfoldable pub provider_lifetime : Manager → ℕ → Instance → Worker → Tx → Tx
unfolding started
provider_lifetime m now i w tx =
    let expires = started m w i + i.ttl in
    if i.ttl == 0
    then tx
    else if leb i.ttl (m.cfg.min_lifetime_for_admission + m.cfg.launch_timeout)
    then block_creation Blocked.provider_lifetime_too_short (
        update_worker w.id
          (λ v.
            if is_booting v.state
            then record v {
              provider_expires_at = expires;
              state = WorkerState.stopping;
              next_check_at = now;
            }
            else record v { provider_expires_at = expires })
          tx)
    else update_worker w.id (λ v. record v { provider_expires_at = expires }) tx

-- the first port of the configured name, if it is a valid UDP endpoint
unfoldable pub endpoint : Manager → List Port → Option (String × ℕ)
endpoint m [] = none
endpoint m (p ∷ ps) =
    let rest = endpoint m ps in
    if p.name == m.cfg.port_name
    then (if not (p.protocol == "udp")
          || p.host == ""
          || ltb p.external_port 1
          || ltb 65535 p.external_port
        then none
        else some (p.host, p.external_port))
    else rest

unfoldable pub owned : Manager → Worker → Instance → Bool
owned m w i = has_text "fleet_owner" m.cfg.deployment_id i && has_text "worker_id" w.id i

-- the first transaction of `start`
unfoldable pub start_begin : Manager → ℕ → String → Tx → Result Tx
start_begin m now wid tx = do
  check_lease m now tx
  current ← or_fail (lookup wid tx.workers) Error.panic
  refuse_if (not (current.state == WorkerState.requested)) Error.busy
  ok (update_worker wid (λ v. record v { state = WorkerState.starting; updated_at = now }) tx)

abbrev pub is_conflict {ℓ} : {A : Type ℓ} → Outcome A → Bool
is_conflict (Outcome.done a) = false
is_conflict (Outcome.api_error e) = e.status_code == 409
is_conflict Outcome.other_error = false

-- the errors of a create that stop further creation
unfoldable pub start_misconfigured {ℓ} : {A : Type ℓ} → Outcome A → Bool
start_misconfigured (Outcome.api_error e) =
    e.status_code == 400
    || e.status_code == 401
    || e.status_code == 403
    || e.status_code == 404
    || e.status_code == 422
    || e.reason == "token_file_unavailable"
    || e.reason == "invalid_token_file"
start_misconfigured _ = false

abbrev pub start_unknown : Bool → ℕ → Worker → Worker
start_unknown conflict now v = record v {
  state = WorkerState.unknown;
  error =
      if conflict
      then WorkerError.create_identity_or_config_conflict
      else WorkerError.create_outcome_unknown;
  next_check_at = now + 1;
}

abbrev pub start_failed : Worker → Worker
start_failed v = record v { state = WorkerState.failed; error = WorkerError.provider_create_failed }

-- the last transaction of `start` after an error
unfoldable pub start_error : ℕ → Outcome Instance → String → Tx → Tx
unfolding start_misconfigured
start_error now answer wid tx = delay_creation (now + 15) (
    if is_outcome_unknown answer || is_conflict answer
    then (let unknown = update_worker wid (start_unknown (is_conflict answer) now) tx in
        if is_conflict answer
        then block_creation Blocked.provider_configuration_requires_review unknown
        else unknown)
    else let failed = update_worker wid start_failed tx in
      if start_misconfigured answer
      then block_creation Blocked.provider_configuration_requires_review failed
      else failed)

abbrev pub launched : ℕ → Instance → Worker → Worker
launched now i v = record v {
  provider_id = i.instance_id;
  state = WorkerState.launching;
  next_check_at = now;
}

unfoldable pub start_answer : Manager → ℕ → ℕ → Outcome Instance → String → Tx → Tx
start_answer m now later (Outcome.done i) wid tx =
    on_worker wid (provider_lifetime m later i) (update_worker wid (launched later i) tx)
start_answer m now later failure wid tx = start_error now failure wid tx

-- the last transaction of `start`; `now` is the time of the call and `later` that of the answer
unfoldable pub start_finish : Manager → ℕ → ℕ → Outcome Instance → String → Tx → Result Tx
unfolding start_answer
start_finish m now later answer wid tx = if not (tx.leader == m.owner) then ok tx else do
  current ← or_fail (lookup wid tx.workers) Error.panic
  ok (
      start_answer m now later answer wid
        (update_worker wid (λ v. record v { updated_at = later }) tx))
