-- ===== src/State/Phases.antt =====
-- The string constants of internal/state and pkg/fleetmanager, as enumerations.
use nakama_agones.Prelude.{ℕ, ◌≡◌, ◌↔◌, arith, Bool, true, false, Eq, number_eq}

-- Worker.State
pub data WorkerState : Type 0 where
  requested starting unknown launching bootstrapping ready suspect draining stopping : WorkerState
  stopped failed lost : WorkerState

-- Allocation.State
pub data Phase : Type 0 where
  waiting_capacity preparing prepared assigned active cancelling : Phase
  completed cancelled expired failed : Phase

-- Allocation.Error
pub data Reason : Type 0 where
  empty cancelled server_failed reconnect_expired allocation_expired prepare_expired : Reason
  room_prepare_failed server_stopped server_lost : Reason

-- Worker.Error
pub data WorkerError : Type 0 where
  empty interrupted_create agent_lost create_outcome_unknown : WorkerError
  create_identity_or_config_conflict provider_create_failed create_still_unknown : WorkerError
  multiple_instances_require_operator_review provider_ownership_mismatch : WorkerError
  provider_query_failed provider_unhealthy launch_timeout invalid_provider_endpoint : WorkerError
  provider_stop_failed awaiting_stop_confirmation : WorkerError

-- Command.Type
pub data CommandType : Type 0 where
  prepare_room cancel_room drain : CommandType

-- State.CreationBlockedReason; `open_` is the empty string
pub data Blocked : Type 0 where
  open_ provider_configuration_requires_review provider_lifetime_too_short : Blocked

abbrev worker_code : WorkerState → ℕ
worker_code WorkerState.requested = 0
worker_code WorkerState.starting = 1
worker_code WorkerState.unknown = 2
worker_code WorkerState.launching = 3
worker_code WorkerState.bootstrapping = 4
worker_code WorkerState.ready = 5
worker_code WorkerState.suspect = 6
worker_code WorkerState.draining = 7
worker_code WorkerState.stopping = 8
worker_code WorkerState.stopped = 9
worker_code WorkerState.failed = 10
worker_code WorkerState.lost = 11

abbrev phase_code : Phase → ℕ
phase_code Phase.waiting_capacity = 0
phase_code Phase.preparing = 1
phase_code Phase.prepared = 2
phase_code Phase.assigned = 3
phase_code Phase.active = 4
phase_code Phase.cancelling = 5
phase_code Phase.completed = 6
phase_code Phase.cancelled = 7
phase_code Phase.expired = 8
phase_code Phase.failed = 9

abbrev pub worker_state_eq : WorkerState → WorkerState → Bool
worker_state_eq a b = number_eq (worker_code a) (worker_code b)

abbrev pub phase_eq : Phase → Phase → Bool
phase_eq a b = number_eq (phase_code a) (phase_code b)

pub worker_state_eq_iff : (a b : WorkerState) → (worker_state_eq a b ≡ true) ↔ (a ≡ b)
worker_state_eq_iff a b = ground arith

pub phase_eq_iff : (a b : Phase) → (phase_eq a b ≡ true) ↔ (a ≡ b)
phase_eq_iff a b = ground arith

instance abbrev pub worker_state_Eq : Eq WorkerState
worker_state_Eq = record { equal = worker_state_eq; decides = worker_state_eq_iff }

instance abbrev pub phase_Eq : Eq Phase
phase_Eq = record { equal = phase_eq; decides = phase_eq_iff }

abbrev pub is_cancelled : Reason → Bool
is_cancelled Reason.cancelled = true
is_cancelled _ = false

abbrev pub is_prepare_room : CommandType → Bool
is_prepare_room CommandType.prepare_room = true
is_prepare_room _ = false

abbrev pub is_cancel_room : CommandType → Bool
is_cancel_room CommandType.cancel_room = true
is_cancel_room _ = false

abbrev pub is_drain : CommandType → Bool
is_drain CommandType.drain = true
is_drain _ = false

abbrev pub is_open : Blocked → Bool
is_open Blocked.open_ = true
is_open _ = false

abbrev pub terminal : Phase → Bool
terminal Phase.completed = true
terminal Phase.cancelled = true
terminal Phase.expired = true
terminal Phase.failed = true
terminal _ = false

abbrev pub live_worker : WorkerState → Bool
live_worker WorkerState.stopped = false
live_worker WorkerState.failed = false
live_worker WorkerState.lost = false
live_worker _ = true
