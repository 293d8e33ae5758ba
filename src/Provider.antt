-- ===== src/Provider.antt =====
-- internal/provider/provider.go: the hosting boundary, and the classes of its errors.
use nakama_agones.Prelude.{
  ℕ, String, Bool, true, false, not, ◌&&◌, ◌||◌, none, some, List, ◌==◌, text_Eq, number_Eq, leb,
}
use nakama_agones.Prelude.Table.{Table, lookup}

-- APIError.Cause, less what Unwrap does not let through
pub data Cause : Type 0 where
  nil canceled deadline_exceeded other : Cause

pub record ApiError : Type 0 where
  pub operation : String
  pub status_code : ℕ
  pub reason : String
  pub retry_after : ℕ
  pub outcome_unknown : Bool
  pub cause : Cause

-- A call returns a value, an error that is or wraps an *APIError, or some other error.
pub data Outcome {ℓ} (A : Type ℓ) : Type ℓ where
  done : A → Outcome A
  api_error : ApiError → Outcome A
  other_error : Outcome A

unfoldable pub unwrap : ApiError → Cause
unwrap e = elim e.cause [
  | Cause.canceled ↦ Cause.canceled
  | Cause.deadline_exceeded ↦ Cause.deadline_exceeded
  | _ ↦ Cause.nil
]

-- errors.Is(e, context.Canceled)
abbrev pub is_canceled : Cause → Bool
is_canceled Cause.canceled = true
is_canceled _ = false

unfoldable pub retryable : ApiError → Bool
unfolding unwrap
retryable e =
    not e.outcome_unknown
    && not (is_canceled (unwrap e))
    && (e.reason == "transport_error"
        || e.status_code == 408
        || e.status_code == 429
        || leb 500 e.status_code)

unfoldable pub is_outcome_unknown {ℓ} : {A : Type ℓ} → Outcome A → Bool
is_outcome_unknown (Outcome.done a) = false
is_outcome_unknown (Outcome.api_error e) = e.outcome_unknown
is_outcome_unknown Outcome.other_error = false

unfoldable pub is_retryable {ℓ} : {A : Type ℓ} → Outcome A → Bool
is_retryable (Outcome.done a) = false
is_retryable (Outcome.api_error e) = retryable e
is_retryable Outcome.other_error = false

pub record Port : Type 0 where
  pub name : String
  pub host : String
  pub external_port : ℕ
  pub internal_port : ℕ
  pub protocol : String

pub data InstanceStatus : Type 0 where
  launching running unhealthy stopped : InstanceStatus

-- a value of type `any`, which the controller only compares with texts
pub data Any : Type 0 where
  text : String → Any
  other : Any

-- `ttl` is 0 for every TTL that is not positive, which the controller treats alike.
pub record Instance : Type 0 where
  pub instance_id : String
  pub status : InstanceStatus
  pub network_ports : List Port
  pub custom_data : Table Any
  pub ttl : ℕ
  pub started_at : String

-- CustomData[key] == value, with a text on the right
unfoldable pub has_text : String → String → Instance → Bool
has_text key value i = elim (lookup key i.custom_data) [
  | none ↦ false
  | some v ↦ elim v [ Any.text t ↦ t == value | Any.other ↦ false ]
]

-- CustomData[key] != nil && CustomData[key] != value
unfoldable pub has_other : String → String → Instance → Bool
unfolding has_text
has_other key value i = elim (lookup key i.custom_data) [
  | none ↦ false
  | some v ↦ not (has_text key value i)
]
