-- ===== src/Console/Alerts.antt =====
-- The alerts of the console: their data (internal/console/alerts.go). Times are in seconds since
-- 1970; text that may be absent is an option.
pub mod Samples
pub mod Conditions
pub mod Evaluate
pub mod Update
pub mod Holding
pub mod Raising
pub mod Histories
pub mod Reached
pub mod Evaluations
pub mod Limits
pub mod Attempts
pub mod Notices
pub mod Revisions
use nakama_agones.Prelude.{
  ℕ, ◌-◌, String, Bool, true, false, ◌&&◌, Option, none, some, List, [], ◌++◌, ltb, leb, length,
  drop, if◌then◌else◌,
}
use nakama_agones.Prelude.Int.{ℤ, pos, negsuc, leb_ℤ}
use nakama_agones.Prelude.Float.{Float, leb_float, whole}
use nakama_agones.Prelude.Table.{Table}
use nakama_agones.Console.{SourceError}
use nakama_agones.Console.Values.{finite_float}

pub record AlertConfig : Type 0 where
  pub enabled : Bool
  pub feishu_enabled : Bool
  pub wait_p95_ms : Float
  pub frame_p99_ms : Float
  pub hold_seconds : ℤ
  pub cooldown_seconds : ℤ
  pub min_samples : ℤ

unfoldable pub default_alerts : AlertConfig
unfolding whole
default_alerts = record {
  enabled = true;
  feishu_enabled = false;
  wait_p95_ms = whole 1000;
  frame_p99_ms = whole 100;
  hold_seconds = pos 60;
  cooldown_seconds = pos 600;
  min_samples = pos 5;
}

abbrev between_floats : ℕ → ℕ → Float → Bool
between_floats low high v = leb_float (whole low) v && leb_float v (whole high)

abbrev between_ints : ℕ → ℕ → ℤ → Bool
between_ints low high v = leb_ℤ (pos low) v && leb_ℤ v (pos high)

unfoldable pub valid_config : AlertConfig → Bool
unfolding finite_float leb_float whole
valid_config c =
    finite_float c.wait_p95_ms
    && finite_float c.frame_p99_ms
    && between_floats 100 10000 c.wait_p95_ms
    && between_floats 10 1000 c.frame_p99_ms
    && between_ints 15 1800 c.hold_seconds
    && between_ints 60 86400 c.cooldown_seconds
    && between_ints 1 1000 c.min_samples

pub record AlertSample : Type 0 where
  pub key : String
  pub kind : String
  pub worker_id : String
  pub region : String
  pub origin : String
  pub value : Float
  pub threshold : Float
  pub known : Bool
  pub breached : Bool

-- `blank` is the empty text, which a new condition has until it is judged.
pub data ConditionState : Type 0 where
  blank healthy unknown pending firing recovering : ConditionState

abbrev pub same_state : ConditionState → ConditionState → Bool
same_state ConditionState.blank ConditionState.blank = true
same_state ConditionState.healthy ConditionState.healthy = true
same_state ConditionState.unknown ConditionState.unknown = true
same_state ConditionState.pending ConditionState.pending = true
same_state ConditionState.firing ConditionState.firing = true
same_state ConditionState.recovering ConditionState.recovering = true
same_state s t = false

pub record AlertCondition : Type 0 where
  pub key : String
  pub kind : String
  pub worker_id : String
  pub region : String
  pub origin : String
  pub state : ConditionState
  pub since : ℕ
  pub last_observed_at : ℕ
  pub last_notified_at : ℕ
  pub last_attempt_at : ℕ
  pub value : Float
  pub threshold : Float
  pub firing : Bool
  pub recovery_since : ℕ
  pub recovery_pending : Bool

pub record AlertEvent : Type 0 where
  pub at : ℕ
  pub key : String
  pub kind : String
  pub event : String
  pub worker_id : String
  pub value : Float

pub record AlertDelivery : Type 0 where
  pub last_success_at : ℕ
  pub last_error_code : String

pub record AlertAudit : Type 0 where
  pub at : ℕ
  pub actor : String
  pub revision : ℕ
  pub webhook_changed : Bool
  pub signing_changed : Bool

pub record OperationsState : Type 0 where
  pub revision : ℕ
  pub config : AlertConfig
  pub feishu_webhook : String
  pub feishu_signing_secret : String
  pub active : Table AlertCondition
  pub history : List AlertEvent
  pub delivery : AlertDelivery
  pub audit : List AlertAudit

-- now - then, where either may be later
unfoldable pub elapsed : ℕ → ℕ → ℤ
elapsed now since = if leb since now then pos (now - since) else negsuc (since - now - 1)

-- if len(xs) > n { xs = xs[len(xs)-n:] }
unfoldable pub keep_last : {A : Type 0} → ℕ → List A → List A
keep_last n xs = if ltb n (length xs) then drop (length xs - n) xs else xs

-- What the file system did with a write: the file is written; the write failed before the file
-- was replaced; or it was replaced and the directory was not synced.
pub data Storage : Type 0 where
  written : Storage
  refused : SourceError → Storage
  unsynced : SourceError → Storage

-- The state after `save(next)`, and the error.
unfoldable pub save :
    Storage → OperationsState → OperationsState → OperationsState × Option SourceError
save Storage.written old next = (next, none)
save (Storage.refused e) old next = (old, some e)
save (Storage.unsynced e) old next = (next, some e)
