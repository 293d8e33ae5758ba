-- ===== src/Console/Alerts/Update.antt =====
-- The operator's change of the alerts (UpdateAlerts and view of internal/console/alerts.go). The
-- parsing of a webhook's address is the URL package's.

use Prim.Native.String.{len}
use nakama_agones.Prelude.{
  ℕ, ◌+◌, String, Bool, true, false, not, ◌&&◌, ◌||◌, Option, none, some, List, [], ◌∷◌, ◌++◌, leb,
  ltb, ◌==◌, text_Eq, text_lt, number_Eq, if◌then◌else◌, sort,
}
use nakama_agones.Prelude.Int.{ℤ, pos, integer_Eq}
use nakama_agones.Prelude.Table.{values}
use nakama_agones.Console.{SourceError, source_error}
use nakama_agones.Console.Names.{every_char, valid_username}
use nakama_agones.Console.Alerts.{
  AlertConfig, AlertAudit, AlertCondition, AlertEvent, AlertDelivery, ConditionState,
  OperationsState, Storage, save, keep_last, valid_config, same_state,
}

pub record AlertUpdate : Type 0 where
  pub expected_revision : ℤ
  pub config : AlertConfig
  pub feishu_webhook : Option String
  pub feishu_signing_secret : Option String

-- a control character of Unicode
abbrev control_char : ℕ → Bool
control_char c = ltb c 32 || (leb 127 c && leb c 159)

unfoldable pub valid_feishu_secret : String → Bool
unfolding every_char
valid_feishu_secret s = leb (len s) 256 && every_char (λ c. not (control_char c)) s

unfoldable pub set_text : Option String → String → String
set_text none old = old
set_text (some new) old = new

abbrev given : Option String → Bool
given none = false
given (some s) = true

abbrev pub passes : (String → Bool) → Option String → Bool
passes p none = true
passes p (some s) = p s

module _ (valid_feishu_webhook : String → Bool) (now : ℕ) where
  unfoldable pub valid_update : AlertUpdate → String → Bool
  unfolding valid_config valid_username valid_feishu_secret
  valid_update u actor =
      valid_config u.config
      && valid_username actor
      && passes valid_feishu_webhook u.feishu_webhook
      && passes valid_feishu_secret u.feishu_signing_secret

  unfoldable pub audit_entry : AlertUpdate → String → OperationsState → AlertAudit
  audit_entry u actor s = record {
    at = now;
    actor = actor;
    revision = s.revision + 1;
    webhook_changed = given u.feishu_webhook;
    signing_changed = given u.feishu_signing_secret;
  }

  unfoldable pub updated : AlertUpdate → String → OperationsState → OperationsState
  unfolding set_text keep_last audit_entry
  updated u actor s = record s {
    revision = s.revision + 1;
    config = u.config;
    feishu_webhook = set_text u.feishu_webhook s.feishu_webhook;
    feishu_signing_secret = set_text u.feishu_signing_secret s.feishu_signing_secret;
    audit = keep_last 100 (s.audit ++ audit_entry u actor s ∷ []);
  }

  unfoldable pub update_alerts :
      AlertUpdate → String → Storage → OperationsState → OperationsState × Option SourceError
  unfolding valid_update updated save
  update_alerts u actor disk s =
      if not (valid_update u actor)
      then (s, some (source_error 400 "alerts_invalid"))
      else if not (u.expected_revision == pos s.revision)
      then (s, some (source_error 409 "alerts_conflict"))
      else if u.config.feishu_enabled && (updated u actor s).feishu_webhook == ""
      then (s, some (source_error 400 "feishu_not_configured"))
      else save disk s (updated u actor s)

-- what the browser sees
pub record AlertsView : Type 0 where
  pub can_configure : Bool
  pub revision : ℕ
  pub config : AlertConfig
  pub feishu_configured : Bool
  pub feishu_signing_configured : Bool
  pub active : List AlertCondition
  pub history : List AlertEvent
  pub delivery : AlertDelivery
  pub audit : List AlertAudit

unfoldable pub not_healthy : List AlertCondition → List AlertCondition
not_healthy [] = []
not_healthy (a ∷ rest) =
    let others = not_healthy rest in
    if same_state a.state ConditionState.healthy then others else a ∷ others

unfoldable pub view : OperationsState → AlertsView
unfolding not_healthy
view s = record {
  can_configure = true;
  revision = s.revision;
  config = s.config;
  feishu_configured = not (s.feishu_webhook == "");
  feishu_signing_configured = not (s.feishu_signing_secret == "");
  active = sort (λ a b. text_lt a.key b.key) (not_healthy (values s.active));
  history = s.history;
  delivery = s.delivery;
  audit = s.audit;
}
