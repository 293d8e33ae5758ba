-- ===== src/Console/Alerts/Conditions.antt =====
-- How one condition follows its samples (the body of the loop of evaluate,
-- internal/console/alerts.go).
use nakama_agones.Prelude.{
  ℕ, String, Bool, true, false, ◌&&◌, ◌||◌, List, [], ◌∷◌, ltb, ◌==◌, number_Eq, if◌then◌else◌,
}
use nakama_agones.Prelude.Int.{ℤ, pos, leb_ℤ, ltb_ℤ}
use nakama_agones.Prelude.Float.{whole}
use nakama_agones.Console.Alerts.{
  AlertConfig, AlertSample, AlertCondition, ConditionState, AlertEvent, elapsed, same_state,
}

-- &alertCondition{Key: key, Kind: s.Kind, ...}
unfoldable pub new_condition : AlertSample → AlertCondition
unfolding whole
new_condition s = record {
  key = s.key;
  kind = s.kind;
  worker_id = s.worker_id;
  region = s.region;
  origin = s.origin;
  state = ConditionState.blank;
  since = 0;
  last_observed_at = 0;
  last_notified_at = 0;
  last_attempt_at = 0;
  value = whole 0;
  threshold = whole 0;
  firing = false;
  recovery_since = 0;
  recovery_pending = false;
}

-- a sample is missing or unknown
unfoldable pub lose_sight : AlertCondition → AlertCondition
lose_sight a = record a {
  state = ConditionState.unknown;
  since = if a.firing then a.since else 0;
  recovery_since = 0;
}

module _ (now : ℕ) where
  -- more than 20 seconds have passed since the last observation
  unfoldable pub gap : AlertCondition → Bool
  unfolding elapsed
  gap a = ltb 0 a.last_observed_at && ltb_ℤ (pos 20) (elapsed now a.last_observed_at)

  unfoldable pub start : Bool → ℕ → ℕ
  start broken since = if since == 0 || broken then now else since

  event : String → AlertCondition → AlertEvent
  event name a = record {
    at = now;
    key = a.key;
    kind = a.kind;
    event = name;
    worker_id = a.worker_id;
    value = a.value;
  }

module _ (hold_seconds : ℤ) (now : ℕ) where
  unfoldable pub held : ℕ → Bool
  unfolding elapsed
  held since = leb_ℤ hold_seconds (elapsed now since)

  unfoldable pub observe_breach : Bool → AlertCondition → AlertCondition × List AlertEvent
  unfolding start held event
  observe_breach broken old =
      let a = record old { recovery_since = 0; recovery_pending = false } in
      if a.firing
      then (record a { state = ConditionState.firing }, [])
      else (let b = record a { since = start now broken a.since; state = ConditionState.pending } in
          if held (start now broken a.since)
          then (
            record b { firing = true; state = ConditionState.firing },
            event now "firing" b ∷ [],
          )
          else (b, []))

  unfoldable pub observe_health : Bool → AlertCondition → AlertCondition × List AlertEvent
  unfolding start held event
  observe_health broken a =
      if a.firing
      then (let b = record a {
        recovery_since = start now broken a.recovery_since;
        state = ConditionState.recovering;
      } in
          if held (start now broken a.recovery_since)
          then (
            record b {
              firing = false;
              state = ConditionState.healthy;
              since = 0;
              recovery_pending = ltb 0 a.last_notified_at;
            },
            event now "recovered" b ∷ [],
          )
          else (b, []))
      else (record a { state = ConditionState.healthy; since = 0 }, [])

  -- a sample that is known
  unfoldable pub observe : AlertSample → AlertCondition → AlertCondition × List AlertEvent
  unfolding gap observe_breach observe_health
  observe s old =
      let a = record old { last_observed_at = now; value = s.value; threshold = s.threshold } in
      if s.breached then observe_breach (gap now old) a else observe_health (gap now old) a

-- it is time to tell that the condition fires
unfoldable pub should_fire : AlertConfig → ℕ → AlertCondition → Bool
unfolding elapsed
should_fire cfg now a =
    a.firing
    && same_state a.state ConditionState.firing
    && (a.last_notified_at == 0 || leb_ℤ cfg.cooldown_seconds (elapsed now a.last_notified_at))

-- a notice is sent in this evaluation, in which `sent` others are
unfoldable pub should_notify : AlertConfig → ℕ → ℕ → AlertCondition → Bool
unfolding should_fire elapsed
should_notify cfg now sent a =
    cfg.feishu_enabled
    && (should_fire cfg now a || a.recovery_pending)
    && leb_ℤ (pos 30) (elapsed now a.last_attempt_at)
    && ltb sent 20
