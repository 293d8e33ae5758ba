-- ===== src/Console/Alerts/Evaluate.antt =====
-- One evaluation of all alerts: evaluate of internal/console/alerts.go, up to the sending of the
-- notices, and the second critical section that follows the sending. Between the two the lock is
-- free, so that they are two operations on the state.
use Prim.Native.String.{◌++◌ as text_append}
use nakama_agones.Prelude.{
  ℕ, String, Bool, false, not, ◌&&◌, ◌||◌, Option, none, some, List, [], ◌∷◌, ◌++◌, length, ltb,
  ◌==◌, text_Eq, text_lt, number_Eq, if◌then◌else◌, for_each, sort, any,
}
use nakama_agones.Prelude.Int.{pos, ltb_ℤ}
use nakama_agones.Prelude.Table.{Table, lookup, insert, modify, keys}
use nakama_agones.Console.Values.{Fields}
use nakama_agones.Console.Alerts.{
  AlertConfig, AlertSample, AlertCondition, AlertEvent, ConditionState, OperationsState, Storage,
  save, keep_last, elapsed, same_state,
}
use nakama_agones.Console.Alerts.Samples.{Doubles, alert_samples}
use nakama_agones.Console.Alerts.Conditions.{new_condition, lose_sight, observe, should_notify}

-- what the loop over the samples changes
pub record Round : Type 0 where
  pub active : Table AlertCondition
  pub history : List AlertEvent
  pub messages : List String
  pub notified : List String
  pub recoveries : List String

unfoldable pub message : Doubles → AlertCondition → String
message doubles a = text_append (if a.recovery_pending then "recovered" else "firing") (
    text_append " " (
      text_append a.kind (
        text_append " region=" (
          text_append a.region (
            text_append " worker=" (
              text_append a.worker_id (
                text_append " value=" (
                  text_append (doubles.decimal a.value) (
                    text_append " threshold=" (
                      text_append (doubles.decimal a.threshold)
                        (text_append " source=" a.origin)))))))))))

-- active[key], made where there is none
unfoldable pub condition_at : String → AlertSample → Table AlertCondition → AlertCondition
unfolding lookup new_condition
condition_at key s active = elim (lookup key active) [ none ↦ new_condition s | some a ↦ a ]

-- conditions that no sample is about
unfoldable pub miss : Table AlertSample → Table AlertCondition → Table AlertCondition
unfolding lookup lose_sight
miss samples [] = []
miss samples ((key, a) ∷ active) =
    (key, elim (lookup key samples) [ none ↦ lose_sight a | some s ↦ a ]) ∷ miss samples active

module _ (now : ℕ) where
  -- a condition that has been quiet for a day is forgotten
  unfoldable pub forgotten : AlertCondition → Bool
  unfolding elapsed
  forgotten a =
      (same_state a.state ConditionState.healthy || same_state a.state ConditionState.unknown)
      && not a.firing
      && not a.recovery_pending
      && ltb_ℤ (pos 86400) (elapsed now a.last_observed_at)

  unfoldable pub forget_quiet : Table AlertCondition → Table AlertCondition
  unfolding forgotten
  forget_quiet [] = []
  forget_quiet ((key, a) ∷ active) =
      let rest = forget_quiet active in if forgotten a then rest else (key, a) ∷ rest

module _ (doubles : Doubles) (cfg : AlertConfig) (now : ℕ) where
  unfoldable pub notify : String → AlertCondition → Round → Round
  unfolding insert message
  notify key a r = record r {
    active = insert key (record a { last_attempt_at = now }) r.active;
    messages = r.messages ++ message doubles a ∷ [];
    notified = r.notified ++ key ∷ [];
    recoveries = if a.recovery_pending then r.recoveries ++ key ∷ [] else r.recoveries;
  }

  unfoldable pub judge_known : String → AlertSample → AlertCondition → Round → Round
  unfolding observe should_notify notify insert
  judge_known key s a r =
      let b = observe cfg.hold_seconds now s a in
      let observed = record r { active = insert key b.0 r.active; history = r.history ++ b.1 } in
      if should_notify cfg now (length r.notified) b.0 then notify key b.0 observed else observed

  -- the body of the loop over the samples
  unfoldable pub judge : String → AlertSample → Round → Round
  unfolding lose_sight judge_known condition_at insert
  judge key s r =
      if s.known
      then judge_known key s (condition_at key s r.active) r
      else record r { active = insert key (lose_sight (condition_at key s r.active)) r.active }

  unfoldable pub judge_key : Table AlertSample → String → Round → Round
  unfolding judge lookup
  judge_key samples key r = elim (lookup key samples) [ none ↦ r | some s ↦ judge key s r ]

  -- the loop over the samples in the order of their keys
  unfoldable pub judge_all : Table AlertSample → OperationsState → Round
  unfolding judge_key miss for_each
  judge_all samples s = for_each (judge_key samples) (sort text_lt (keys samples)) (record {
    active = miss samples s.active;
    history = s.history;
    messages = [];
    notified = [];
    recoveries = [];
  })

-- what is to be sent, with what the second critical section needs
pub record Notice : Type 0 where
  pub webhook : String
  pub secret : String
  pub text : String
  pub revision : ℕ
  pub at : ℕ
  pub notified : List String
  pub recoveries : List String

-- strings.Join(lines, "\n")
unfoldable pub join_lines : List String → String
join_lines [] = ""
join_lines (s ∷ []) = s
join_lines (s ∷ t ∷ rest) = text_append s (text_append "\n" (join_lines (t ∷ rest)))

module _ (doubles : Doubles) (now : ℕ) where
  -- the state that an evaluation writes
  unfoldable pub next_operations : Round → OperationsState → OperationsState
  unfolding forget_quiet keep_last
  next_operations r s = record s {
    active = forget_quiet now r.active;
    history = keep_last 200 r.history;
  }

  unfoldable pub make_notice : Round → OperationsState → Option Notice
  unfolding join_lines
  make_notice r s =
      if length r.notified == 0 || s.feishu_webhook == "" || not s.config.feishu_enabled
      then none
      else some (record {
        webhook = s.feishu_webhook;
        secret = s.feishu_signing_secret;
        text = text_append "Nakama Agones alerts\n" (join_lines r.messages);
        revision = s.revision;
        at = now;
        notified = r.notified;
        recoveries = r.recoveries;
      })

  -- evaluate up to the sending: the state, and what is sent
  unfoldable pub evaluate : Fields → Storage → OperationsState → OperationsState × Option Notice
  unfolding alert_samples judge_all next_operations make_notice save
  evaluate snapshot disk s =
      if not s.config.enabled
      then (s, none)
      else (let r =
            judge_all doubles s.config now (alert_samples doubles s.config now snapshot) s in
          let next = next_operations r s in
          if ltb 5000 (length next.active)
          then (s, none)
          else (let saved = save disk s next in
              elim saved.1 [ some e ↦ (saved.0, none) | none ↦ (saved.0, make_notice r s) ]))

-- evaluate after the sending, on the state of that time
unfoldable pub notified_condition : Notice → String → AlertCondition → AlertCondition
notified_condition n key a = record a {
  last_notified_at = n.at;
  recovery_pending = if any (λ k. k == key) n.recoveries then false else a.recovery_pending;
}

unfoldable pub delivered : Notice → Bool → OperationsState → OperationsState
unfolding notified_condition modify for_each
delivered n failed s =
    if failed
    then record s { delivery = record s.delivery { last_error_code = "feishu_delivery_failed" } }
    else record s {
      delivery = record { last_error_code = ""; last_success_at = n.at };
      active = for_each (λ key. modify key (notified_condition n key)) n.notified s.active;
    }

unfoldable pub after_sending : Notice → Bool → Storage → OperationsState → OperationsState
unfolding delivered save
after_sending n failed disk s =
    if s.revision == n.revision then (save disk s (delivered n failed s)).0 else s
