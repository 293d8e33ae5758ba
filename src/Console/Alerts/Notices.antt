-- ===== src/Console/Alerts/Notices.antt =====
-- The notices of an evaluation (internal/console/alerts.go).
use mathlib.Core.Path.{subst}
use nakama_agones.Prelude.Table.Laws.{All, All-map}
use nakama_agones.Console.Alerts.Attempts.{Attempted, forget_quiet-Attempted, judge_all-Attempted}
use nakama_agones.Prelude.{
  ℕ, ◌≤◌, ◌<◌, ◌≡◌, refl, sym, String, true, false, not, ◌||◌, Option, none, some, [], ◌∷◌, length,
  length-append, arith, Bool-cases, Option-cases, inl, inr, ltb, ◌==◌, text_Eq, text_lt, number_Eq,
  for_each_inv, sort,
}
use nakama_agones.Prelude.Table.{Table, lookup, keys}
use nakama_agones.Console.Values.{Fields}
use nakama_agones.Console.Alerts.Reached.{evaluated_state}
use nakama_agones.Console.Alerts.{
  AlertConfig, AlertSample, AlertCondition, OperationsState, Storage, save,
}
use nakama_agones.Console.Alerts.Samples.{Doubles, alert_samples}
use nakama_agones.Console.Alerts.Conditions.{observe, should_notify}
use nakama_agones.Console.Alerts.Evaluate.{
  Round, Notice, condition_at, notify, judge_known, judge, judge_key, judge_all, next_operations,
  make_notice, evaluate,
}

-- as many messages as keys, at most 20
record Few (r : Round) : Type 0 where
  few : length r.notified ≤ 20
  told : length r.messages ≡ length r.notified

module _ (doubles : Doubles) (cfg : AlertConfig) (now : ℕ) where
  judge_known-Few :
      (key : String) (s : AlertSample) (a : AlertCondition) (r : Round)
      → Few r
      → Few (judge_known doubles cfg now key s a r)
  unfolding judge_known notify should_notify
  judge_known-Few key s a r h =
      let b = (observe cfg.hold_seconds now s a).0 in
      elim (Bool-cases (should_notify cfg now (length r.notified) b)) [
        | inr off ↦ rw off (record { few = h.few; told = h.told })
        | inl on ↦
            let room : length r.notified < 20 = ground arith in
            rw on (record {
              few = omega (arith, length-append r.notified (key ∷ []), room);
              told = omega (
                arith,
                h.told,
                length-append r.notified (key ∷ []),
                length-append r.messages (_ ∷ []),
              );
            })
      ]

  judge-Few :
      (key : String) (s : AlertSample) (r : Round) → Few r → Few (judge doubles cfg now key s r)
  unfolding judge
  judge-Few key s r h = elim (Bool-cases s.known) [
    | inl e ↦ rw e (judge_known-Few key s (condition_at key s r.active) r h)
    | inr e ↦ rw e (record { few = h.few; told = h.told })
  ]

  judge_key-Few :
      (samples : Table AlertSample) (key : String) (r : Round)
      → Few r
      → Few (judge_key doubles cfg now samples key r)
  unfolding judge_key
  judge_key-Few samples key r h = elim (Option-cases (lookup key samples)) [
    | inl e ↦ rw (e, judge_key) h
    | inr (s, e) ↦ rw (e, judge_key) (judge-Few key s r h)
  ]

  judge_all-Few :
      (samples : Table AlertSample) (s : OperationsState)
      → Few (judge_all doubles cfg now samples s)
  unfolding judge_all
  judge_all-Few samples s =
      for_each_inv Few (judge_key doubles cfg now samples) (judge_key-Few samples)
        (sort text_lt (keys samples)) _ (record { few = omega arith; told = refl })

module _ (doubles : Doubles) (now : ℕ) (snapshot : Fields) (s : OperationsState) where
  -- a notice, and the state that was written before it is sent
  pub record Sent (t : OperationsState) (n : Notice) : Type 0 where
    pub enabled : s.config.enabled ≡ true
    pub delivering : s.config.feishu_enabled ≡ true
    pub address : n.webhook ≡ s.feishu_webhook
    pub configured : (n.webhook == "") ≡ false
    pub few : (1 ≤ length n.notified) × (length n.notified ≤ 20)
    pub dated : (n.revision ≡ s.revision) × (n.at ≡ now)
    pub recorded : t ≡ evaluated_state doubles now snapshot s
    pub attempted : All (Attempted now t.active) n.notified

  SentIfAny : OperationsState × Option Notice → Type 0
  SentIfAny (t, none) = Unit
  SentIfAny (t, some n) = Sent t n

  notice-Sent :
      (t : OperationsState) (r : Round)
      → s.config.enabled ≡ true
      → t ≡ evaluated_state doubles now snapshot s
      → All (Attempted now t.active) r.notified
      → Few r
      → SentIfAny (t, make_notice doubles now r s)
  unfolding make_notice SentIfAny
  notice-Sent t r on recorded attempted h =
      elim (Bool-cases
        (length r.notified == 0 || s.feishu_webhook == "" || not s.config.feishu_enabled)) [
          | inl e ↦ rw e tt
          | inr e ↦ rw e (record {
            enabled = on;
            delivering = ground arith;
            address = refl;
            configured = ground arith;
            few = (ground arith, h.few);
            dated = (refl, refl);
            recorded = recorded;
            attempted = attempted;
          })
        ]

  save-written :
      (disk : Storage) (next : OperationsState)
      → (save disk s next).1 ≡ none
      → (save disk s next).0 ≡ next
  unfolding save
  save-written Storage.written next e = refl
  save-written (Storage.refused x) next e = absurd (cc e)
  save-written (Storage.unsynced x) next e = absurd (cc e)

  evaluate-SentIfAny : (disk : Storage) → SentIfAny (evaluate doubles now snapshot disk s)
  unfolding evaluate SentIfAny evaluated_state next_operations
  evaluate-SentIfAny disk =
      let r = judge_all doubles s.config now (alert_samples doubles s.config now snapshot) s in
      let next = next_operations doubles now r s in
      elim (Bool-cases (not s.config.enabled)) [
        | inl off ↦ rw off tt
        | inr on ↦ elim (Bool-cases (ltb 5000 (length next.active))) [
          | inl full ↦ rw (on, full) tt
          | inr fits ↦ elim (Option-cases (save disk s next).1) [
            | inr (x, e) ↦ rw (on, fits, e) tt
            | inl e ↦
                rw (on, fits, e)
                  (notice-Sent (save disk s next).0 r (ground arith) (save-written disk next e)
                    (attempts (save disk s next).0 (save-written disk next e))
                    (judge_all-Few doubles s.config now
                      (alert_samples doubles s.config now snapshot) s))
          ]
        ]
      ]
    where
      attempts :
          (t : OperationsState)
          → t ≡ evaluated_state doubles now snapshot s
          → (let r =
                judge_all doubles s.config now (alert_samples doubles s.config now snapshot) s in
              All (Attempted now t.active) r.notified)
      attempts t e =
          let samples = alert_samples doubles s.config now snapshot in
          let r = judge_all doubles s.config now samples s in
          subst (λ u. All (Attempted now u.active) r.notified) (sym e)
            (All-map (forget_quiet-Attempted now r.active) r.notified
              (judge_all-Attempted doubles s.config now samples s))

-- An evaluation sends a notice only if alerts and delivery are enabled and a webhook is
-- configured; it goes to that webhook and is about at least one and at most twenty conditions; and
-- the state that was judged has been written before, with each of these conditions in it as seen
-- now and attempted now.
pub evaluate-Sent :
    (doubles : Doubles) (now : ℕ) (snapshot : Fields) (disk : Storage) (s t : OperationsState)
    (n : Notice)
    → evaluate doubles now snapshot disk s ≡ (t, some n)
    → Sent doubles now snapshot s t n
unfolding SentIfAny
evaluate-Sent doubles now snapshot disk s t n e =
    subst (SentIfAny doubles now snapshot s) e (evaluate-SentIfAny doubles now snapshot s disk)
