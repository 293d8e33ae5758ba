-- ===== src/Console/Alerts/Raising.antt =====
-- What the loop over the samples makes of every condition (evaluate of
-- internal/console/alerts.go).

use nakama_agones.Prelude.{
  ℕ, ◌≡◌, refl, sym, ◌∙◌, ap, String, true, false, some, List, [], ◌∷◌, length, arith, Bool-cases,
  Option-cases, inl, inr, ◌==◌, text_Eq, for_each, eq_iff,
}
use mathlib.Core.Path.{subst}
use nakama_agones.Prelude.Table.{Table, lookup, insert, keys}
use nakama_agones.Prelude.Table.Laws.{lookup-insert}
use nakama_agones.Prelude.Table.Distinct.{has_key, Distinct, insert-Distinct}
use nakama_agones.Console.Alerts.{AlertConfig, AlertSample, AlertCondition}
use nakama_agones.Console.Alerts.Samples.{Doubles}
use nakama_agones.Console.Alerts.Conditions.{lose_sight, observe, should_notify}
use nakama_agones.Console.Alerts.Evaluate.{
  Round, condition_at, notify, judge_known, judge, judge_key,
}

-- what one sample makes of its condition
pub data Judges (cfg : AlertConfig) (now : ℕ) (s : AlertSample) (a : AlertCondition)
    : AlertCondition → Type 0 where
  blind : s.known ≡ false → Judges cfg now s a (lose_sight a)
  quiet : s.known ≡ true → Judges cfg now s a (observe cfg.hold_seconds now s a).0
  told :
      s.known ≡ true
      → Judges cfg now s a (record (observe cfg.hold_seconds now s a).0 { last_attempt_at = now })

-- the table after one key was written
pub record Wrote (j : String) (old new : Table AlertCondition) (b : AlertCondition) : Type 0 where
  pub here : lookup j new ≡ some b
  pub elsewhere : (k : String) → (j == k) ≡ false → lookup k new ≡ lookup k old
  pub distinct : Distinct (keys old) → Distinct (keys new)

insert-Wrote :
    (j : String) (m : Table AlertCondition) (b : AlertCondition) → Wrote j m (insert j b m) b
insert-Wrote j m b = record {
  here = ground (arith, lookup-insert j j b m, eq_iff j j);
  elsewhere = λ k e. ground (arith, lookup-insert j k b m);
  distinct = insert-Distinct j b m;
}

Wrote-again :
    (j : String) (m m' : Table AlertCondition) (a b : AlertCondition)
    → Wrote j m m' a
    → Wrote j m (insert j b m') b
Wrote-again j m m' a b w =
    let v = insert-Wrote j m' b in
    record {
      here = v.here;
      elsewhere = λ k e. v.elsewhere k e ∙ w.elsewhere k e;
      distinct = λ d. v.distinct (w.distinct d);
    }

module _ (doubles : Doubles) (cfg : AlertConfig) (now : ℕ) (key : String) (s : AlertSample)
    (r : Round) where
  Judgement : Table AlertCondition → Type 0
  Judgement active =
      (b : AlertCondition) × Wrote key r.active active b
      × Judges cfg now s (condition_at key s r.active) b

  judge_known-Judgement :
      s.known ≡ true
      → Judgement (judge_known doubles cfg now key s (condition_at key s r.active) r).active
  unfolding Judgement judge_known notify
  judge_known-Judgement e =
      let b = (observe cfg.hold_seconds now s (condition_at key s r.active)).0 in
      elim (Bool-cases (should_notify cfg now (length r.notified) b)) [
        | inr off ↦ rw off (b, insert-Wrote key r.active b, quiet e)
        | inl tell ↦ rw tell (
          record b { last_attempt_at = now },
          Wrote-again key r.active _ b _ (insert-Wrote key r.active b),
          told e,
        )
      ]

  judge-known :
      s.known ≡ true
      → judge doubles cfg now key s r
        ≡ judge_known doubles cfg now key s (condition_at key s r.active) r
  unfolding judge
  judge-known e = rw e refl

  judge-unknown :
      s.known ≡ false
      → (judge doubles cfg now key s r).active
        ≡ insert key (lose_sight (condition_at key s r.active)) r.active
  unfolding judge
  judge-unknown e = rw e refl

  judge-Judgement : Judgement (judge doubles cfg now key s r).active
  unfolding Judgement
  judge-Judgement = elim (Bool-cases s.known) [
    | inl e ↦ subst (λ t. Judgement t.active) (sym (judge-known e)) (judge_known-Judgement e)
    | inr e ↦
        let b = lose_sight (condition_at key s r.active) in
        subst Judgement (sym (judge-unknown e)) (b, insert-Wrote key r.active b, blind e)
  ]

pub condition_at-lookup :
    (key : String) (s : AlertSample) (m m' : Table AlertCondition)
    → lookup key m ≡ lookup key m'
    → condition_at key s m ≡ condition_at key s m'
unfolding condition_at
condition_at-lookup key s m m' e = rw (e, condition_at) refl

module _ (doubles : Doubles) (cfg : AlertConfig) (now : ℕ) (samples : Table AlertSample) where
  unfoldable pub round : List String → Round → Round
  round = for_each (judge_key doubles cfg now samples)

  judge_key-some :
      (key : String) (s : AlertSample) (r : Round)
      → lookup key samples ≡ some s
      → judge_key doubles cfg now samples key r ≡ judge doubles cfg now key s r
  unfolding judge_key
  judge_key-some key s r e = rw (e, judge_key) refl

  judge_key-elsewhere :
      (key j : String) (r : Round)
      → (key == j) ≡ false
      → lookup j (judge_key doubles cfg now samples key r).active ≡ lookup j r.active
  unfolding judge_key Judgement
  judge_key-elsewhere key j r e = elim (Option-cases (lookup key samples)) [
    | inl gone ↦ rw (gone, judge_key) refl
    | inr (s, there) ↦
        rw (there, judge_key) ((judge-Judgement doubles cfg now key s r).1.elsewhere j e)
  ]

  pub round-elsewhere :
      (j : String) (ks : List String) (r : Round)
      → has_key j ks ≡ false
      → lookup j (round ks r).active ≡ lookup j r.active
  unfolding round for_each
  round-elsewhere j [] r h = refl
  round-elsewhere j (k ∷ ks) r h =
      round-elsewhere j ks (judge_key doubles cfg now samples k r) (ground arith)
      ∙ judge_key-elsewhere k j r (ground arith)

  judge_key-Distinct :
      (key : String) (r : Round)
      → Distinct (keys r.active)
      → Distinct (keys (judge_key doubles cfg now samples key r).active)
  unfolding judge_key Judgement
  judge_key-Distinct key r d = elim (Option-cases (lookup key samples)) [
    | inl gone ↦ rw (gone, judge_key) d
    | inr (s, there) ↦
        rw (there, judge_key) ((judge-Judgement doubles cfg now key s r).1.distinct d)
  ]

  pub round-Distinct :
      (ks : List String) (r : Round)
      → Distinct (keys r.active)
      → Distinct (keys (round ks r).active)
  unfolding round for_each
  round-Distinct [] r d = d
  round-Distinct (k ∷ ks) r d =
      round-Distinct ks (judge_key doubles cfg now samples k r) (judge_key-Distinct k r d)

  -- The loop judges the condition of every sample once.
  pub round-Judges :
      (j : String) (s : AlertSample) (ks : List String) (r : Round)
      → lookup j samples ≡ some s
      → Distinct ks
      → has_key j ks ≡ true
      → (b : AlertCondition) × (lookup j (round ks r).active ≡ some b)
        × Judges cfg now s (condition_at j s r.active) b
  unfolding round for_each Judgement
  round-Judges j s [] r there d h = absurd (cc h)
  round-Judges j s (k ∷ ks) r there d h = elim (Bool-cases (k == j)) [
    | inl same ↦
        let key : k ≡ j = (eq_iff k j).0 same in
        let done = judge-Judgement doubles cfg now j s r in
        let r' = judge_key doubles cfg now samples k r in
        (
          done.0,
          round-elsewhere j ks r' (ground (arith, d.0, key))
              ∙ ap (λ t. lookup j t.active)
                  (ap (λ i. judge_key doubles cfg now samples i r) key ∙ judge_key-some j s r there)
              ∙ done.1.here,
          done.2,
        )
    | inr other ↦
        let r' = judge_key doubles cfg now samples k r in
        let rest = round-Judges j s ks r' there d.1 (ground arith) in
        (
          rest.0,
          rest.1,
          subst (λ a. Judges cfg now s a rest.0)
              (condition_at-lookup j s r'.active r.active (judge_key-elsewhere k j r other)) rest.2,
        )
  ]
