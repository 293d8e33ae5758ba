-- ===== src/Console/Alerts/Reached.antt =====
-- The states that the alerts of the console go through (internal/console/alerts.go), with what
-- was seen of every condition.
use mathlib.Core.Path.{subst}
use mathlib.Core.Option
use nakama_agones.Prelude.{
  ℕ, ◌≤◌, ◌≡◌, refl, sym, ◌∙◌, ap, String, false, Option, none, some, List, [], ◌∷◌, Bool-cases,
  Option-cases, inl, inr, text_Eq, number_Eq, text_lt, for_each_inv, sort,
}
use nakama_agones.Prelude.Int.{ℤ}
use nakama_agones.Prelude.Table.{Table, lookup, insert, keys}
use nakama_agones.Prelude.Table.Distinct.{
  Distinct, insert-Distinct, missing-has_key, lookup-has_key, has_key-sort, sort-Distinct,
}
use nakama_agones.Console.Names.{worker_name, dns_name}
use nakama_agones.Console.Values.{Fields, at_key, text_field, map_object, objects, is_true}
use nakama_agones.Console.Alerts.{AlertConfig, AlertSample, AlertCondition, OperationsState}
use nakama_agones.Console.Alerts.Samples.{
  Doubles, worker_sample, alert_rules, worker_samples, region_samples, alert_samples,
}
use nakama_agones.Console.Alerts.Conditions.{new_condition, lose_sight}
use nakama_agones.Console.Alerts.Evaluate.{Round, condition_at, miss, judge_all, next_operations}
use nakama_agones.Console.Alerts.Holding.{Sighting, silent, Follows, created, lost}
use nakama_agones.Console.Alerts.Raising.{
  Judges, condition_at-lookup, round, round-elsewhere, round-Judges, round-Distinct,
}
use nakama_agones.Console.Alerts.Histories.{
  sight, Settled, Rests, Judges-Follows, Judges-Rests, lose_sight-Rests, keys-miss, miss-seen,
  miss-missed,
}

KeysDistinct : Table AlertSample → Type 0
KeysDistinct m = Distinct (keys m)

module _ (doubles : Doubles) (cfg : AlertConfig) (now : ℕ) where
  region-Distinct :
      (r : Fields) (m : Table AlertSample)
      → KeysDistinct m
      → KeysDistinct (region_samples doubles cfg now r m)
  unfolding region_samples KeysDistinct
  region-Distinct r m d = elim (Bool-cases (dns_name (text_field r "name"))) [
    | inl e ↦ rw e (insert-Distinct _ _ m d)
    | inr e ↦ rw e d
  ]

  worker-Distinct :
      (w : Fields) (m : Table AlertSample)
      → KeysDistinct m
      → KeysDistinct (worker_samples doubles cfg now w m)
  unfolding worker_samples KeysDistinct
  worker-Distinct w m d = elim (Bool-cases (worker_name (text_field w "id"))) [
    | inl e ↦ rw e (
        for_each_inv KeysDistinct
          (λ rule.
            insert (worker_sample doubles cfg now w rule).key
              (worker_sample doubles cfg now w rule))
          (λ rule t h. insert-Distinct _ _ t h) (alert_rules cfg) m d)
    | inr e ↦ rw e d
  ]

  samples-Distinct : (snapshot : Fields) → Distinct (keys (alert_samples doubles cfg now snapshot))
  unfolding alert_samples KeysDistinct
  samples-Distinct snapshot =
      let fleet = map_object (at_key snapshot "fleet") in
      for_each_inv KeysDistinct (region_samples doubles cfg now) region-Distinct
        (objects (at_key snapshot "regions")) _
        (elim (Bool-cases (is_true (at_key fleet "ok"))) [
          | inl e ↦ rw e (
              for_each_inv KeysDistinct (worker_samples doubles cfg now) worker-Distinct
                (objects (at_key fleet "workers")) [] tt)
          | inr e ↦ rw e tt
        ])

-- every condition follows its history
pub record Tracked (hist : String → List Sighting) (m : Table AlertCondition) : Type 0 where
  pub distinct : Distinct (keys m)
  pub follows : (j : String) (a : AlertCondition) → lookup j m ≡ some a → Follows (hist j) a

pub record Settles (hold : ℤ) (now : ℕ) (h : List Sighting) (before : Option AlertCondition)
    (b : AlertCondition) : Type 0 where
  pub follows : Follows h b
  pub settled : Settled hold now h before b

-- a condition that was there, or that is new
module _ (hold : ℤ) (now : ℕ) (h : List Sighting) (before : Option AlertCondition)
    (a b : AlertCondition) (rests : Rests now hold h a b) where
  old-Settled : before ≡ some a → Settled hold now h before b
  old-Settled e = record {
    raised = λ on. elim (rests.raised on) [ inl was ↦ inl (a, e, was) | inr run ↦ inr run ];
    dropped = λ a' e' on off. rests.dropped (cc (e, e', on)) off;
  }

  new-Settled : before ≡ none → a.firing ≡ false → Settled hold now h before b
  new-Settled e idle = record {
    raised = λ on. elim (rests.raised on) [ inl was ↦ absurd (cc (was, idle)) | inr run ↦ inr run ];
    dropped = λ a' e' on off. absurd (cc (e, e'));
  }

module _ (doubles : Doubles) (now : ℕ) (p : 1 ≤ now) (snapshot : Fields) (s : OperationsState)
    (hist : String → List Sighting) (tracked : Tracked hist s.active) where
  unfoldable pub samples : Table AlertSample
  samples = alert_samples doubles s.config now snapshot

  unfoldable pub judged : Round
  judged = judge_all doubles s.config now samples s

  start_round : Round
  start_round = record {
    active = miss samples s.active;
    history = s.history;
    messages = [];
    notified = [];
    recoveries = [];
  }

  judged-round :
      judged ≡ round doubles s.config now samples (sort text_lt (keys samples)) start_round
  unfolding judged judge_all round start_round
  judged-round = refl

  judged-missed :
      (j : String)
      → lookup j samples ≡ none
      → lookup j judged.active ≡ Option.map lose_sight (lookup j s.active)
  unfolding start_round
  judged-missed j gone =
      ap (λ r. lookup j r.active) judged-round
      ∙ round-elsewhere doubles s.config now samples j (sort text_lt (keys samples)) start_round
          (has_key-sort text_lt j (keys samples) ∙ missing-has_key j samples gone)
      ∙ miss-missed samples j s.active gone

  missed-Settles :
      (j : String) (b : AlertCondition)
      → lookup j samples ≡ none
      → lookup j judged.active ≡ some b
      → Settles s.config.hold_seconds now (silent ∷ hist j) (lookup j s.active) b
  missed-Settles j b gone there = elim (Option-cases (lookup j s.active)) [
    | inl e ↦ absurd (cc (missed_as none e, there))
    | inr (a, e) ↦
        let same : lose_sight a ≡ b = cc (missed_as (some a) e, there) in
        subst (λ c. Settles s.config.hold_seconds now (silent ∷ hist j) (lookup j s.active) c) same
          (record {
            follows = lost (hist j) a (tracked.follows j a e);
            settled = old-Settled _ now _ _ a _ (lose_sight-Rests now _ _ a) e;
          })
  ]
    where
      missed_as :
          (o : Option AlertCondition)
          → lookup j s.active ≡ o
          → lookup j judged.active ≡ Option.map lose_sight o
      missed_as o e = judged-missed j gone ∙ ap (Option.map lose_sight) e

  -- the condition that the loop judges: the one that was there, or a new one
  module _ (j : String) (m : AlertSample) (there : lookup j samples ≡ some m) where
    before : AlertCondition
    before = condition_at j m s.active

    judged-seen :
        (b : AlertCondition) × (lookup j judged.active ≡ some b) × Judges s.config now m before b
    unfolding start_round before samples alert_samples
    judged-seen =
        let keys_ = sort text_lt (keys samples) in
        let r =
          round-Judges doubles s.config now samples j m keys_ start_round there
            (sort-Distinct text_lt (keys samples) (samples-Distinct doubles s.config now snapshot))
            (has_key-sort text_lt j (keys samples) ∙ lookup-has_key j m samples there) in
        (
          r.0,
          ap (λ t. lookup j t.active) judged-round ∙ r.1,
          subst (λ a. Judges s.config now m a r.0)
              (condition_at-lookup j m start_round.active s.active
                (miss-seen samples j m s.active there))
              r.2,
        )

    before-new : lookup j s.active ≡ none → before ≡ new_condition m
    unfolding before condition_at
    before-new e = rw (e, condition_at) refl

    before-old : (a : AlertCondition) → lookup j s.active ≡ some a → before ≡ a
    unfolding before condition_at
    before-old a e = rw (e, condition_at) refl

    SeenAs : AlertCondition → List Sighting → Type 0
    SeenAs b h = Settles s.config.hold_seconds now h (lookup j s.active) b

    seen-Settles : SeenAs judged-seen.0 (sight now (some m) (hist j))
    unfolding SeenAs new_condition
    seen-Settles =
        let b = judged-seen.0 in
        elim (Option-cases (lookup j s.active)) [
          | inl e ↦
              let a = new_condition m in
              let f : Follows (hist j) a = created (hist j) m in
              let judges : Judges s.config now m a b =
                subst (λ c. Judges s.config now m c b) (before-new e) judged-seen.2 in
              record {
                follows = Judges-Follows now s.config m (hist j) a b p f judges;
                settled =
                    new-Settled _ now _ _ a b (Judges-Rests now s.config m (hist j) a b p f judges)
                      e refl;
              }
          | inr (a, e) ↦
              let f = tracked.follows j a e in
              let judges : Judges s.config now m a b =
                subst (λ c. Judges s.config now m c b) (before-old a e) judged-seen.2 in
              record {
                follows = Judges-Follows now s.config m (hist j) a b p f judges;
                settled =
                    old-Settled _ now _ _ a b (Judges-Rests now s.config m (hist j) a b p f judges)
                      e;
              }
        ]

  pub judged-Settles :
      (j : String) (b : AlertCondition)
      → lookup j judged.active ≡ some b
      → Settles s.config.hold_seconds now
          (sight now (lookup j samples) (hist j))
          (lookup j s.active)
          b
  unfolding sight SeenAs
  judged-Settles j b there = elim (Option-cases (lookup j samples)) [
    | inl gone ↦ rw gone (missed-Settles j b gone there)
    | inr (m, e) ↦
        let same : (judged-seen j m e).0 ≡ b = cc ((judged-seen j m e).1, there) in
        rw e (subst (λ c. SeenAs j m e c (sight now (some m) (hist j))) same (seen-Settles j m e))
  ]

  pub judged-Distinct : Distinct (keys judged.active)
  unfolding start_round
  judged-Distinct =
      subst (λ r. Distinct (keys r.active)) (sym judged-round)
        (round-Distinct doubles s.config now samples (sort text_lt (keys samples)) start_round
          (subst Distinct (sym (keys-miss samples s.active)) tracked.distinct))

-- what an evaluation that is written has seen
unfoldable pub sights :
    Doubles → ℕ → Fields → OperationsState → (String → List Sighting) → String → List Sighting
sights doubles now snapshot s hist j =
    sight now (lookup j (alert_samples doubles s.config now snapshot)) (hist j)

unfoldable pub evaluated_state : Doubles → ℕ → Fields → OperationsState → OperationsState
evaluated_state doubles now snapshot s =
    next_operations doubles now
      (judge_all doubles s.config now (alert_samples doubles s.config now snapshot) s) s
