-- ===== src/Console/Alerts/Histories.antt =====
-- The conditions of the whole state through evaluations, deliveries and changes of the
-- configuration (internal/console/alerts.go): each has its own history of sightings.
use mathlib.Core.Path.{subst}
use mathlib.Core.Option
use nakama_agones.Prelude.{
  ℕ, ◌≤◌, ◌≡◌, refl, sym, ◌∙◌, ap, String, true, false, Option, none, some, List, [], ◌∷◌, arith,
  Bool-cases, ◌⊎◌, inl, inr, text_Eq, number_Eq, if◌then◌else◌, eq_iff,
}
use nakama_agones.Prelude.Int.{ℤ, leb_ℤ}
use nakama_agones.Prelude.Table.{Table, lookup, keys}
use nakama_agones.Prelude.Table.Distinct.{has_key, Distinct, lookup-has_key}
use nakama_agones.Console.Alerts.{AlertConfig, AlertSample, AlertCondition, elapsed}
use nakama_agones.Console.Alerts.Conditions.{lose_sight, observe}
use nakama_agones.Console.Alerts.Evaluate.{miss, forgotten, forget_quiet}
use nakama_agones.Console.Alerts.Holding.{
  Sighting, silent, seen, Run, Follows, lost, observed, noticed, observe-Held,
}
use nakama_agones.Console.Alerts.Raising.{Judges, blind, quiet, told}

-- one more sighting
unfoldable pub sight : ℕ → Option AlertSample → List Sighting → List Sighting
sight now none h = silent ∷ h
sight now (some s) h = if s.known then seen now s.breached ∷ h else silent ∷ h

-- How a condition may differ from what it was, if it was there.
pub record Settled (hold : ℤ) (now : ℕ) (h : List Sighting) (before : Option AlertCondition)
    (b : AlertCondition) : Type 0 where
  pub raised :
      b.firing ≡ true
      → ((a : AlertCondition) × (before ≡ some a) × (a.firing ≡ true))
        ⊎ ((first : ℕ) × Run true h first now × (leb_ℤ hold (elapsed now first) ≡ true))
  pub dropped :
      (a : AlertCondition)
      → before ≡ some a
      → a.firing ≡ true
      → b.firing ≡ false
      → (first : ℕ) × Run false h first now × (leb_ℤ hold (elapsed now first) ≡ true)

pub same-Settled :
    (hold : ℤ) (now : ℕ) (h : List Sighting) (before : Option AlertCondition) (b : AlertCondition)
    → before ≡ some b
    → Settled hold now h before b
same-Settled hold now h before b e = record {
  raised = λ on. inl (b, e, on);
  dropped = λ a e' on off. absurd (cc (e, e', on, off));
}

module _ (now : ℕ) where
  sight-unknown :
      (s : AlertSample) (h : List Sighting) → s.known ≡ false → sight now (some s) h ≡ silent ∷ h
  unfolding sight
  sight-unknown s h e = rw e refl

  sight-known :
      (s : AlertSample) (h : List Sighting)
      → s.known ≡ true
      → sight now (some s) h ≡ seen now s.breached ∷ h
  unfolding sight
  sight-known s h e = rw e refl

  pub Judges-Follows :
      (cfg : AlertConfig) (s : AlertSample) (h : List Sighting) (a b : AlertCondition)
      → 1 ≤ now
      → Follows h a
      → Judges cfg now s a b
      → Follows (sight now (some s) h) b
  Judges-Follows cfg s h a _ p f (blind e) =
      subst (λ l. Follows l (lose_sight a)) (sym (sight-unknown s h e)) (lost h a f)
  Judges-Follows cfg s h a _ p f (quiet e) =
      subst (λ l. Follows l (observe cfg.hold_seconds now s a).0) (sym (sight-known s h e))
        (observed h a cfg.hold_seconds now s f p)
  Judges-Follows cfg s h a _ p f (told e) =
      let o = (observe cfg.hold_seconds now s a).0 in
      subst (λ l. Follows l (record o { last_attempt_at = now })) (sym (sight-known s h e))
        (noticed _ o now o.last_notified_at o.recovery_pending
          (observed h a cfg.hold_seconds now s f p))

  -- the runs that a judgement stands on
  pub record Rests (hold : ℤ) (h : List Sighting) (a b : AlertCondition) : Type 0 where
    pub raised :
        b.firing ≡ true
        → (a.firing ≡ true)
          ⊎ ((first : ℕ) × Run true h first now × (leb_ℤ hold (elapsed now first) ≡ true))
    pub dropped :
        a.firing ≡ true
        → b.firing ≡ false
        → (first : ℕ) × Run false h first now × (leb_ℤ hold (elapsed now first) ≡ true)

  pub lose_sight-Rests :
      (hold : ℤ) (h : List Sighting) (a : AlertCondition) → Rests hold h a (lose_sight a)
  unfolding lose_sight
  lose_sight-Rests hold h a = record {
    raised = λ on. inl on;
    dropped = λ on off. absurd (cc (on, off));
  }

  -- what a change of the notices' times keeps
  observe-Rests :
      (hold : ℤ) (s : AlertSample) (h : List Sighting) (a b : AlertCondition)
      → 1 ≤ now
      → Follows h a
      → b.firing ≡ (observe hold now s a).0.firing
      → Rests hold (seen now s.breached ∷ h) a b
  observe-Rests hold s h a b p f same =
      let judged = observe-Held h a hold now s f p in
      record {
        raised = λ on. elim (Bool-cases a.firing) [
          | inl was ↦ inl was
          | inr off ↦ inr (judged.raised off (sym same ∙ on))
        ];
        dropped = λ on off. judged.dropped on (sym same ∙ off);
      }

  pub Judges-Rests :
      (cfg : AlertConfig) (s : AlertSample) (h : List Sighting) (a b : AlertCondition)
      → 1 ≤ now
      → Follows h a
      → Judges cfg now s a b
      → Rests cfg.hold_seconds (sight now (some s) h) a b
  Judges-Rests cfg s h a _ p f (blind e) =
      lose_sight-Rests cfg.hold_seconds (sight now (some s) h) a
  Judges-Rests cfg s h a b p f (quiet e) =
      subst (λ l. Rests cfg.hold_seconds l a b) (sym (sight-known s h e))
        (observe-Rests cfg.hold_seconds s h a b p f refl)
  Judges-Rests cfg s h a b p f (told e) =
      subst (λ l. Rests cfg.hold_seconds l a b) (sym (sight-known s h e))
        (observe-Rests cfg.hold_seconds s h a b p f refl)

-- Conditions that no sample is about, and those that are forgotten.
module _ (samples : Table AlertSample) where
  pub keys-miss : (m : Table AlertCondition) → keys (miss samples m) ≡ keys m
  unfolding miss
  keys-miss [] = refl
  keys-miss ((k, a) ∷ m) = ap (λ ks. k ∷ ks) (keys-miss m)

  pub miss-seen :
      (j : String) (s : AlertSample) (m : Table AlertCondition)
      → lookup j samples ≡ some s
      → lookup j (miss samples m) ≡ lookup j m
  unfolding miss lookup
  miss-seen j s [] e = refl
  miss-seen j s ((k, a) ∷ m) e = ground (arith, eq_iff k j, miss-seen j s m e)

  pub miss-missed :
      (j : String) (m : Table AlertCondition)
      → lookup j samples ≡ none
      → lookup j (miss samples m) ≡ Option.map lose_sight (lookup j m)
  unfolding miss lookup
  miss-missed j [] e = refl
  miss-missed j ((k, a) ∷ m) e = ground (arith, eq_iff k j, miss-missed j m e)

module _ (now : ℕ) where
  has_key-forget_quiet :
      (j : String) (m : Table AlertCondition)
      → has_key j (keys m) ≡ false
      → has_key j (keys (forget_quiet now m)) ≡ false
  unfolding forget_quiet
  has_key-forget_quiet j [] h = refl
  has_key-forget_quiet j ((k, a) ∷ m) h = ground (arith, has_key-forget_quiet j m)

  pub forget_quiet-Distinct :
      (m : Table AlertCondition) → Distinct (keys m) → Distinct (keys (forget_quiet now m))
  unfolding forget_quiet
  forget_quiet-Distinct [] d = tt
  forget_quiet-Distinct ((k, a) ∷ m) d = elim (Bool-cases (forgotten now a)) [
    | inl e ↦ rw e (forget_quiet-Distinct m d.1)
    | inr e ↦ rw e (has_key-forget_quiet k m d.0, forget_quiet-Distinct m d.1)
  ]

  pub lookup-forget_quiet :
      (j : String) (b : AlertCondition) (m : Table AlertCondition)
      → Distinct (keys m)
      → lookup j (forget_quiet now m) ≡ some b
      → lookup j m ≡ some b
  unfolding forget_quiet lookup
  lookup-forget_quiet j b [] d e = e
  lookup-forget_quiet j b ((k, a) ∷ m) d e =
      ground (arith, eq_iff k j, lookup-forget_quiet j b m d.1, d.0, lookup-has_key j b m)
