-- ===== src/Console/Alerts/Holding.antt =====
-- A condition raises an alert only after it has been observed as breached for the whole hold, and
-- drops it only after it has been observed as healthy for as long (evaluate of
-- internal/console/alerts.go). Histories of one condition are step relations.
use mathlib.Core.Path.{subst}
use nakama_agones.Prelude.{
  ℕ, ◌+◌, ◌≤◌, ◌≡◌, refl, sym, Bool, true, false, List, ◌∷◌, arith, number_Eq, Bool-cases, ◌⊎◌, inl,
  inr, ◌==◌, ◌||◌,
}
use nakama_agones.Prelude.Int.{ℤ, leb_ℤ}
use nakama_agones.Console.Alerts.{AlertSample, AlertCondition, elapsed}
use nakama_agones.Console.Alerts.Conditions.{
  new_condition, lose_sight, gap, start, held, observe_breach, observe_health, observe,
}

-- what one evaluation saw of a condition
pub data Sighting : Type 0 where
  silent : Sighting
  seen : ℕ → Bool → Sighting

-- The latest sightings, from `first` to `last`, all say `breached`, with at most 20 seconds between
-- two of them.
pub data Run (breached : Bool) : List Sighting → ℕ → ℕ → Type 0 where
  one : (now : ℕ) (h : List Sighting) → 1 ≤ now → Run breached (seen now breached ∷ h) now now
  more :
      (now : ℕ) (h : List Sighting) (first last : ℕ)
      → Run breached h first last
      → now ≤ last + 20
      → 1 ≤ now
      → Run breached (seen now breached ∷ h) first now

-- A condition's history, the latest sighting first. A condition that was forgotten is created anew.
-- Notices change neither what is observed nor
-- the start of the hold.
pub data Follows : List Sighting → AlertCondition → Type 0 where
  created : (h : List Sighting) (s : AlertSample) → Follows h (new_condition s)
  lost :
      (h : List Sighting) (a : AlertCondition) → Follows h a → Follows (silent ∷ h) (lose_sight a)
  observed :
      (h : List Sighting) (a : AlertCondition) (hold : ℤ) (now : ℕ) (s : AlertSample)
      → Follows h a
      → 1 ≤ now
      → Follows (seen now s.breached ∷ h) (observe hold now s a).0
  noticed :
      (h : List Sighting) (a : AlertCondition) (attempt success : ℕ) (pending : Bool)
      → Follows h a
      → Follows h (record a {
        last_attempt_at = attempt;
        last_notified_at = success;
        recovery_pending = pending;
      })

-- Where a hold has begun, it is as old as the run of sightings that it counts.
pub record Held (h : List Sighting) (a : AlertCondition) : Type 0 where
  pub rising : a.firing ≡ false → (a.since ≡ 0) ⊎ Run true h a.since a.last_observed_at
  pub falling :
      a.firing ≡ true → (a.recovery_since ≡ 0) ⊎ Run false h a.recovery_since a.last_observed_at

Run-positive : (b : Bool) (h : List Sighting) (first last : ℕ) → Run b h first last → 1 ≤ last
Run-positive b _ _ _ (one now h p) = p
Run-positive b _ _ _ (more now h first last r near p) = p

-- The hold that `start` begins or continues is as old as the run that ends now.
start-Run :
    (b : Bool) (h : List Sighting) (now since : ℕ) (a : AlertCondition)
    → 1 ≤ now
    → (since ≡ 0) ⊎ Run b h since a.last_observed_at
    → Run b (seen now b ∷ h) (start now (gap now a) since) now
unfolding start gap elapsed
start-Run b h now since a p (inl e) = rw e (one now h p)
start-Run b h now since a p (inr r) = elim (Bool-cases (since == 0 || gap now a)) [
  | inl e ↦ rw e (one now h p)
  | inr e ↦ rw e (
      more now h since a.last_observed_at r
        (ground (arith, Run-positive b h since a.last_observed_at r)) p)
]

new_condition-Held : (h : List Sighting) (s : AlertSample) → Held h (new_condition s)
unfolding new_condition
new_condition-Held h s = record { rising = λ e. inl refl; falling = λ e. inl refl }

lose_sight-Held :
    (h : List Sighting) (a : AlertCondition) → Held h a → Held (silent ∷ h) (lose_sight a)
unfolding lose_sight
lose_sight-Held h a i = record { rising = λ idle. rw idle (inl refl); falling = λ firing. inl refl }

-- what a judgement leaves, with the run that it stands on where it changes `firing`
pub record Judged (h : List Sighting) (hold : ℤ) (now : ℕ) (a b : AlertCondition) : Type 0 where
  pub after : Held h b
  pub raised :
      a.firing ≡ false
      → b.firing ≡ true
      → (first : ℕ) × Run true h first now × (leb_ℤ hold (elapsed now first) ≡ true)
  pub dropped :
      a.firing ≡ true
      → b.firing ≡ false
      → (first : ℕ) × Run false h first now × (leb_ℤ hold (elapsed now first) ≡ true)

module _ (h : List Sighting) (hold : ℤ) (now : ℕ) (s : AlertSample) (a : AlertCondition)
    (p : 1 ≤ now) (i : Held h a) where
  breach-Judged : s.breached ≡ true → Judged (seen now true ∷ h) hold now a (observe hold now s a).0
  unfolding observe observe_breach held
  breach-Judged hit = elim (Bool-cases a.firing) [
    | inl on ↦
        rw (hit, on)
          (record {
            after = record { rising = λ e. absurd (cc e); falling = λ e. inl refl };
            raised = λ e. absurd (cc e);
            dropped = λ e f. absurd (cc f);
          })
    | inr off ↦
        let run = start-Run true h now a.since a p (i.rising off) in
        elim (Bool-cases (held hold now (start now (gap now a) a.since))) [
          | inl long ↦
              rw (hit, off, long)
                (record {
                  after = record { rising = λ e. absurd (cc e); falling = λ e. inl refl };
                  raised = λ e f. (start now (gap now a) a.since, run, long);
                  dropped = λ e. absurd (cc e);
                })
          | inr short ↦
              rw (hit, off, short)
                (record {
                  after = record { rising = λ e. inr run; falling = λ e. absurd (cc e) };
                  raised = λ e f. absurd (cc f);
                  dropped = λ e. absurd (cc e);
                })
        ]
  ]

  health-Judged :
      s.breached ≡ false → Judged (seen now false ∷ h) hold now a (observe hold now s a).0
  unfolding observe observe_health held
  health-Judged well = elim (Bool-cases a.firing) [
    | inr off ↦
        rw (well, off)
          (record {
            after = record { rising = λ e. inl refl; falling = λ e. absurd (cc e) };
            raised = λ e f. absurd (cc f);
            dropped = λ e. absurd (cc e);
          })
    | inl on ↦
        let run = start-Run false h now a.recovery_since a p (i.falling on) in
        elim (Bool-cases (held hold now (start now (gap now a) a.recovery_since))) [
          | inl long ↦
              rw (well, on, long)
                (record {
                  after = record { rising = λ e. inl refl; falling = λ e. absurd (cc e) };
                  raised = λ e. absurd (cc e);
                  dropped = λ e f. (start now (gap now a) a.recovery_since, run, long);
                })
          | inr short ↦
              rw (well, on, short)
                (record {
                  after = record { rising = λ e. absurd (cc e); falling = λ e. inr run };
                  raised = λ e. absurd (cc e);
                  dropped = λ e f. absurd (cc f);
                })
        ]
  ]

  SightedAs : Bool → Type 0
  SightedAs b = Judged (seen now b ∷ h) hold now a (observe hold now s a).0

  observe-Judged : Judged (seen now s.breached ∷ h) hold now a (observe hold now s a).0
  unfolding SightedAs
  observe-Judged = elim (Bool-cases s.breached) [
    | inl hit ↦ subst SightedAs (sym hit) (breach-Judged hit)
    | inr well ↦ subst SightedAs (sym well) (health-Judged well)
  ]

Follows-Held : (h : List Sighting) (a : AlertCondition) → Follows h a → Held h a
Follows-Held _ _ (created h s) = new_condition-Held h s
Follows-Held _ _ (lost h a f) = lose_sight-Held h a (Follows-Held h a f)
Follows-Held _ _ (observed h a hold now s f p) =
    (observe-Judged h hold now s a p (Follows-Held h a f)).after
Follows-Held _ _ (noticed h a attempt success pending f) =
    let i = Follows-Held h a f in record { rising = i.rising; falling = i.falling }

-- Whatever a condition has been through, an observation makes it fire only at the end of a run of
-- sightings that were all breached, with at most 20 seconds between two of them, that has lasted
-- at least the hold; and it stops firing only at the end of such a run of healthy ones. A sighting
-- that was lost or came too late starts the hold again.
pub observe-Held :
    (h : List Sighting) (a : AlertCondition) (hold : ℤ) (now : ℕ) (s : AlertSample)
    → Follows h a
    → 1 ≤ now
    → Judged (seen now s.breached ∷ h) hold now a (observe hold now s a).0
observe-Held h a hold now s f p = observe-Judged h hold now s a p (Follows-Held h a f)
