-- ===== src/Console/Alerts/Attempts.antt =====
-- The record of the attempts to send (evaluate of internal/console/alerts.go).
use nakama_agones.Prelude.{
  ℕ, ◌≡◌, refl, ◌∙◌, ap, String, false, some, List, [], ◌∷◌, ◌++◌, length, arith, Bool-cases,
  Option-cases, inl, inr, ◌==◌, text_Eq, text_lt, for_each_inv, sort, eq_iff,
}
use nakama_agones.Prelude.Table.{Table, lookup, insert, keys}
use nakama_agones.Prelude.Table.Laws.{All, All-map, lookup-insert}
use nakama_agones.Console.Alerts.{
  AlertConfig, AlertSample, AlertCondition, OperationsState, elapsed,
}
use nakama_agones.Console.Alerts.Samples.{Doubles}
use nakama_agones.Console.Alerts.Conditions.{
  lose_sight, observe, observe_breach, observe_health, should_notify,
}
use nakama_agones.Console.Alerts.Evaluate.{
  Round, condition_at, notify, judge_known, judge, judge_key, judge_all, forgotten, forget_quiet,
}

All-snoc :
    {A : Type 0} (P : A → Type 0) (xs : List A) (x : A) → All P xs → P x → All P (xs ++ x ∷ [])
All-snoc P [] x h p = (p, tt)
All-snoc P (y ∷ xs) x h p = (h.0, All-snoc P xs x h.1 p)

module _ (now : ℕ) where
  -- a condition that was seen now, and about which a notice was attempted now
  pub record Marked (a : AlertCondition) : Type 0 where
    pub attempted : a.last_attempt_at ≡ now
    pub seen : a.last_observed_at ≡ now

  pub Attempted : Table AlertCondition → String → Type 0
  Attempted active key = (a : AlertCondition) × (lookup key active ≡ some a) × Marked a

  forget_quiet-keeps :
      (active : Table AlertCondition) (key : String) (a : AlertCondition)
      → lookup key active ≡ some a
      → forgotten now a ≡ false
      → lookup key (forget_quiet now active) ≡ some a
  unfolding forget_quiet lookup
  forget_quiet-keeps [] key a e h = absurd (cc e)
  forget_quiet-keeps ((k, b) ∷ active) key a e h = elim (Bool-cases (k == key)) [
    | inl same ↦
        let found : some b ≡ some a = rw same at e in
        let stays : forgotten now b ≡ false = ap (forgotten now) (some_inj b a found) ∙ h in
        rw (stays, same) found
    | inr other ↦
        let rest = forget_quiet-keeps active key a (rw other at e) h in
        elim (Bool-cases (forgotten now b)) [
          | inl gone ↦ rw gone rest
          | inr stays ↦ rw (stays, other) rest
        ]
  ]
    where
      some_inj : (v u : AlertCondition) → some v ≡ some u → v ≡ u
      some_inj v u h = cc

  Marked-remembered : (a : AlertCondition) → Marked a → forgotten now a ≡ false
  unfolding forgotten elapsed
  Marked-remembered a m = ground (arith, m.seen)

  pub forget_quiet-Attempted :
      (active : Table AlertCondition) (key : String)
      → Attempted active key
      → Attempted (forget_quiet now active) key
  unfolding Attempted
  forget_quiet-Attempted active key (a, found, marked) =
      (a, forget_quiet-keeps active key a found (Marked-remembered a marked), marked)

module _ (doubles : Doubles) (cfg : AlertConfig) (now : ℕ) where
  observe-attempt :
      (s : AlertSample) (a : AlertCondition)
      → ((observe cfg.hold_seconds now s a).0.last_attempt_at ≡ a.last_attempt_at)
        × ((observe cfg.hold_seconds now s a).0.last_observed_at ≡ now)
  unfolding observe observe_breach observe_health
  observe-attempt s a = ground arith

  Noted : Round → Type 0
  Noted r = All (Attempted now r.active) r.notified

  insert-Attempted :
      (active : Table AlertCondition) (key : String) (b : AlertCondition)
      → (Attempted now active key → Marked now b)
      → (keys_ : List String) → All (Attempted now active) keys_
      → All (Attempted now (insert key b active)) keys_
  unfolding Attempted
  insert-Attempted active key b mark keys_ h = All-map each keys_ h
    where
      each : (k : String) → Attempted now active k → Attempted now (insert key b active) k
      each k (a, found, marked) = elim (Bool-cases (key == k)) [
        | inl same ↦ (
          b,
          lookup-insert key k b active ∙ rw same refl,
          mark (a, ground (arith, eq_iff key k, found), marked),
        )
        | inr other ↦ (a, lookup-insert key k b active ∙ rw other found, marked)
      ]

  judge_known-Noted :
      (key : String) (s : AlertSample) (r : Round)
      → Noted r
      → Noted (judge_known doubles cfg now key s (condition_at key s r.active) r)
  unfolding judge_known notify condition_at Noted Attempted
  judge_known-Noted key s r h =
      let a = condition_at key s r.active in
      let b = (observe cfg.hold_seconds now s a).0 in
      let kept : Attempted now r.active key → Marked now b = (λ (old, found, marked). record {
        attempted = (observe-attempt s a).0 ∙ at_lookup r.active old found marked.attempted;
        seen = (observe-attempt s a).1;
      }) in
      let h₁ = insert-Attempted r.active key b kept r.notified h in
      elim (Bool-cases (should_notify cfg now (length r.notified) b)) [
        | inr off ↦ rw off h₁
        | inl on ↦
            let c : AlertCondition = record b { last_attempt_at = now } in
            let m : Marked now c = record { attempted = refl; seen = (observe-attempt s a).1 } in
            rw on (
              All-snoc _ r.notified key
                (insert-Attempted (insert key b r.active) key c (λ old. m) r.notified h₁)
                (
                  c,
                  ground (arith, lookup-insert key key c (insert key b r.active), eq_iff key key),
                  m,
                ))
      ]
    where
      at_lookup :
          (active : Table AlertCondition) (old : AlertCondition)
          → lookup key active ≡ some old
          → old.last_attempt_at ≡ now
          → (condition_at key s active).last_attempt_at ≡ now
      at_lookup active old found e = rw (found, condition_at) e

  judge-Noted :
      (key : String) (s : AlertSample) (r : Round) → Noted r → Noted (judge doubles cfg now key s r)
  unfolding judge Noted Attempted condition_at lose_sight
  judge-Noted key s r h = elim (Bool-cases s.known) [
    | inl e ↦ rw e (judge_known-Noted key s r h)
    | inr e ↦ rw e (
        insert-Attempted r.active key (lose_sight (condition_at key s r.active))
          (λ (old, found, marked). record {
            attempted = rw (found, condition_at) marked.attempted;
            seen = rw (found, condition_at) marked.seen;
          })
          r.notified h)
  ]

  judge_key-Noted :
      (samples : Table AlertSample) (key : String) (r : Round)
      → Noted r
      → Noted (judge_key doubles cfg now samples key r)
  unfolding judge_key
  judge_key-Noted samples key r h = elim (Option-cases (lookup key samples)) [
    | inl e ↦ rw (e, judge_key) h
    | inr (s, e) ↦ rw (e, judge_key) (judge-Noted key s r h)
  ]

  -- of all keys about which the loop wants to send, the conditions are marked
  pub judge_all-Attempted :
      (samples : Table AlertSample) (s : OperationsState)
      → All
          (Attempted now (judge_all doubles cfg now samples s).active)
          (judge_all doubles cfg now samples s).notified
  unfolding judge_all Noted
  judge_all-Attempted samples s =
      for_each_inv Noted (judge_key doubles cfg now samples) (judge_key-Noted samples)
        (sort text_lt (keys samples)) _ tt
