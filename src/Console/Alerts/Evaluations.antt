-- ===== src/Console/Alerts/Evaluations.antt =====
-- Alerts are raised and dropped by whole evaluations (internal/console/alerts.go), whatever is
-- delivered and configured between them.
use mathlib.Core.Path.{subst}
use nakama_agones.Prelude.{
  ℕ, ◌≤◌, ◌≡◌, refl, sym, ◌∙◌, ap, String, Bool, true, false, not, some, List, [], ◌∷◌, length,
  arith, Bool-cases, Option-cases, ◌⊎◌, inl, inr, ltb, ◌==◌, text_Eq, number_Eq, for_each_inv,
}
use nakama_agones.Prelude.Int.{integer_Eq}
use nakama_agones.Prelude.Table.{Table, lookup, modify, keys}
use nakama_agones.Prelude.Table.Laws.{lookup-modify}
use nakama_agones.Prelude.Table.Distinct.{Distinct}
use nakama_agones.Console.Values.{Fields}
use nakama_agones.Console.Alerts.{AlertCondition, OperationsState, Storage, save}
use nakama_agones.Console.Alerts.Samples.{Doubles}
use nakama_agones.Console.Alerts.Evaluate.{
  Notice, next_operations, evaluate, notified_condition, delivered, after_sending,
}
use nakama_agones.Console.Alerts.Update.{AlertUpdate, update_alerts, updated}
use nakama_agones.Console.Alerts.Holding.{Sighting, Follows, noticed}
use nakama_agones.Console.Alerts.Histories.{
  Settled, same-Settled, forget_quiet-Distinct, lookup-forget_quiet,
}
use nakama_agones.Console.Alerts.Reached.{
  Tracked, Settles, sights, evaluated_state, samples, judged, judged-Settles, judged-Distinct,
}

-- What was seen is remembered by an evaluation whose state was written; another has no effect.
pub data Reached (doubles : Doubles) : (String → List Sighting) → OperationsState → Type 0 where
  opened : (s : OperationsState) → s.active ≡ [] → Reached doubles (λ j. []) s
  evaluated :
      (hist : String → List Sighting) (s : OperationsState) (now : ℕ) (snapshot : Fields)
      → Reached doubles hist s
      → 1 ≤ now
      → Reached doubles
          (sights doubles now snapshot s hist)
          (evaluated_state doubles now snapshot s)
  sent :
      (hist : String → List Sighting) (s : OperationsState) (n : Notice) (failed : Bool)
      (disk : Storage)
      → Reached doubles hist s
      → Reached doubles hist (after_sending n failed disk s)
  changed :
      (hist : String → List Sighting) (s : OperationsState) (valid : String → Bool) (now : ℕ)
      (u : AlertUpdate) (actor : String) (disk : Storage)
      → Reached doubles hist s
      → Reached doubles hist (update_alerts valid now u actor disk s).0

save-cases :
    (disk : Storage) (old next : OperationsState)
    → ((save disk old next).0 ≡ old) ⊎ ((save disk old next).0 ≡ next)
unfolding save
save-cases Storage.written old next = inr refl
save-cases (Storage.refused e) old next = inl refl
save-cases (Storage.unsynced e) old next = inr refl

-- An evaluation leaves the state as it was, or writes what it judged.
evaluate-cases :
    (doubles : Doubles) (now : ℕ) (snapshot : Fields) (disk : Storage) (s : OperationsState)
    → ((evaluate doubles now snapshot disk s).0 ≡ s)
      ⊎ ((evaluate doubles now snapshot disk s).0 ≡ evaluated_state doubles now snapshot s)
unfolding evaluate evaluated_state
evaluate-cases doubles now snapshot disk s =
    let next = evaluated_state doubles now snapshot s in
    elim (Bool-cases (not s.config.enabled)) [
      | inl off ↦ rw off (inl refl)
      | inr on ↦ elim (Bool-cases (ltb 5000 (length next.active))) [
        | inl full ↦ rw (on, full) (inl refl)
        | inr fits ↦ elim (Option-cases (save disk s next).1) [
          | inl e ↦ rw (on, fits, e) (save-cases disk s next)
          | inr (x, e) ↦ rw (on, fits, e) (save-cases disk s next)
        ]
      ]
    ]

update_alerts-active :
    (valid : String → Bool) (now : ℕ) (u : AlertUpdate) (actor : String) (disk : Storage)
    (s : OperationsState)
    → (update_alerts valid now u actor disk s).0.active ≡ s.active
unfolding update_alerts updated
update_alerts-active valid now u actor disk s =
    elim (save-cases disk s (updated valid now u actor s)) [
      | inl e ↦ ground (arith, e)
      | inr e ↦ ground (arith, e)
    ]

keys-modify : {V : Type 0} (k : String) (f : V → V) (m : Table V) → keys (modify k f m) ≡ keys m
unfolding modify
keys-modify k f [] = refl
keys-modify k f ((j, v) ∷ m) = ground (arith, keys-modify k f m)

noticed-Follows :
    (n : Notice) (key : String) (h : List Sighting) (a : AlertCondition)
    → Follows h a
    → Follows h (notified_condition n key a)
unfolding notified_condition
noticed-Follows n key h a f = noticed h a a.last_attempt_at n.at _ f

modify-Tracked :
    (n : Notice) (key : String) (hist : String → List Sighting) (m : Table AlertCondition)
    → Tracked hist m
    → Tracked hist (modify key (notified_condition n key) m)
modify-Tracked n key hist m t = record {
  distinct = subst Distinct (sym (keys-modify key (notified_condition n key) m)) t.distinct;
  follows = λ j b e. elim (Bool-cases (key == j)) [
    | inr other ↦ t.follows j b (ground (arith, lookup-modify key j (notified_condition n key) m))
    | inl same ↦ elim (Option-cases (lookup j m)) [
      | inl gone ↦ absurd (ground (arith, lookup-modify key j (notified_condition n key) m))
      | inr (a, there) ↦
          subst (Follows (hist j)) (modified j b a e same there)
            (noticed-Follows n key (hist j) a (t.follows j a there))
    ]
  ];
}
  where
    modified :
        (j : String) (b a : AlertCondition)
        → lookup j (modify key (notified_condition n key) m) ≡ some b
        → (key == j) ≡ true
        → lookup j m ≡ some a
        → notified_condition n key a ≡ b
    modified j b a e same there = ground (arith, lookup-modify key j (notified_condition n key) m)

delivered-Tracked :
    (n : Notice) (failed : Bool) (hist : String → List Sighting) (s : OperationsState)
    → Tracked hist s.active
    → Tracked hist (delivered n failed s).active
unfolding delivered
delivered-Tracked n true hist s t = t
delivered-Tracked n false hist s t =
    for_each_inv (Tracked hist) (λ key. modify key (notified_condition n key))
      (λ key m. modify-Tracked n key hist m) n.notified s.active t

sent-Tracked :
    (n : Notice) (failed : Bool) (disk : Storage) (hist : String → List Sighting)
    (s : OperationsState)
    → Tracked hist s.active
    → Tracked hist (after_sending n failed disk s).active
unfolding after_sending
sent-Tracked n failed disk hist s t = elim (Bool-cases (s.revision == n.revision)) [
  | inr late ↦ rw late t
  | inl current ↦ elim (save-cases disk s (delivered n failed s)) [
    | inl e ↦ rw (current, e) t
    | inr e ↦ rw (current, e) (delivered-Tracked n failed hist s t)
  ]
]

module _ (doubles : Doubles) (now : ℕ) (p : 1 ≤ now) (snapshot : Fields) (s : OperationsState)
    (hist : String → List Sighting) (t : Tracked hist s.active) where
  written-Settles :
      (j : String) (b : AlertCondition)
      → lookup j (evaluated_state doubles now snapshot s).active ≡ some b
      → Settles s.config.hold_seconds now
          (sights doubles now snapshot s hist j)
          (lookup j s.active)
          b
  unfolding evaluated_state next_operations sights judged samples
  written-Settles j b e =
      judged-Settles doubles now p snapshot s hist t j b
        (lookup-forget_quiet now j b _ (judged-Distinct doubles now p snapshot s hist t) e)

  written-Tracked :
      Tracked (sights doubles now snapshot s hist) (evaluated_state doubles now snapshot s).active
  unfolding evaluated_state next_operations judged samples
  written-Tracked = record {
    distinct = forget_quiet-Distinct now _ (judged-Distinct doubles now p snapshot s hist t);
    follows = λ j b e. (written-Settles j b e).follows;
  }

none-Tracked : (hist : String → List Sighting) → Tracked hist []
unfolding lookup
none-Tracked hist = record { distinct = tt; follows = λ j a e. absurd (cc e) }

Reached-Tracked :
    (doubles : Doubles) (hist : String → List Sighting) (s : OperationsState)
    → Reached doubles hist s
    → Tracked hist s.active
Reached-Tracked doubles _ _ (opened s e) =
    subst (Tracked (λ j. [])) (sym e) (none-Tracked (λ j. []))
Reached-Tracked doubles _ _ (evaluated hist s now snapshot r p) =
    written-Tracked doubles now p snapshot s hist (Reached-Tracked doubles hist s r)
Reached-Tracked doubles _ _ (sent hist s n failed disk r) =
    sent-Tracked n failed disk hist s (Reached-Tracked doubles hist s r)
Reached-Tracked doubles _ _ (changed hist s valid now u actor disk r) =
    subst (Tracked hist) (sym (update_alerts-active valid now u actor disk s))
      (Reached-Tracked doubles hist s r)

-- In every state that evaluations, deliveries and changes of the configuration lead to, an
-- evaluation makes a condition fire only if the latest sightings of it, this one included, were
-- all breached, with at most 20 seconds between two of them, for at least the hold that is
-- configured; and it ends an alert only after such a run of healthy sightings. A missing or
-- unknown sample breaks both.
pub evaluate-Settled :
    (doubles : Doubles) (hist : String → List Sighting) (s : OperationsState) (now : ℕ)
    (snapshot : Fields) (disk : Storage) (j : String) (b : AlertCondition)
    → Reached doubles hist s
    → 1 ≤ now
    → lookup j (evaluate doubles now snapshot disk s).0.active ≡ some b
    → Settled s.config.hold_seconds now (sights doubles now snapshot s hist j) (lookup j s.active) b
evaluate-Settled doubles hist s now snapshot disk j b r p there =
    elim (evaluate-cases doubles now snapshot disk s) [
      | inl same ↦ same-Settled _ now _ _ b (ap (λ t. lookup j t.active) (sym same) ∙ there)
      | inr new ↦
          (written-Settles doubles now p snapshot s hist (Reached-Tracked doubles hist s r) j b
            (ap (λ t. lookup j t.active) (sym new) ∙ there)).settled
    ]
