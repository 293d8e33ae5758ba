-- ===== src/Console/Alerts/Revisions.antt =====
-- Changes of the alerts by several operators, and notices that are under way meanwhile
-- (internal/console/alerts.go).
use nakama_agones.Prelude.{
  ℕ, ◌+◌, ◌≡◌, refl, String, Bool, true, false, ◌&&◌, some, arith, Bool-cases, ◌⊎◌, inl, inr, ◌==◌,
  text_Eq, number_Eq,
}
use nakama_agones.Prelude.Int.{pos, integer_Eq, eqb_ℤ, eqb_ℤ_iff}
use nakama_agones.Console.{source_error}
use nakama_agones.Console.Alerts.{OperationsState, Storage, save}
use nakama_agones.Console.Alerts.Evaluate.{Notice, after_sending}
use nakama_agones.Console.Alerts.Update.{AlertUpdate, update_alerts, updated, valid_update}

module _ (valid : String → Bool) where
  -- what an accepted change excludes
  pub record Exclusive (u : AlertUpdate) (s t : OperationsState) : Type 0 where
    pub expected : u.expected_revision ≡ pos s.revision
    pub next_revision : t.revision ≡ s.revision + 1
    pub config : t.config ≡ u.config
    pub conditions : t.active ≡ s.active
    pub others :
        (now : ℕ) (u' : AlertUpdate) (actor : String) (disk : Storage)
        → u'.expected_revision ≡ u.expected_revision
        → valid_update valid now u' actor ≡ true
        → update_alerts valid now u' actor disk t ≡ (t, some (source_error 409 "alerts_conflict"))
    pub notices :
        (n : Notice) (failed : Bool) (disk : Storage)
        → n.revision ≡ s.revision
        → after_sending n failed disk t ≡ t

  stale :
      (now : ℕ) (u : AlertUpdate) (actor : String) (disk : Storage) (t : OperationsState)
      → valid_update valid now u actor ≡ true
      → eqb_ℤ u.expected_revision (pos t.revision) ≡ false
      → update_alerts valid now u actor disk t ≡ (t, some (source_error 409 "alerts_conflict"))
  unfolding update_alerts
  stale now u actor disk t good old = rw (good, old) refl

  late :
      (n : Notice) (failed : Bool) (disk : Storage) (t : OperationsState)
      → (t.revision == n.revision) ≡ false
      → after_sending n failed disk t ≡ t
  unfolding after_sending
  late n failed disk t e = rw e refl

  updated-Exclusive :
      (now : ℕ) (u : AlertUpdate) (actor : String) (s : OperationsState)
      → u.expected_revision ≡ pos s.revision
      → Exclusive u s (updated valid now u actor s)
  unfolding updated
  updated-Exclusive now u actor s e = record {
    expected = e;
    next_revision = refl;
    config = refl;
    conditions = refl;
    others = λ later u' actor' disk same good.
        stale later u' actor' disk (updated valid now u actor s) good (rw (same, e) (ground arith));
    notices = λ n failed disk same. late n failed disk (updated valid now u actor s) (ground arith);
  }

  save-updated :
      (u : AlertUpdate) (disk : Storage) (s next : OperationsState)
      → Exclusive u s next
      → ((save disk s next).0 ≡ s) ⊎ Exclusive u s (save disk s next).0
  unfolding save
  save-updated u Storage.written s next h = inr h
  save-updated u (Storage.refused e) s next h = inl refl
  save-updated u (Storage.unsynced e) s next h = inr h

  -- A change of the alerts leaves the state as it was, or it was made against the current revision
  -- and leaves the next one with the new configuration. Then a valid change that another operator
  -- makes against the same revision is refused as a conflict and changes nothing, and the outcome
  -- of a notice that was sent at the old revision is dropped.
  pub update_alerts-Exclusive :
      (now : ℕ) (u : AlertUpdate) (actor : String) (disk : Storage) (s : OperationsState)
      → ((update_alerts valid now u actor disk s).0 ≡ s)
        ⊎ Exclusive u s (update_alerts valid now u actor disk s).0
  unfolding update_alerts
  update_alerts-Exclusive now u actor disk s = elim (Bool-cases (valid_update valid now u actor)) [
    | inr bad ↦ rw bad (inl refl)
    | inl good ↦ elim (Bool-cases (u.expected_revision == pos s.revision)) [
      | inr other ↦ rw (good, other) (inl refl)
      | inl current ↦
          elim (Bool-cases
            (u.config.feishu_enabled && (updated valid now u actor s).feishu_webhook == "")) [
              | inl unset ↦ rw (good, current, unset) (inl refl)
              | inr set ↦
                  rw (good, current, set)
                    (save-updated u disk s (updated valid now u actor s) (
                      updated-Exclusive now u actor s
                        ((eqb_ℤ_iff u.expected_revision (pos s.revision)).0 current)))
            ]
    ]
  ]
