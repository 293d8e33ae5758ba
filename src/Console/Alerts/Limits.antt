-- ===== src/Console/Alerts/Limits.antt =====
-- What every operation on the alerts keeps (internal/console/alerts.go): sizes, and what the
-- configuration must satisfy. (openOperations of internal/console/operations_file.go asks for more:
-- for the keys of the conditions, their length, and finite values.)
use nakama_agones.Prelude.{
  ℕ, ◌≤◌, ◌≡◌, refl, String, Bool, true, false, not, ◌&&◌, Option, none, some, List, [], ◌∷◌, ◌++◌,
  length, length-drop, arith, Bool-cases, Option-cases, inl, inr, ltb, ◌==◌, text_Eq, number_Eq,
  for_each_inv,
}
use nakama_agones.Prelude.Int.{pos, integer_Eq}
use nakama_agones.Prelude.Table.{Table, modify}
use nakama_agones.Console.Values.{Fields}
use nakama_agones.Console.Alerts.{OperationsState, Storage, save, keep_last, valid_config}
use nakama_agones.Console.Alerts.Samples.{Doubles, alert_samples}
use nakama_agones.Console.Alerts.Evaluate.{
  Notice, judge_all, next_operations, evaluate, notified_condition, delivered, after_sending,
}
use nakama_agones.Console.Alerts.Update.{
  AlertUpdate, update_alerts, updated, audit_entry, valid_update, valid_feishu_secret, set_text,
  passes,
}

module _ (valid_webhook : String → Bool) where
  pub record Limited (s : OperationsState) : Type 0 where
    pub revision : 1 ≤ s.revision
    pub config : valid_config s.config ≡ true
    pub webhook : valid_webhook s.feishu_webhook ≡ true
    pub secret : valid_feishu_secret s.feishu_signing_secret ≡ true
    pub deliverable : s.config.feishu_enabled ≡ true → (s.feishu_webhook == "") ≡ false
    pub active : length s.active ≤ 5000
    pub history : length s.history ≤ 200
    pub audit : length s.audit ≤ 100

keep_last-le : {A : Type 0} (n : ℕ) (xs : List A) → length (keep_last n xs) ≤ n
unfolding keep_last
keep_last-le n xs = elim (Bool-cases (ltb n (length xs))) [
  | inl long ↦ rw (long, length-drop) (ground arith)
  | inr short ↦ rw short (ground arith)
]

save-Limited :
    (valid : String → Bool) (disk : Storage) (old next : OperationsState)
    → Limited valid old
    → Limited valid next
    → Limited valid (save disk old next).0
unfolding save
save-Limited valid Storage.written old next h k = k
save-Limited valid (Storage.refused e) old next h k = h
save-Limited valid (Storage.unsynced e) old next h k = k

evaluate-Limited :
    (valid : String → Bool) (doubles : Doubles) (now : ℕ) (snapshot : Fields) (disk : Storage)
    (s : OperationsState)
    → Limited valid s
    → Limited valid (evaluate doubles now snapshot disk s).0
unfolding evaluate next_operations
evaluate-Limited valid doubles now snapshot disk s h =
    let r = judge_all doubles s.config now (alert_samples doubles s.config now snapshot) s in
    let next = next_operations doubles now r s in
    elim (Bool-cases (not s.config.enabled)) [
      | inl off ↦ rw off h
      | inr on ↦ elim (Bool-cases (ltb 5000 (length next.active))) [
        | inl full ↦ rw (on, full) h
        | inr fits ↦
            let saved = save-Limited valid disk s next h (record {
              revision = h.revision;
              config = h.config;
              webhook = h.webhook;
              secret = h.secret;
              deliverable = h.deliverable;
              active = ground arith;
              history = keep_last-le 200 r.history;
              audit = h.audit;
            }) in
            elim (Option-cases (save disk s next).1) [
              | inl e ↦ rw (on, fits, e) saved
              | inr (x, e) ↦ rw (on, fits, e) saved
            ]
      ]
    ]

length-modify :
    {V : Type 0} (k : String) (f : V → V) (m : Table V) → length (modify k f m) ≡ length m
unfolding modify
length-modify k f [] = refl
length-modify k f ((j, v) ∷ m) = ground (arith, length-modify k f m)

delivered-Limited :
    (valid : String → Bool) (n : Notice) (failed : Bool) (s : OperationsState)
    → Limited valid s
    → Limited valid (delivered n failed s)
unfolding delivered
delivered-Limited valid n true s h = record {
  revision = h.revision;
  config = h.config;
  webhook = h.webhook;
  secret = h.secret;
  deliverable = h.deliverable;
  active = h.active;
  history = h.history;
  audit = h.audit;
}
delivered-Limited valid n false s h = record {
  revision = h.revision;
  config = h.config;
  webhook = h.webhook;
  secret = h.secret;
  deliverable = h.deliverable;
  active =
      for_each_inv (λ m. length m ≤ 5000) (λ key. modify key (notified_condition n key))
        (λ key m le. omega (arith, le, length-modify key (notified_condition n key) m)) n.notified
        s.active h.active;
  history = h.history;
  audit = h.audit;
}

after_sending-Limited :
    (valid : String → Bool) (n : Notice) (failed : Bool) (disk : Storage) (s : OperationsState)
    → Limited valid s
    → Limited valid (after_sending n failed disk s)
unfolding after_sending
after_sending-Limited valid n failed disk s h = elim (Bool-cases (s.revision == n.revision)) [
  | inr late ↦ rw late h
  | inl current ↦
      rw current
        (save-Limited valid disk s (delivered n failed s) h (delivered-Limited valid n failed s h))
]

set_text-passes :
    (p : String → Bool) (new : Option String) (old : String)
    → passes p new ≡ true
    → p old ≡ true
    → p (set_text new old) ≡ true
unfolding set_text
set_text-passes p none old h k = k
set_text-passes p (some s) old h k = h

-- the parts of a valid update
valid_update-parts :
    (valid : String → Bool) (now : ℕ) (u : AlertUpdate) (actor : String)
    → valid_update valid now u actor ≡ true
    → (valid_config u.config ≡ true)
      × (passes valid u.feishu_webhook ≡ true)
      × (passes valid_feishu_secret u.feishu_signing_secret ≡ true)
unfolding valid_update
valid_update-parts valid now u actor h = ground arith

update_alerts-Limited :
    (valid : String → Bool) (now : ℕ) (u : AlertUpdate) (actor : String) (disk : Storage)
    (s : OperationsState)
    → Limited valid s
    → Limited valid (update_alerts valid now u actor disk s).0
unfolding update_alerts updated
update_alerts-Limited valid now u actor disk s h =
    elim (Bool-cases (valid_update valid now u actor)) [
      | inr bad ↦ rw bad h
      | inl good ↦ elim (Bool-cases (u.expected_revision == pos s.revision)) [
        | inr stale ↦ rw (good, stale) h
        | inl current ↦
            let address = set_text u.feishu_webhook s.feishu_webhook in
            let parts = valid_update-parts valid now u actor good in
            elim (Bool-cases (u.config.feishu_enabled && address == "")) [
              | inl unset ↦ rw (good, current, unset) h
              | inr set ↦
                  rw (good, current, set)
                    (save-Limited valid disk s (updated valid now u actor s) h (record {
                      revision = omega arith;
                      config = parts.0;
                      webhook =
                          set_text-passes valid u.feishu_webhook s.feishu_webhook parts.1 h.webhook;
                      secret =
                          set_text-passes valid_feishu_secret u.feishu_signing_secret
                            s.feishu_signing_secret parts.2 h.secret;
                      deliverable = λ on. ground arith;
                      active = h.active;
                      history = h.history;
                      audit = keep_last-le 100 (s.audit ++ audit_entry valid now u actor s ∷ []);
                    }))
            ]
      ]
    ]

-- one step of the alerts
pub data AlertStep (valid : String → Bool) : OperationsState → OperationsState → Type 0 where
  evaluating :
      (doubles : Doubles) (now : ℕ) (snapshot : Fields) (disk : Storage) (s : OperationsState)
      → AlertStep valid s (evaluate doubles now snapshot disk s).0
  delivering :
      (n : Notice) (failed : Bool) (disk : Storage) (s : OperationsState)
      → AlertStep valid s (after_sending n failed disk s)
  updating :
      (now : ℕ) (u : AlertUpdate) (actor : String) (disk : Storage) (s : OperationsState)
      → AlertStep valid s (update_alerts valid now u actor disk s).0

-- Every evaluation, delivery and change of the alerts keeps these limits of the state, whatever the
-- file system does: a revision of at least 1, a valid configuration, webhook and secret, a webhook
-- if delivery is enabled, and at most 5000 conditions, 200 events and 100 audit entries.
pub AlertStep-Limited :
    (valid : String → Bool) (s t : OperationsState)
    → AlertStep valid s t
    → Limited valid s
    → Limited valid t
AlertStep-Limited valid _ _ (evaluating doubles now snapshot disk s) h =
    evaluate-Limited valid doubles now snapshot disk s h
AlertStep-Limited valid _ _ (delivering n failed disk s) h =
    after_sending-Limited valid n failed disk s h
AlertStep-Limited valid _ _ (updating now u actor disk s) h =
    update_alerts-Limited valid now u actor disk s h
