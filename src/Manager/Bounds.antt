-- ===== src/Manager/Bounds.antt =====
-- The capacity policy and its audit trail (pkg/fleetmanager/policy.go).
use nakama_agones.Prelude.{
  ℕ, zero, suc, ◌+◌, ◌-◌, ◌≤◌, ◌≡◌, refl, List, [], ◌∷◌, ◌++◌, length, length-append, length-drop,
  drop, arith, number_Eq, ltb, Bool-cases, inl, inr, Returns, Returns-ok, Returns-refuse_if,
}
use nakama_agones.State.{PolicyAudit}
use nakama_agones.Manager.{Manager, Tx}
use nakama_agones.Manager.Policy.{
  PolicyUpdate, validate, policy, next_policy, append_audit, update_policy,
}

-- what a change of the policy leaves
pub record Changed (m : Manager) (u : PolicyUpdate) (now : ℕ) (tx t : Tx) : Type 0 where
  pub expected : (policy m tx.state).revision ≡ u.expected_revision
  pub next_revision : (policy m t.state).revision ≡ u.expected_revision + 1
  pub rooms_bound :
      (1 ≤ (policy m t.state).rooms_per_instance) × ((policy m t.state).rooms_per_instance ≤ 512)
  pub cpu_bound :
      (100 ≤ (policy m t.state).cpu_request_millicores)
      × ((policy m t.state).cpu_request_millicores ≤ 64000)
  pub guaranteed :
      (policy m t.state).cpu_limit_millicores ≡ (policy m t.state).cpu_request_millicores
  pub audit_bound : length t.policy_audit ≤ 100
  pub audited :
      (older : List PolicyAudit) × (entry : PolicyAudit) × (t.policy_audit ≡ older ++ entry ∷ [])
      × (entry.before ≡ policy m tx.state)
      × (entry.after ≡ policy m t.state)
      × (entry.actor ≡ u.actor)
  pub workers_kept : t.workers ≡ tx.workers
  pub allocations_kept : t.allocations ≡ tx.allocations

append_audit-le :
    (audit : List PolicyAudit) (entry : PolicyAudit) → length (append_audit audit entry) ≤ 100
unfolding append_audit
append_audit-le audit entry =
    let all_ = audit ++ entry ∷ [] in
    elim (Bool-cases (ltb 100 (length all_))) [
      | inl long ↦ rw (long, length-drop) (ground arith)
      | inr short ↦ rw short (ground arith)
    ]

drop-append :
    {A : Type 0} (n : ℕ) (xs ys : List A) → n ≤ length xs → drop n (xs ++ ys) ≡ drop n xs ++ ys
drop-append zero xs ys h = refl
drop-append (suc n) [] ys h = absurd (omega (arith, h))
drop-append (suc n) (x ∷ xs) ys h = drop-append n xs ys (omega (arith, h))

append_audit-end :
    (audit : List PolicyAudit) (entry : PolicyAudit)
    → (older : List PolicyAudit) × (append_audit audit entry ≡ older ++ entry ∷ [])
unfolding append_audit
append_audit-end audit entry =
    let all_ = audit ++ entry ∷ [] in
    elim (Bool-cases (ltb 100 (length all_))) [
      | inl long ↦ rw long (
        drop (length all_ - 100) audit,
        drop-append (length all_ - 100) audit (entry ∷ [])
            (omega (arith, length-append audit (entry ∷ []))),
      )
      | inr short ↦ rw short (audit, refl)
    ]

-- A change of the capacity policy that is accepted was made against the current revision; it leaves
-- the next revision, between 1 and 512 rooms for an instance, between 100 and 64000 millicores with
-- the limit equal to the request, and an audit trail of at most 100 entries that ends with the
-- actor and the policies before and after. Workers and rooms stay as they are.
pub update_policy-Changed :
    (m : Manager) (u : PolicyUpdate) (now : ℕ) (tx : Tx)
    → Returns (Changed m u now tx) (update_policy m u now tx)
unfolding update_policy next_policy validate policy
update_policy-Changed m u now tx = Returns-refuse_if _ _ _ _ λ valid.
    Returns-refuse_if _ _ _ _ λ current. Returns-ok _ _ (record {
      expected = ground arith;
      next_revision = ground arith;
      rooms_bound = ground arith;
      cpu_bound = ground arith;
      guaranteed = ground arith;
      audit_bound = append_audit-le tx.policy_audit _;
      audited = (let r = append_audit-end tx.policy_audit _ in (r.0, _, r.1, refl, refl, refl));
      workers_kept = refl;
      allocations_kept = refl;
    })
