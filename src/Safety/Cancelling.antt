-- ===== src/Safety/Cancelling.antt =====
-- What a user's cancellation does (Cancel of pkg/fleetmanager/manager.go).
use nakama_agones.Prelude.{
  ℕ, ◌≡◌, ◌≢◌, refl, sym, ap, ◌∙◌, String, Bool, true, false, not, ◌||◌, some, arith, ◌==◌, text_Eq,
  eq_iff, Bool-cases, inl, inr, Returns, Returns-ok, Returns-err, Returns-refuse_if,
  Returns-or_fail,
}
use nakama_agones.Prelude.Table.{lookup, modify}
use nakama_agones.Prelude.Table.Laws.{Entries-lookup, lookup-modify}
use nakama_agones.State.{Allocation}
use nakama_agones.State.Phases.{Phase, phase_Eq, Reason, terminal}
use nakama_agones.Manager.{Manager, Tx, on_allocation}
use nakama_agones.Manager.Users.{contains}
use nakama_agones.Manager.Allocations.{finish, begin_cancel, send_cancel, cancel_found, cancel}
use nakama_agones.Manager.Requests.{cancel_request}
use nakama_agones.Safety.Effects.{KeyedAllocations}

-- finished, or to be ended by its worker
abbrev pub ending : Allocation → Bool
ending a = terminal a.state || a.state == Phase.cancelling

-- The room is ending, and it was the user's.
pub record Ending (user aid : String) (tx t : Tx) : Type 0 where
  pub before : Allocation
  pub after : Allocation
  pub was : lookup aid tx.allocations ≡ some before
  pub own : contains before.user_ids user ≡ true
  pub was_idle : before.state ≢ Phase.active
  pub now_is : lookup aid t.allocations ≡ some after
  pub ends : ending after ≡ true
  pub same_users : after.user_ids ≡ before.user_ids
  pub others : (j : String) → j ≢ aid → lookup j t.allocations ≡ lookup j tx.allocations
  pub workers_kept : t.workers ≡ tx.workers

module _ (aid : String) (f : Allocation → Allocation) (a : Allocation) (tx : Tx)
    (found : lookup aid tx.allocations ≡ some a) where
  written : lookup aid (modify aid f tx.allocations) ≡ some (f a)
  written = lookup-modify aid aid f tx.allocations ∙ rw found (ground (arith, eq_iff aid aid))

  unwritten :
      (j : String) → j ≢ aid → lookup j (modify aid f tx.allocations) ≡ lookup j tx.allocations
  unwritten j other =
      lookup-modify aid j f tx.allocations
      ∙ ground (arith, eq_iff aid j, λ (h : aid ≡ j). other (sym h))

module _ (user aid : String) (tx : Tx) where
  ended :
      (f : Allocation → Allocation) (a : Allocation)
      → lookup aid tx.allocations ≡ some a
      → a.id ≡ aid
      → not (contains a.user_ids user) ≡ false
      → (a.state == Phase.active) ≡ false
      → ending (f a) ≡ true
      → (f a).user_ids ≡ a.user_ids
      → (t : Tx) → t.allocations ≡ modify a.id f tx.allocations
      → t.workers ≡ tx.workers
      → Ending user aid tx t
  ended f a found key own idle ends same t e w =
      let at_aid : t.allocations ≡ modify aid f tx.allocations =
        e ∙ ap (λ k. modify k f tx.allocations) key in
      record {
        before = a;
        after = f a;
        was = found;
        own = ground arith;
        was_idle = λ h. ground (arith, idle, h);
        now_is = ap (lookup aid) at_aid ∙ written aid f a tx found;
        ends = ends;
        same_users = same;
        others = λ j other. ap (lookup j) at_aid ∙ unwritten aid f a tx found j other;
        workers_kept = w;
      }

-- A cancellation that a user's request is granted was for a room of this user that was not being
-- played; it leaves the room finished, or cancelling with its worker, and every other room and all
-- workers as they were. The table of rooms must be keyed by their identifiers.
pub cancel_request-Ending :
    (m : Manager) (user aid : String) (now : ℕ) (tx : Tx)
    → KeyedAllocations tx.allocations
    → Returns (Ending user aid tx) (cancel_request m user aid now tx)
unfolding cancel_request cancel cancel_found finish begin_cancel send_cancel
cancel_request-Ending m user aid now tx keyed = Returns-or_fail _ _ _ _ λ a e.
    Returns-refuse_if _ _ _ _ λ own.
      let key : a.id ≡ aid = Entries-lookup (λ k b. b.id ≡ k) aid a tx.allocations keyed e in
      elim (Bool-cases (terminal a.state || a.state == Phase.cancelling)) [
        | inl over ↦ rw over (
            Returns-ok _ _ (record {
              before = a;
              after = a;
              was = e;
              own = ground arith;
              was_idle = λ h. ground (arith, h);
              now_is = e;
              ends = over;
              same_users = refl;
              others = λ j other. refl;
              workers_kept = refl;
            }))
        | inr live ↦ rw live (elim (Bool-cases (a.state == Phase.active)) [
          | inl playing ↦ rw playing (Returns-err _ _)
          | inr idle ↦
              rw (idle, e, on_allocation, live)
                (elim (Bool-cases (a.worker_id == "")) [
                  | inl unplaced ↦ rw unplaced (
                      Returns-ok _ _ (
                        ended user aid tx (finish Phase.cancelled Reason.cancelled now) a e key own
                          idle refl refl _ refl refl))
                  | inr placed ↦ rw placed (
                      Returns-ok _ _ (
                        ended user aid tx (begin_cancel Reason.cancelled) a e key own idle refl refl
                          _ refl refl))
                ])
        ])
      ]
