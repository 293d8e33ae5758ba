-- ===== src/Agent/Backoff.antt =====
-- The delay before a failed command is sent again (pkg/fleetmanager/http.go).

use mathlib.Core.Path.{subst}
use native.Mathlib.Nat.{min-eq_right}
use nakama_agones.Prelude.{ℕ, zero, suc, ◌+◌, ◌≤◌, ◌≡◌, refl, ap, ◌*◌, ◌^◌, arith}
use nakama_agones.Prelude.{false, some, text_Eq, eq_iff}
use nakama_agones.Prelude.Table.{lookup}
use nakama_agones.Prelude.Table.Laws.{lookup-insert}
use nakama_agones.State.{Command}
use nakama_agones.State.Phases.{is_prepare_room}
use nakama_agones.Manager.{Manager, Tx, fresh}
use nakama_agones.Agent.Results.{retry_delay, retry, failed}

retry_delay-last : (n : ℕ) → 4 ≤ n → retry_delay n ≡ 32
unfolding retry_delay
retry_delay-last n h = ap (λ k. 2 * 2 ^ k) (min-eq_right h)

retry_delay-settled :
    (n : ℕ)
    → 3 ≤ n
    → (4 ≤ retry_delay (n + 1))
      × (retry_delay (n + 1) ≤ 32)
      × (retry_delay (n + 1) ≤ retry_delay (n + 2))
      × (retry_delay (n + 4) ≡ 32)
retry_delay-settled n h =
    let here = retry_delay-last (n + 1) (omega arith) in
    let next = retry_delay-last (n + 2) (omega arith) in
    (omega arith, omega arith, omega arith, retry_delay-last (n + 4) (omega arith))

retry_delay-bounds :
    (n : ℕ)
    → (4 ≤ retry_delay (n + 1))
      × (retry_delay (n + 1) ≤ 32)
      × (retry_delay (n + 1) ≤ retry_delay (n + 2))
      × (retry_delay (n + 4) ≡ 32)
unfolding retry_delay
retry_delay-bounds zero = (omega arith, omega arith, omega arith, refl)
retry_delay-bounds (suc zero) = (omega arith, omega arith, omega arith, refl)
retry_delay-bounds (suc (suc zero)) = (omega arith, omega arith, omega arith, refl)
retry_delay-bounds (suc (suc (suc n))) = retry_delay-settled (suc (suc (suc n))) (omega arith)

-- what stands in the table for a command that failed
pub record Retried (m : Manager) (now : ℕ) (c : Command) (tx t : Tx) : Type 0 where
  pub again : Command
  pub stored : lookup (fresh m tx) t.commands ≡ some again
  pub to_same : (again.worker_id ≡ c.worker_id) × (again.type ≡ c.type)
  pub open_ : again.done ≡ false
  pub numbered : again.attempts ≡ c.attempts + 1
  pub soonest : now + 4 ≤ again.not_before
  pub latest : again.not_before ≤ now + 32
  pub settled : 3 ≤ c.attempts → again.not_before ≡ now + 32
  pub in_time : again.expires_at ≡ now + 3600
  pub grows :
      (later : ℕ) (u : Tx) → again.not_before + later ≤ (retry m later again u).not_before + now

-- When a command other than the preparation of a room fails, the table holds a new one for the same
-- worker that is open for an hour, counts one attempt more, and is not sent before 4 and not held
-- back for more than 32 seconds, from the fourth failure on for exactly 32; if it fails in turn,
-- the next one is held back for at least as long.
pub failed-Retried :
    (m : Manager) (now : ℕ) (c : Command) (tx : Tx)
    → is_prepare_room c.type ≡ false
    → Retried m now c tx (failed m now c tx)
unfolding failed retry
failed-Retried m now c tx other =
    let bounds = retry_delay-bounds c.attempts in
    let next : retry_delay (c.attempts + 1) ≤ retry_delay (c.attempts + 1 + 1) =
      subst (λ k. retry_delay (c.attempts + 1) ≤ retry_delay k) (two c.attempts) bounds.2 in
    rw other (record {
      again = retry m now c tx;
      stored = ground (
        arith,
        lookup-insert (fresh m tx) (fresh m tx) (retry m now c tx) tx.commands,
        eq_iff (fresh m tx) (fresh m tx),
      );
      to_same = (refl, refl);
      open_ = refl;
      numbered = refl;
      soonest = omega (arith, bounds);
      latest = omega (arith, bounds);
      settled = λ h. omega (arith, retry_delay-last (c.attempts + 1) (omega arith));
      in_time = refl;
      grows = λ later u. waits later next;
    })
  where
    two : (n : ℕ) → n + 2 ≡ n + 1 + 1
    two n = omega arith

    waits :
        (later : ℕ)
        → retry_delay (c.attempts + 1) ≤ retry_delay (c.attempts + 1 + 1)
        → now + retry_delay (c.attempts + 1) + later
          ≤ later + retry_delay (c.attempts + 1 + 1) + now
    waits later le = omega (arith, le)
