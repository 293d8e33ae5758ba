-- ===== src/Agent/Replay.antt =====
-- What an agent cannot do: take over another's boot, or be sent too much
-- (pkg/fleetmanager/http.go).
use nakama_agones.Prelude.{
  ℕ, ◌≤◌, ◌≡◌, ◌≢◌, sym, ap, ◌∙◌, String, true, false, not, refl, ◌&&◌, some, List, [], ◌∷◌, ◌⊎◌,
  length, arith, ◌==◌, text_Eq, number_Eq, eq_iff, leb, Bool-cases, inl, inr, ok, Returns,
  Returns-ok, Returns-refuse_if, Returns-or_fail,
}
use nakama_agones.Prelude.Table.{lookup, modify, range}
use nakama_agones.Prelude.Table.Laws.{All, take-All, All-sort, lookup-modify}
use nakama_agones.State.{Worker, Command}
use nakama_agones.State.Phases.{worker_state_Eq}
use nakama_agones.Manager.{Manager, Tx}
use nakama_agones.Agent.{
  BootstrapRequest, bootstrap, booted, pending_commands, response, command_before,
}

-- what a bootstrap leaves of its worker
pub record Bound (m : Manager) (input : BootstrapRequest) (tx t : Tx) : Type 0 where
  pub before : Worker
  pub stored : lookup input.worker_id tx.workers ≡ some before
  pub unbound : (before.boot_id ≡ "") ⊎ (before.boot_id ≡ input.boot_id)
  pub bound : lookup input.worker_id t.workers ≡ some (record before { boot_id = input.boot_id })
  pub others : (wid : String) → wid ≢ input.worker_id → lookup wid t.workers ≡ lookup wid tx.workers
  pub exclusive :
      (input.boot_id == "") ≡ false
      → (rival : BootstrapRequest) → rival.worker_id ≡ input.worker_id
      → (rival.boot_id == input.boot_id) ≡ false
      → (later : ℕ) (u : Tx) → bootstrap m rival later t ≢ ok u

-- the bootstrap of a worker that is bound to another boot
bound-Exclusive :
    (m : Manager) (rival : BootstrapRequest) (boot : String) (later : ℕ) (w : Worker) (t : Tx)
    → lookup rival.worker_id t.workers ≡ some w
    → w.boot_id ≡ boot
    → (boot == "") ≡ false
    → (rival.boot_id == boot) ≡ false
    → Returns (λ u. true ≡ false) (bootstrap m rival later t)
unfolding bootstrap
bound-Exclusive m rival boot later w t found bound named other = Returns-or_fail _ _ _ _ λ v e.
    Returns-refuse_if _ _ _ _ λ live. Returns-refuse_if _ _ _ _ λ timely.
      Returns-refuse_if _ _ _ _ λ same. Returns-ok _ _ (clash v (some_inj v w (sym e ∙ found)) same)
  where
    some_inj : (v u : Worker) → some v ≡ some u → v ≡ u
    some_inj v u e = cc

    clash :
        (v : Worker)
        → v ≡ w
        → (not (v.boot_id == "") && not (v.boot_id == rival.boot_id)) ≡ false
        → true ≡ false
    clash v same e =
        let of_boot : v.boot_id ≡ boot = ap (λ u. u.boot_id) same ∙ bound in
        ground (
          arith,
          eq_iff v.boot_id "",
          eq_iff boot "",
          eq_iff v.boot_id rival.boot_id,
          eq_iff rival.boot_id boot,
          λ (h : v.boot_id ≡ ""). sym of_boot ∙ h,
          λ (h : v.boot_id ≡ rival.boot_id). sym h ∙ of_boot,
        )

-- A bootstrap that succeeds binds its worker to the given boot and changes nothing else of it, nor
-- any other worker; before, the worker was bound to no boot or to the same one. In the state that
-- it leaves, no bootstrap of this worker with another boot succeeds, at whatever time, if the boot
-- has a name: a second process cannot take the worker over.
pub bootstrap-Bound :
    (m : Manager) (input : BootstrapRequest) (now : ℕ) (tx : Tx)
    → Returns (Bound m input tx) (bootstrap m input now tx)
unfolding bootstrap
bootstrap-Bound m input now tx = Returns-or_fail _ _ _ _ λ w e. Returns-refuse_if _ _ _ _ λ live.
    Returns-refuse_if _ _ _ _ λ timely. Returns-refuse_if _ _ _ _ λ same. Returns-ok _ _ (record {
      before = w;
      stored = e;
      unbound = free w same;
      bound = binds w e;
      others = λ wid other.
          lookup-modify input.worker_id wid _ tx.workers
          ∙ ground
              (arith, eq_iff input.worker_id wid, λ (h : input.worker_id ≡ wid). other (sym h));
      exclusive = λ named rival same_worker other later u success.
          let clash : true ≡ false =
            (bound-Exclusive m rival input.boot_id later (booted input.boot_id w) _
                (ap (λ k. lookup k (modify input.worker_id (booted input.boot_id) tx.workers))
                    same_worker
                  ∙ binds w e)
                refl named other).at
              u success in
          absurd (ground arith);
    })
  where
    binds :
        (w : Worker)
        → lookup input.worker_id tx.workers ≡ some w
        → lookup input.worker_id (modify input.worker_id (booted input.boot_id) tx.workers)
          ≡ some (booted input.boot_id w)
    binds w e =
        lookup-modify input.worker_id input.worker_id _ tx.workers
        ∙ rw e (ground (arith, eq_iff input.worker_id input.worker_id))

    free :
        (w : Worker)
        → (not (w.boot_id == "") && not (w.boot_id == input.boot_id)) ≡ false
        → (w.boot_id ≡ "") ⊎ (w.boot_id ≡ input.boot_id)
    free w e = elim (Bool-cases (w.boot_id == "")) [
      | inl none_ ↦ inl ((eq_iff w.boot_id "").0 none_)
      | inr some_ ↦ inr ((eq_iff w.boot_id input.boot_id).0 (ground arith))
    ]

-- a command that an agent may be sent
abbrev pub Sendable : String → ℕ → Command → Type 0
Sendable wid now c = (c.worker_id ≡ wid) × (c.done ≡ false) × (c.not_before ≤ now)

pending_commands-Sendable :
    (wid : String) (now : ℕ) (cs : List Command)
    → All (Sendable wid now) (pending_commands wid now cs)
unfolding pending_commands
pending_commands-Sendable wid now [] = tt
pending_commands-Sendable wid now (c ∷ cs) =
    elim (Bool-cases (c.worker_id == wid && not c.done && leb c.not_before now)) [
      | inr other ↦ rw other (pending_commands-Sendable wid now cs)
      | inl own ↦ rw own (
        ((eq_iff c.worker_id wid).0 (ground arith), ground arith, ground arith),
        pending_commands-Sendable wid now cs,
      )
    ]

-- An answer to a heartbeat holds at most 64 commands, all of them for the worker that reports, not
-- done and due.
pub response-Sendable :
    (now : ℕ) (w : Worker) (tx : Tx)
    → (length (response now w tx).commands ≤ 64)
      × All (Sendable w.id now) (response now w tx).commands
unfolding response
response-Sendable now w tx =
    let sorted =
      All-sort (Sendable w.id now) command_before _
        (pending_commands-Sendable w.id now (range tx.commands)) in
    let t = take-All (Sendable w.id now) 64 _ sorted in (t.1, t.0)
