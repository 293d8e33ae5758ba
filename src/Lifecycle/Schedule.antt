-- ===== src/Lifecycle/Schedule.antt =====
-- The worker that a tick works on (the end of Tick of pkg/fleetmanager/lifecycle.go).
use native.Mathlib.Nat.{le_refl, le_trans}
use nakama_agones.Prelude.{
  ℕ, ◌≤◌, ◌≡◌, refl, Bool, true, false, not, Option, none, some, List, [], ◌∷◌, insert_sorted, sort,
  arith, text_Eq, number_Eq, Bool-cases, inl, inr,
}
use nakama_agones.Prelude.Table.{Table, range}
use nakama_agones.Prelude.Table.Laws.{All, All-map, All-sort}
use nakama_agones.State.{Worker}
use nakama_agones.State.Phases.{worker_state_Eq}
use nakama_agones.Lifecycle.Stop.{
  is_due, due_workers, due_at, due_before, next_due, Operation, operation,
}

-- A worker for which no operation is due gets none.
abbrev pub is_nothing : Operation → Bool
is_nothing Operation.nothing = true
is_nothing _ = false

-- The two tests of Tick agree: the workers that it collects as due are those for which the switch
-- on their state finds an operation, whatever the time and the worker.
pub is_due-operation : (now : ℕ) (w : Worker) → is_due now w ≡ not (is_nothing (operation now w))
unfolding is_due operation
is_due-operation now w = ground arith

-- a sort by a test that follows the key `f` has the least key first
module _ {A : Type 0} (f : A → ℕ) (less : A → A → Bool)
    (below : (a b : A) → less a b ≡ true → f a ≤ f b)
    (above : (a b : A) → less a b ≡ false → f b ≤ f a) where
  Least : List A → List A → Type 0
  Least [] xs = xs ≡ []
  Least (y ∷ ys) xs = All (λ z. f y ≤ f z) xs

  insert-Least : (x : A) (ys xs : List A) → Least ys xs → Least (insert_sorted less x ys) (x ∷ xs)
  unfolding Least
  insert-Least x [] xs h = rw h (le_refl (f x), tt)
  insert-Least x (y ∷ ys) xs h = elim (Bool-cases (less y x)) [
    | inl e ↦ rw (e, Least) (below y x e, h)
    | inr e ↦ rw (e, Least) (le_refl (f x), All-map (λ z le. le_trans (above y x e) le) xs h)
  ]

  sort-Least : (xs : List A) → Least (sort less xs) xs
  unfolding Least
  sort-Least [] = refl
  sort-Least (x ∷ xs) = insert-Least x (sort less xs) xs (sort-Least xs)

due_before-below : (a b : Worker) → due_before a b ≡ true → due_at a ≤ due_at b
unfolding due_before
due_before-below a b h = ground arith

due_before-above : (a b : Worker) → due_before a b ≡ false → due_at b ≤ due_at a
unfolding due_before
due_before-above a b h = ground arith

due_workers-All :
    (P : Worker → Type 0) (now : ℕ) (ws : List Worker)
    → All P (due_workers now ws)
    → All (λ w. is_due now w ≡ true → P w) ws
unfolding due_workers
due_workers-All P now [] h = tt
due_workers-All P now (w ∷ ws) h = elim (Bool-cases (is_due now w)) [
  | inl due ↦
      let k : All P (w ∷ due_workers now ws) = rw due at h in
      (λ _. k.0, due_workers-All P now ws k.1)
  | inr idle ↦
      let k : All P (due_workers now ws) = rw idle at h in
      ((λ e. absurd (ground arith)), due_workers-All P now ws k)
]

due_workers-due : (now : ℕ) (ws : List Worker) → All (λ w. is_due now w ≡ true) (due_workers now ws)
unfolding due_workers
due_workers-due now [] = tt
due_workers-due now (w ∷ ws) = elim (Bool-cases (is_due now w)) [
  | inl due ↦ rw due (due, due_workers-due now ws)
  | inr idle ↦ rw idle (due_workers-due now ws)
]

-- what the choice of the next worker means
abbrev pub Oldest : ℕ → List Worker → Option Worker → Type 0
Oldest now ws none = All (λ v. is_due now v ≡ true → ⊥) ws
Oldest now ws (some w) =
    (is_due now w ≡ true) × All (λ v. is_due now v ≡ true → due_at w ≤ due_at v) ws

pick :
    (now : ℕ) (ws sorted : List Worker)
    → All (λ w. is_due now w ≡ true) sorted
    → Least due_at due_before due_before-below due_before-above sorted (due_workers now ws)
    → Oldest now ws (elim sorted [ [] ↦ none | w ∷ rest ↦ some w ])
unfolding Least
pick now ws [] h e = due_workers-All (λ w. ⊥) now ws (rw e tt)
pick now ws (w ∷ rest) h least = (h.0, due_workers-All (λ v. due_at w ≤ due_at v) now ws least)

-- A tick works on a worker whose operation is due and has been due for longest; it works on none
-- only if no worker's operation is due.
pub next_due-Oldest :
    (now : ℕ) (workers : Table Worker) → Oldest now (range workers) (next_due now workers)
unfolding next_due
next_due-Oldest now workers =
    let due = due_workers now (range workers) in
    pick now (range workers) (sort due_before due)
      (All-sort _ due_before due (due_workers-due now (range workers)))
      (sort-Least due_at due_before due_before-below due_before-above due)
