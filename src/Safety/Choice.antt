-- ===== src/Safety/Choice.antt =====
-- The choice of a worker for a waiting room (pkg/fleetmanager/lifecycle.go): what the chosen worker
-- satisfies, and that no other candidate is fuller.
use mathlib.Core.Path.{subst}
use native.Mathlib.Nat.{le_refl, le_trans}
use nakama_agones.Prelude.{
  ℕ, ◌+◌, ◌≤◌, ◌<◌, ◌≡◌, refl, sym, String, Bool, true, false, ◌&&◌, Option, none, some, List, [],
  ◌∷◌, arith, ltb, if◌then◌else◌, Bool-cases, inl, inr,
}
use nakama_agones.Prelude.Table.{Table, lookup, keys, range}
use nakama_agones.Prelude.Table.Laws.{All, All-map, All-found, Entries-lookup}
use nakama_agones.State.{State, Worker, Allocation, occupied}
use nakama_agones.Manager.{Manager}
use nakama_agones.Lifecycle.Place.{candidate, improves, choose_from, choose}
use nakama_agones.Safety.Effects.{KeyedWorkers}

abbrev pub Stored : Table Worker → Worker → Type 0
Stored m w = lookup w.id m ≡ some w

pub range-Stored : (m : Table Worker) → KeyedWorkers m → All (Stored m) (range m)
range-Stored m keyed = All-found (Stored m) m stored (keys m)
  where
    stored : (k : String) (w : Worker) → lookup k m ≡ some w → Stored m w
    stored k w e =
        let key : w.id ≡ k = Entries-lookup (λ j v. v.id ≡ j) k w m keyed e in
        subst (λ j. lookup j m ≡ some w) (sym key) e

module _ (m : Manager) (now : ℕ) (s : State) (a : Allocation) where
  -- a candidate with a free room, and the number of its rooms in use
  pub record Fits (w : Worker) (n : ℕ) : Type 0 where
    pub is_candidate : candidate m now a w ≡ true
    pub counted : n ≡ occupied s w.id
    pub has_room : n < w.max_rooms
    pub stored : Stored s.workers w

  abbrev pub FitsBest : Option (Worker × ℕ) → Type 0
  FitsBest none = Unit
  FitsBest (some (w, n)) = Fits w n

  choose_from-FitsBest :
      (ws : List Worker) (best : Option (Worker × ℕ))
      → All (Stored s.workers) ws
      → FitsBest best
      → FitsBest (choose_from m now s a ws best)
  unfolding choose_from
  choose_from-FitsBest [] best h fits = fits
  choose_from-FitsBest (w ∷ ws) best h fits =
      elim (Bool-cases (
        candidate m now a w
        && ltb (occupied s w.id) w.max_rooms
        && improves w (occupied s w.id) best)) [
          | inr worse ↦ rw worse (choose_from-FitsBest ws best h.1 fits)
          | inl better ↦ rw better (
              choose_from-FitsBest ws (some (w, occupied s w.id)) h.1 (record {
                is_candidate = ground arith;
                counted = refl;
                has_room = ground arith;
                stored = h.0;
              }))
        ]

  -- A worker that is chosen for a waiting room is in the table, can take the room and has a free one,
  -- and the number that comes with it is that of its rooms in use. The table must be keyed by the
  -- identifiers of its workers.
  pub choose-Fits :
      (w : Worker) (n : ℕ) → KeyedWorkers s.workers → choose m now s a ≡ some (w, n) → Fits w n
  unfolding choose
  choose-Fits w n keyed e =
      subst FitsBest e
        (choose_from-FitsBest (range s.workers) none (range-Stored s.workers keyed) tt)

  -- The worker can take the allocation and has a free room.
  abbrev pub takes : Worker → Bool
  takes v = candidate m now a v && ltb (occupied s v.id) v.max_rooms

  -- more than the number of rooms in use of the chosen worker, and 0 if none is chosen
  abbrev pub rank : Option (Worker × ℕ) → ℕ
  rank none = 0
  rank (some (w, n)) = n + 1

  rank-improves :
      (w : Worker) (n : ℕ) (best : Option (Worker × ℕ)) (x y : Bool)
      → (rank best ≤ rank (if x && y && improves w n best then some (w, n) else best))
        × (x && y ≡ true → n + 1 ≤ rank (if x && y && improves w n best then some (w, n) else best))
  unfolding improves
  rank-improves w n none x y = ground arith
  rank-improves w n (some (v, k)) x y = ground arith

  choose_from-grows :
      (ws : List Worker) (best : Option (Worker × ℕ))
      → rank best ≤ rank (choose_from m now s a ws best)
  unfolding choose_from
  choose_from-grows [] best = le_refl _
  choose_from-grows (w ∷ ws) best =
      le_trans
        (rank-improves w (occupied s w.id) best (candidate m now a w)
          (ltb (occupied s w.id) w.max_rooms)).0
        (choose_from-grows ws _)

  choose_from-covers :
      (ws : List Worker) (best : Option (Worker × ℕ))
      → All (λ v. takes v ≡ true → occupied s v.id + 1 ≤ rank (choose_from m now s a ws best)) ws
  unfolding choose_from
  choose_from-covers [] best = tt
  choose_from-covers (w ∷ ws) best = (
    λ h.
        le_trans
          ((rank-improves w (occupied s w.id) best (candidate m now a w)
              (ltb (occupied s w.id) w.max_rooms)).1
            h)
          (choose_from-grows ws _),
    choose_from-covers ws _,
  )

  -- what is carried through the loop: a worker that can take the room, with its rooms in use
  Counted : Option (Worker × ℕ) → Type 0
  Counted none = Unit
  Counted (some (w, n)) = (takes w ≡ true) × (n ≡ occupied s w.id)

  choose_from-Counted :
      (ws : List Worker) (best : Option (Worker × ℕ))
      → Counted best
      → Counted (choose_from m now s a ws best)
  unfolding choose_from Counted
  choose_from-Counted [] best h = h
  choose_from-Counted (w ∷ ws) best h =
      elim (Bool-cases (
        candidate m now a w
        && ltb (occupied s w.id) w.max_rooms
        && improves w (occupied s w.id) best)) [
          | inr worse ↦ rw worse (choose_from-Counted ws best h)
          | inl better ↦
              rw better (choose_from-Counted ws (some (w, occupied s w.id)) (ground arith, refl))
        ]

  -- the outcome of a choice among some workers
  abbrev pub BestOf : List Worker → Option (Worker × ℕ) → Type 0
  BestOf ws none = All (λ v. takes v ≡ false) ws
  BestOf ws (some (w, n)) =
      (takes w ≡ true) × All (λ v. takes v ≡ true → occupied s v.id ≤ occupied s w.id) ws

  Counted-BestOf :
      (ws : List Worker) (o : Option (Worker × ℕ))
      → Counted o
      → All (λ v. takes v ≡ true → occupied s v.id + 1 ≤ rank o) ws
      → BestOf ws o
  unfolding Counted
  Counted-BestOf ws none h k = All-map none-takes ws k
    where
      none-takes : (v : Worker) → (takes v ≡ true → occupied s v.id + 1 ≤ 0) → takes v ≡ false
      none-takes v le = elim (Bool-cases (takes v)) [
        | inr no_ ↦ no_
        | inl yes_ ↦ absurd (omega (arith, le yes_))
      ]
  Counted-BestOf ws (some (w, n)) h k = (h.0, All-map (λ v le e. omega (arith, le e, h.1)) ws k)

  -- The worker that is chosen for a waiting room can take it, has a free room, and is the fullest
  -- such worker: every worker of the table that can take the room and has a free one has at most as
  -- many rooms in use. If none is chosen, then there is no such worker in the table.
  pub choose-is_fullest : BestOf (range s.workers) (choose m now s a)
  unfolding choose Counted
  choose-is_fullest =
      Counted-BestOf (range s.workers) (choose m now s a)
        (choose_from-Counted (range s.workers) none tt) (choose_from-covers (range s.workers) none)
