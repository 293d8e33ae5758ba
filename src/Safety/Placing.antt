-- ===== src/Safety/Placing.antt =====
-- The steps of Tick's transaction that are not quiet: a room is placed, a worker is forgotten, a
-- worker is created (pkg/fleetmanager/lifecycle.go).
use mathlib.Core.Path.{subst}
use mathlib.Core.Option
use nakama_agones.Prelude.{
  ℕ, ◌≤◌, ◌<◌, ◌≡◌, refl, sym, ◌∙◌, ap, String, Bool, true, false, not, ◌&&◌, Option, none, some,
  List, [], ◌∷◌, arith, ◌==◌, text_Eq, eq_iff, for_each, sort, if◌then◌else◌, Bool-cases,
  Option-cases, inl, inr, any,
}
use nakama_agones.Prelude.Table.{Table, lookup, keys, range, values, count, modify}
use nakama_agones.Prelude.Table.Laws.{
  All, All-map, All-found, All-sort, Entries-remove, Entries-modify, lookup-remove, lookup-modify,
  count-modify-le, count-modify-le_suc, count-modify_if,
}
use nakama_agones.State.{Worker, Allocation, occupies, occupied}
use nakama_agones.State.Phases.{terminal, Phase, phase_Eq}
use nakama_agones.Manager.{Manager, Tx, on_worker, update_allocation}
use nakama_agones.Lifecycle.Place.{
  place, place_on, place_one, choose, waiting, place_waiting, placed_before, filter_waiting,
}
use nakama_agones.Lifecycle.Collect.{pending_on, is_history, forget, collect_worker}
use nakama_agones.Safety.Effects.{
  engages, rooms_at, rooms_of, Quiet-trans, Quiet-same, update_worker-Quiet,
}
use nakama_agones.Safety.Operations.{lookup-id}
use nakama_agones.Safety.Choice.{choose-Fits}
use nakama_agones.Safety.Invariant.{IsSafe, Quiet-IsSafe}

-- An instance that no unfinished room names has no room.
none_pending :
    (wid : String) (m : Table Allocation)
    → any (pending_on wid) (values m) ≡ false
    → count (occupies wid) m ≡ 0
unfolding count
none_pending wid [] h = refl
none_pending wid ((k, a) ∷ m) h = ground (arith, none_pending wid m)

absent_if : {o : Option Worker} (b : Bool) → o ≡ none → (if b then none else o) ≡ none
absent_if true e = refl
absent_if false e = e

forget-IsSafe :
    {draws : ℕ → String} (wid : String) (tx : Tx)
    → any (pending_on wid) (values tx.allocations) ≡ false
    → IsSafe draws tx
    → IsSafe draws (forget wid tx)
unfolding forget occupied
forget-IsSafe {draws} wid tx idle h = record {
  workers_keyed = Entries-remove _ wid tx.workers h.workers_keyed;
  allocations_keyed = h.allocations_keyed;
  placed = λ j named. elim (Bool-cases (wid == j)) [
    | inl same ↦
        let e : wid ≡ j = (eq_iff wid j).0 same in
        let unused : count (occupies j) tx.allocations ≡ 0 =
          none_pending j tx.allocations
            (ap (λ i. any (pending_on i) (values tx.allocations)) (sym e) ∙ idle) in
        omega (arith, unused)
    | inr other ↦ rw (lookup-remove, other) (h.placed j named)
  ];
  exclusive = h.exclusive;
  unused =
      λ n later. lookup-remove wid _ tx.workers ∙ absent_if (wid == draws n) (h.unused n later);
}

pub collect_worker-IsSafe :
    {draws : ℕ → String} (now : ℕ) (wid : String) (tx : Tx)
    → IsSafe draws tx
    → IsSafe draws (collect_worker now wid tx)
unfolding collect_worker
collect_worker-IsSafe now wid tx h = elim (Option-cases (lookup wid tx.workers)) [
  | inl e ↦ rw (e, on_worker) h
  | inr (w, e) ↦
      rw (e, on_worker)
        (elim (Bool-cases
          (is_history now w && not (any (pending_on wid) (values tx.allocations)))) [
            | inl old ↦ rw old (forget-IsSafe wid tx (ground arith) h)
            | inr kept ↦ rw kept h
          ])
]

-- The allocation is unfinished wherever it stands.
abbrev pub IsLive : Allocation → Tx → Type 0
IsLive a tx = (v : Allocation) → lookup a.id tx.allocations ≡ some v → terminal v.state ≡ false

place-engages :
    (m : Manager) (now : ℕ) (wid user : String) (v : Allocation)
    → terminal v.state ≡ false
    → engages user (place m now wid v) ≡ true
    → engages user v ≡ true
unfolding place
place-engages m now wid user v live e = ground arith

place-occupies_other :
    (m : Manager) (now : ℕ) (wid j : String) (v : Allocation)
    → (wid == j) ≡ false
    → occupies j (place m now wid v) ≡ true
    → occupies j v ≡ true
unfolding place
place-occupies_other m now wid j v other e = ground arith

module _ {draws : ℕ → String} (m : Manager) (now : ℕ) (a : Allocation) (tx : Tx)
    (live : IsLive a tx) (safe : IsSafe draws tx) where
  update_place-IsSafe :
      (w : Worker)
      → lookup w.id tx.workers ≡ some w
      → occupied tx.state w.id < w.max_rooms
      → IsSafe draws (update_allocation a.id (place m now w.id) tx)
  unfolding occupied
  update_place-IsSafe w stored room = record {
    workers_keyed = safe.workers_keyed;
    allocations_keyed =
        Entries-modify _ a.id (place m now w.id) tx.allocations (λ j v e. unfold place in e)
          safe.allocations_keyed;
    placed = λ j named. elim (Bool-cases (w.id == j)) [
      | inl same ↦
          let e : w.id ≡ j = (eq_iff w.id j).0 same in
          let rooms : rooms_of tx w.id ≡ w.max_rooms = ap rooms_at stored in
          subst
            (λ i.
              count (occupies i) (modify a.id (place m now w.id) tx.allocations) ≤ rooms_of tx i)
            e
            (omega (
              arith,
              rooms,
              room,
              count-modify-le_suc (occupies w.id) a.id (place m now w.id) tx.allocations,
            ))
      | inr other ↦ omega (
        arith,
        safe.placed j named,
        count-modify-le (occupies j) a.id (place m now w.id)
            (λ v. place-occupies_other m now w.id j v other) tx.allocations,
      )
    ];
    exclusive = λ user. omega (
      arith,
      safe.exclusive user,
      count-modify_if (engages user) a.id (place m now w.id) tx.allocations
          (λ v e. place-engages m now w.id user v (live v e)),
    );
    unused = safe.unused;
  }

  pub place_one-IsSafe : IsSafe draws (place_one m now a tx)
  unfolding place_one place_on
  place_one-IsSafe = elim (Option-cases (choose m now tx.state a)) [
    | inl e ↦ rw (e, place_one) safe
    | inr ((w, n), e) ↦
        rw (e, place_one)
          (let fits = choose-Fits m now tx.state a w n safe.workers_keyed e in
            Quiet-IsSafe
              (Quiet-trans
                (update_worker-Quiet w.id (λ v. record v { idle_since = 0 }) _
                  (record { id_eq = λ v. refl; rooms_eq = λ v. refl }))
                (Quiet-same _ _ refl refl (omega arith)))
              (update_place-IsSafe w fits.stored (omega (arith, fits.counted, fits.has_room))))
  ]

-- A placement finishes no other waiting room.
place-live :
    (m : Manager) (now : ℕ) (wid : String) (o : Option Allocation) (same : Bool) (u : Allocation)
    → ((v : Allocation) → o ≡ some v → terminal v.state ≡ false)
    → (if same then Option.map (place m now wid) o else o) ≡ some u
    → terminal u.state ≡ false
unfolding place
place-live m now wid none same u h e = ground arith
place-live m now wid (some v) same u h e = ground (arith, h v refl)

place_one-IsLive :
    (m : Manager) (now : ℕ) (a b : Allocation) (tx : Tx)
    → IsLive b tx
    → IsLive b (place_one m now a tx)
unfolding place_one place_on
place_one-IsLive m now a b tx live v = elim (Option-cases (choose m now tx.state a)) [
  | inl e ↦ rw (e, place_one) (live v)
  | inr ((w, n), e) ↦
      rw (e, place_one)
        (λ there.
          place-live m now w.id (lookup b.id tx.allocations) (a.id == b.id) v live
            (sym (lookup-modify a.id b.id (place m now w.id) tx.allocations) ∙ there))
]

place_each-IsSafe :
    {draws : ℕ → String} (m : Manager) (now : ℕ) (as_ : List Allocation) (tx : Tx)
    → All (λ a. IsLive a tx) as_
    → IsSafe draws tx
    → IsSafe draws (for_each (place_one m now) as_ tx)
unfolding for_each
place_each-IsSafe m now [] tx live safe = safe
place_each-IsSafe m now (a ∷ as_) tx live safe =
    place_each-IsSafe m now as_ (place_one m now a tx)
      (All-map (λ b. place_one-IsLive m now a b tx) as_ live.1)
      (place_one-IsSafe m now a tx live.0 safe)

filter_waiting-IsLive :
    (tx : Tx) (as_ : List Allocation)
    → All (λ a. lookup a.id tx.allocations ≡ some a) as_
    → All (λ a. IsLive a tx) (filter_waiting as_)
unfolding filter_waiting
filter_waiting-IsLive tx [] h = tt
filter_waiting-IsLive tx (a ∷ as_) h = elim (Bool-cases (a.state == Phase.waiting_capacity)) [
  | inl waits ↦ rw waits ((λ v e. ground (arith, h.0)), filter_waiting-IsLive tx as_ h.1)
  | inr other ↦ rw other (filter_waiting-IsLive tx as_ h.1)
]

pub place_waiting-IsSafe :
    {draws : ℕ → String} (m : Manager) (now : ℕ) (tx : Tx)
    → IsSafe draws tx
    → IsSafe draws (place_waiting m now tx)
unfolding place_waiting waiting
place_waiting-IsSafe m now tx safe =
    place_each-IsSafe m now (sort placed_before (waiting tx.allocations)) tx
      (All-sort (λ a. IsLive a tx) placed_before (waiting tx.allocations)
        (filter_waiting-IsLive tx (range tx.allocations) (
          All-found (λ a. lookup a.id tx.allocations ≡ some a) tx.allocations
            (λ k a. lookup-id k a tx.allocations safe.allocations_keyed) (keys tx.allocations))))
      safe
