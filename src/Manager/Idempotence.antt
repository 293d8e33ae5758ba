-- ===== src/Manager/Idempotence.antt =====
-- A client may repeat a request for a room (`allocation` of pkg/fleetmanager/manager.go).
use Prim.Native.String.{len}
use mathlib.Core.Path.{subst}
use mathlib.Core.List.{Permᴰ}
use nakama_agones.Prelude.Table.Laws.{All, All-map}
use nakama_agones.State.Phases.{terminal}
use nakama_agones.Prelude.{
  ℕ, ◌≡◌, ◌&&◌, any, ◌⊎◌, sym, ap, ◌∙◌, refl, String, true, false, not, ◌||◌, none, some, List, [],
  ◌∷◌, ◌==◌, text_Eq, number_Eq, eq_iff, ltb, sort, text_lt, arith, Bool-cases, inl, inr, ok, ◌>>=◌,
  refuse_if,
}
use nakama_agones.Prelude.Table.{Table, insert}
use nakama_agones.State.{Allocation}
use nakama_agones.Manager.{Manager, Tx, with_allocations, advance}
use nakama_agones.Manager.Users.{contains, valid_users, same_in_order, same_users}
use nakama_agones.Manager.Allocations.{find_request, new_allocation, admit, allocation}
use nakama_agones.Manager.Requests.{allocate}

same_in_order_refl : (xs : List String) → same_in_order xs xs ≡ true
unfolding same_in_order
same_in_order_refl [] = refl
same_in_order_refl (x ∷ xs) = ground (arith, eq_iff x x, same_in_order_refl xs)

pub same_users_refl : (xs : List String) → same_users xs xs ≡ true
unfolding same_users
same_users_refl xs = ground (arith, same_in_order_refl (sort text_lt xs))

-- a room that is in the way of neither the key nor the users
unfoldable pub Aside : List String → String → String × Allocation → Type 0
Aside users key (k, a) =
    ((a.request_key == key) ≡ false)
    × ((not (terminal a.state) && any (contains a.user_ids) users) ≡ false)

-- a table whose one room with the key is `a`, and which has no other room of the users
module _ (users : List String) (key : String) (a : Allocation) where
  Own : String × Allocation → Type 0
  Own entry = (entry.1 ≡ a) ⊎ Aside users key entry

  Has : Table Allocation → Type 0
  Has [] = true ≡ false
  Has (entry ∷ m) = (entry.1 ≡ a) ⊎ Has m

  Sole : Table Allocation → Type 0
  Sole m = All Own m × Has m

  insert-Sole : (m : Table Allocation) → All (Aside users key) m → Sole (insert a.id a m)
  unfolding insert Sole Own Has
  insert-Sole [] h = ((inl refl, tt), inl refl)
  insert-Sole ((k, b) ∷ m) h = elim (Bool-cases (k == a.id)) [
    | inl same ↦ rw same ((inl refl, All-map (λ e x. inr x) m h.1), inl refl)
    | inr other ↦ let rest = insert-Sole m h.1 in rw other ((inr h.0, rest.0), inr rest.1)
  ]

  reorder-All : {m n : Table Allocation} → Permᴰ m n → All Own m → All Own n
  reorder-All Permᴰ.nil h = tt
  reorder-All (Permᴰ.cons e p) h = (subst Own e h.0, reorder-All p h.1)
  reorder-All (Permᴰ.swap e f) h = (subst Own f h.1.0, (subst Own e h.0, h.1.1))
  reorder-All (Permᴰ.trans p q) h = reorder-All q (reorder-All p h)

  reorder-Has : {m n : Table Allocation} → Permᴰ m n → Has m → Has n
  unfolding Has
  reorder-Has Permᴰ.nil h = h
  reorder-Has (Permᴰ.cons e p) (inl x) = inl (sym (ap (λ v. v.1) e) ∙ x)
  reorder-Has (Permᴰ.cons e p) (inr h) = inr (reorder-Has p h)
  reorder-Has (Permᴰ.swap e f) (inl x) = inr (inl (sym (ap (λ v. v.1) e) ∙ x))
  reorder-Has (Permᴰ.swap e f) (inr (inl x)) = inl (sym (ap (λ v. v.1) f) ∙ x)
  reorder-Has (Permᴰ.swap e f) (inr (inr h)) = inr (inr h)
  reorder-Has (Permᴰ.trans p q) h = reorder-Has q (reorder-Has p h)

  find_request-here :
      (k : String) (b : Allocation) (m : Table Allocation)
      → a.request_key ≡ key
      → same_users a.user_ids users ≡ true
      → b ≡ a
      → find_request users key ((k, b) ∷ m) ≡ ok (some a)
  unfolding find_request
  find_request-here k b m asked same e =
      subst (λ v. find_request users key ((k, v) ∷ m) ≡ ok (some a)) (sym e)
        (ground (arith, eq_iff a.request_key key))

  find_request-Sole :
      (m : Table Allocation)
      → a.request_key ≡ key
      → same_users a.user_ids users ≡ true
      → All Own m
      → Has m
      → find_request users key m ≡ ok (some a)
  unfolding find_request Own Has Aside
  find_request-Sole [] asked same h there = absurd (ground arith)
  find_request-Sole ((k, b) ∷ m) asked same h (inl e) = find_request-here k b m asked same e
  find_request-Sole ((k, b) ∷ m) asked same (inl e, h) (inr there) =
      find_request-here k b m asked same e
  find_request-Sole ((k, b) ∷ m) asked same (inr aside, h) (inr there) =
      rw (aside.0, aside.1) (find_request-Sole m asked same h there)

find_request-Aside :
    (users : List String) (key : String) (m : Table Allocation)
    → All (Aside users key) m
    → find_request users key m ≡ ok none
unfolding find_request Aside
find_request-Aside users key [] h = refl
find_request-Aside users key ((k, a) ∷ m) h = rw (h.0.0, h.0.1) (find_request-Aside users key m h.1)

-- A valid request for a room, under a key that no room has and for users who are in no unfinished
-- room, is granted with a new room. It can be repeated at any time, as long as nothing else has
-- happened, and in whatever order the loop then visits the rooms: it returns the same room, and its
-- transaction changes nothing.
pub allocate-again :
    (m : Manager) (users : List String) (key : String) (now later : ℕ) (tx : Tx)
    (order : Table Allocation)
    → (not (valid_users users) || key == "" || ltb 256 (len key)) ≡ false
    → All (Aside users key) tx.allocations
    → (let a = new_allocation m users key now m.cfg.allocation_timeout tx in
        let t = with_allocations (insert a.id a tx.allocations) (advance (advance tx)) in
        Permᴰ t.allocations order
        → (allocate m users key now tx ≡ ok (a.id, t))
          × (allocate m users key later (with_allocations order t)
              ≡ ok (a.id, with_allocations order t)))
unfolding allocate allocation ◌>>=◌ refuse_if admit new_allocation Sole
allocate-again m users key now later tx order valid aside p =
    let a = new_allocation m users key now m.cfg.allocation_timeout tx in
    let sole = insert-Sole users key a tx.allocations aside in
    (
      rw (valid, find_request-Aside users key tx.allocations aside) refl,
      rw
          (
            valid,
            find_request-Sole users key a order refl (same_users_refl users)
                (reorder-All users key a p sole.0) (reorder-Has users key a p sole.1),
          )
          refl,
    )
