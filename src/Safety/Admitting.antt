-- ===== src/Safety/Admitting.antt =====
-- A user is admitted to a new room only if no unfinished room has them, and a new worker is named
-- by an identifier that no room mentions (pkg/fleetmanager/manager.go).
use mathlib.Core.Path.{subst}
use nakama_agones.Prelude.{
  ℕ, ◌≤◌, ◌≡◌, ◌≢◌, refl, sym, ◌∙◌, ap, String, Bool, true, false, Option, none, some, List, [],
  ◌∷◌, arith, ◌==◌, text_Eq, eq_iff, any, Bool-cases, inl, inr, ok, Returns, Returns-ok,
  Returns-seq, Returns-refuse_if,
}
use nakama_agones.Prelude.Table.{Table, bit, lookup, count}
use nakama_agones.Prelude.Table.Laws.{Entries-insert, lookup-insert, count-insert-le}
use nakama_agones.State.{Worker, Allocation, occupies, occupied}
use nakama_agones.Manager.{Manager, Tx}
use nakama_agones.Manager.Users.{contains}
use nakama_agones.Manager.Allocations.{find_request, new_allocation, admit, allocation}
use nakama_agones.Manager.Instances.{requested_worker, new_worker}
use nakama_agones.Manager.Policy.{policy}
use nakama_agones.Safety.Effects.{engages, rooms_at, rooms_of}
use nakama_agones.Safety.Invariant.{IsSafe}

any-contains :
    (xs users : List String) (user : String)
    → any (contains xs) users ≡ false
    → contains users user ≡ true
    → contains xs user ≡ false
unfolding contains
any-contains xs [] user h e = cc
any-contains xs (u ∷ us) user h e = elim (Bool-cases (u == user)) [
  | inl same ↦
      let eq : u ≡ user = (eq_iff u user).0 same in
      subst (λ v. contains xs v ≡ false) eq (unfold contains in ground arith)
  | inr other ↦ any-contains xs us user (ground arith) (ground arith)
]

-- A request that is neither refused nor a repetition finds its users free.
find_request-free :
    (users : List String) (key user : String) (m : Table Allocation)
    → find_request users key m ≡ ok none
    → contains users user ≡ true
    → count (engages user) m ≡ 0
unfolding find_request count
find_request-free users key user [] h e = refl
find_request-free users key user ((k, a) ∷ m) h e =
    ground (arith, any-contains a.user_ids users user, find_request-free users key user m)

engages_new :
    (m : Manager) (users : List String) (key user : String) (now timeout : ℕ) (tx : Tx)
    → engages user (new_allocation m users key now timeout tx) ≡ contains users user
unfolding new_allocation
engages_new m users key user now timeout tx = refl

occupies_new :
    (m : Manager) (users : List String) (key wid : String) (now timeout : ℕ) (tx : Tx)
    → wid ≢ ""
    → occupies wid (new_allocation m users key now timeout tx) ≡ false
unfolding new_allocation
occupies_new m users key wid now timeout tx named =
    ground (arith, eq_iff "" wid, λ (e : "" ≡ wid). named (sym e))

module _ (m : Manager) (users : List String) (key : String) (now timeout : ℕ) (tx : Tx) where
  admit_new-IsSafe :
      find_request users key tx.allocations ≡ ok none
      → IsSafe m.runtime.draws tx
      → IsSafe m.runtime.draws (admit m users key now timeout tx none).1
  unfolding admit occupied
  admit_new-IsSafe free safe = record {
    workers_keyed = safe.workers_keyed;
    allocations_keyed = Entries-insert _ a.id a tx.allocations refl safe.allocations_keyed;
    placed = λ wid named. omega (
      arith,
      safe.placed wid named,
      count-insert-le (occupies wid) a.id a tx.allocations,
      ap bit (occupies_new m users key wid now timeout tx named),
    );
    exclusive = λ user. elim (Bool-cases (contains users user)) [
      | inl given ↦ omega (
        arith,
        find_request-free users key user tx.allocations free given,
        count-insert-le (engages user) a.id a tx.allocations,
        bit-le (engages user a),
      )
      | inr absent ↦ omega (
        arith,
        safe.exclusive user,
        count-insert-le (engages user) a.id a tx.allocations,
        ap bit (engages_new m users key user now timeout tx ∙ absent),
      )
    ];
    unused = λ n later. safe.unused n (omega arith);
  }
    where
      a : Allocation
      a = new_allocation m users key now timeout tx

      bit-le : (b : Bool) → bit b ≤ 1
      bit-le b = ground arith

  found_IsSafe :
      (found : Option Allocation)
      → find_request users key tx.allocations ≡ ok found
      → IsSafe m.runtime.draws tx
      → IsSafe m.runtime.draws (admit m users key now timeout tx found).1
  unfolding admit
  found_IsSafe none e safe = admit_new-IsSafe e safe
  found_IsSafe (some a) e safe = safe

  pub allocation-IsSafe :
      IsSafe m.runtime.draws tx
      → Returns (λ r. IsSafe m.runtime.draws r.1) (allocation m users key now timeout tx)
  unfolding allocation
  allocation-IsSafe safe =
      Returns-refuse_if _ _ _ _
        λ valid. Returns-seq _ _ _ λ found e. Returns-ok _ _ (found_IsSafe found e safe)

pub new_worker-IsSafe :
    (m : Manager) (now max_rooms : ℕ) (tx : Tx)
    → ((i j : ℕ) → m.runtime.draws i ≡ m.runtime.draws j → i ≡ j)
    → IsSafe m.runtime.draws tx
    → IsSafe m.runtime.draws (new_worker m now max_rooms tx)
unfolding new_worker occupied
new_worker-IsSafe m now max_rooms tx distinct safe = record {
  workers_keyed = Entries-insert _ w.id w tx.workers refl safe.workers_keyed;
  allocations_keyed = safe.allocations_keyed;
  placed = λ wid named. elim (Bool-cases (w.id == wid)) [
    | inl same ↦
        let e : w.id ≡ wid = (eq_iff w.id wid).0 same in
        let missing : rooms_of tx wid ≡ 0 =
          ap rooms_at
            (ap (λ k. lookup k tx.workers) (sym e) ∙ safe.unused tx.drawn (omega arith)) in
        omega (arith, safe.placed wid named, missing)
    | inr other ↦ rw (lookup-insert, other) (safe.placed wid named)
  ];
  exclusive = safe.exclusive;
  unused = λ n later. elim (Bool-cases (w.id == m.runtime.draws n)) [
    | inl same ↦
        let twice : tx.drawn ≡ n = distinct tx.drawn n ((eq_iff w.id (m.runtime.draws n)).0 same) in
        absurd (omega (arith, later, twice))
    | inr other ↦ rw (lookup-insert, other) (safe.unused n (omega arith))
  ];
}
  where
    w : Worker
    w = requested_worker m (policy m tx.state) now max_rooms tx
