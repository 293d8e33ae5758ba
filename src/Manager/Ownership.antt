-- ===== src/Manager/Ownership.antt =====
-- Whose an assignment is (Assignment of pkg/fleetmanager/manager.go).
use nakama_agones.Prelude.{
  ℕ, ◌≡◌, refl, String, Bool, true, false, not, ◌&&◌, ◌||◌, Option, none, some, List, [], ◌∷◌,
  arith, ◌==◌, text_Eq, Bool-cases, Option-cases, inl, inr, or_fail, Returns, Returns-ok,
  Returns-err, Returns-seq, Returns-refuse_if, Returns-or_fail,
}
use nakama_agones.Prelude.Table.{lookup, keys, range}
use nakama_agones.Prelude.Table.Laws.{All, All-found}
use nakama_agones.State.{State, Allocation}
use nakama_agones.State.Phases.{Phase, phase_Eq}
use nakama_agones.Manager.{Manager}
use nakama_agones.Manager.Users.{contains}
use nakama_agones.Manager.Tickets.{Crypto, Assignment, latest_of, preferred, subject, assignment}

-- a room of the table that this user is in
abbrev pub RoomOf : State → String → Allocation → Type 0
RoomOf s user a =
    (contains a.user_ids user ≡ true) × ((k : String) × (lookup k s.allocations ≡ some a))

module _ (s : State) (user : String) where
  IfRoom : Option Allocation → Type 0
  IfRoom none = Unit
  IfRoom (some a) = RoomOf s user a

  Stored : Allocation → Type 0
  Stored a = (k : String) × (lookup k s.allocations ≡ some a)

  latest_of-IfRoom :
      (xs : List Allocation) (best : Option Allocation)
      → All Stored xs
      → IfRoom best
      → IfRoom (latest_of user xs best)
  unfolding latest_of IfRoom Stored
  latest_of-IfRoom [] best stored h = h
  latest_of-IfRoom (a ∷ xs) best stored h =
      elim (Bool-cases (contains a.user_ids user && preferred best a)) [
        | inl e ↦ rw e (latest_of-IfRoom xs (some a) stored.1 (ground arith, stored.0))
        | inr e ↦ rw e (latest_of-IfRoom xs best stored.1 h)
      ]

  All-Stored : All Stored (range s.allocations)
  unfolding Stored
  All-Stored = All-found Stored s.allocations (λ k a e. (k, e)) (keys s.allocations)

  -- the subject: a room of the user, and the one with the identifier if there is one
  Subject : String → Allocation → Type 0
  Subject aid a = RoomOf s user a × ((aid == "") ≡ false → lookup aid s.allocations ≡ some a)

  subject-Subject : (aid : String) → Returns (Subject aid) (subject s user aid)
  unfolding subject or_fail Subject IfRoom
  subject-Subject aid = elim (Bool-cases (aid == "")) [
    | inl e ↦ rw e (elim (Option-cases (latest_of user (range s.allocations) none)) [
      | inl h ↦ rw h (Returns-err _ _)
      | inr (a, h) ↦ rw h (
          Returns-ok _ a (
            let own : IfRoom (some a) =
              rw h at (latest_of-IfRoom (range s.allocations) none All-Stored tt) in
            (own, λ given. absurd (ground arith))))
    ])
    | inr e ↦ rw e (
        Returns-or_fail _ _ _ _ λ a h.
          Returns-refuse_if _ _ _ _ λ own. Returns-ok _ a (((ground arith, (aid, h)), λ given. h)))
  ]

-- what an assignment shows of a room of the state
pub record Shows (s : State) (user aid : String) (out : Assignment) : Type 0 where
  pub room : Allocation
  pub own : contains room.user_ids user ≡ true
  pub stored : (k : String) × (lookup k s.allocations ≡ some room)
  pub asked : (aid == "") ≡ false → lookup aid s.allocations ≡ some room
  pub of_room : out.allocation_id ≡ room.id
  pub same_room : out.room_id ≡ room.room_id
  pub same_state : out.state ≡ room.state
  pub same_worker : out.worker_id ≡ room.worker_id
  pub same_revision : out.revision ≡ room.revision
  pub seated :
      (room.state == Phase.assigned || room.state == Phase.active) ≡ false
      → (out.admission_token ≡ "") × (out.endpoint ≡ none) × (out.boot_id ≡ "")

-- An assignment that a user gets is about a room that the state holds and that the user is in, the
-- one with the identifier if it was asked for by one; it shows this room's state, revision and
-- worker, and holds no admission token, endpoint or boot unless the room is assigned or active.
pub assignment-Shows :
    (c : Crypto) (m : Manager) (s : State) (user aid : String) (resume : Bool) (now : ℕ)
    (nonce : String)
    → Returns (Shows s user aid) (assignment c m s user aid resume now nonce)
unfolding assignment Subject
assignment-Shows c m s user aid resume now nonce = Returns-seq _ _ _ λ a e.
    let of_user = (subject-Subject s user aid).at a e in
    elim (Bool-cases (not (a.state == Phase.assigned) && not (a.state == Phase.active))) [
      | inl early ↦ rw early (
          Returns-ok _ _ (record {
            room = a;
            own = of_user.0.0;
            stored = of_user.0.1;
            asked = of_user.1;
            of_room = refl;
            same_room = refl;
            same_state = refl;
            same_worker = refl;
            same_revision = refl;
            seated = λ h. (refl, refl, refl);
          }))
      | inr there ↦ rw there (
          Returns-or_fail _ _ _ _ λ w found. Returns-refuse_if _ _ _ _ λ reachable.
            Returns-or_fail _ _ _ _ λ session seat. Returns-seq _ _ _ λ expires lasts.
              Returns-seq _ _ _ λ token signed. Returns-ok _ _ (record {
                room = a;
                own = of_user.0.0;
                stored = of_user.0.1;
                asked = of_user.1;
                of_room = refl;
                same_room = refl;
                same_state = refl;
                same_worker = refl;
                same_revision = refl;
                seated = λ h. absurd (ground arith);
              }))
    ]
