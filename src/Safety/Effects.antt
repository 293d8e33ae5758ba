-- ===== src/Safety/Effects.antt =====
-- Transactions that place no room and admit no user: what they leave alone, and the writes that
-- they are made of.
use mathlib.Core.Option
use nakama_agones.Prelude.{
  ℕ, ◌≤◌, ◌≡◌, refl, ◌∙◌, ap, String, Bool, true, not, ◌&&◌, Option, none, some, arith, text_Eq,
  ◌==◌, if◌then◌else◌,
}
use nakama_agones.Prelude.Table.{Table, lookup, count, map_values, retain}
use nakama_agones.Prelude.Table.Laws.{
  Entries, Entries-modify, Entries-map_values, Entries-retain, lookup-modify, lookup-map_values,
  count-modify_at, count-map_values-le, count-retain-le,
}
use nakama_agones.State.{Worker, Allocation, occupies, occupied}
use nakama_agones.State.Phases.{terminal}
use nakama_agones.Manager.{Tx, with_workers, with_allocations, update_worker, update_allocation}
use nakama_agones.Manager.Users.{contains}

-- an unfinished room of the user
abbrev pub engages : String → Allocation → Bool
engages user a = not (terminal a.state) && contains a.user_ids user

abbrev pub engaged : Tx → String → ℕ
engaged tx user = count (engages user) tx.allocations

abbrev pub rooms_at : Option Worker → ℕ
rooms_at none = 0
rooms_at (some w) = w.max_rooms

abbrev pub rooms_of : Tx → String → ℕ
rooms_of tx wid = rooms_at (lookup wid tx.workers)

abbrev pub KeyedWorkers : Table Worker → Type 0
KeyedWorkers = Entries (λ k w. w.id ≡ k)

abbrev pub KeyedAllocations : Table Allocation → Type 0
KeyedAllocations = Entries (λ k a. a.id ≡ k)

pub record Quiet (s t : Tx) : Type 0 where
  pub rooms_eq : (wid : String) → rooms_of t wid ≡ rooms_of s wid
  pub occupied_le : (wid : String) → occupied t.state wid ≤ occupied s.state wid
  pub engaged_le : (user : String) → engaged t user ≤ engaged s user
  pub workers_keyed : KeyedWorkers s.workers → KeyedWorkers t.workers
  pub allocations_keyed : KeyedAllocations s.allocations → KeyedAllocations t.allocations
  pub absent : (k : String) → lookup k s.workers ≡ none → lookup k t.workers ≡ none
  pub drawn_le : s.drawn ≤ t.drawn

pub Quiet-refl : (s : Tx) → Quiet s s
Quiet-refl s = record {
  rooms_eq = λ wid. refl;
  occupied_le = λ wid. omega arith;
  engaged_le = λ user. omega arith;
  workers_keyed = λ h. h;
  allocations_keyed = λ h. h;
  absent = λ k e. e;
  drawn_le = omega arith;
}

pub Quiet-trans : {s t u : Tx} → Quiet s t → Quiet t u → Quiet s u
Quiet-trans p q = record {
  rooms_eq = λ wid. q.rooms_eq wid ∙ p.rooms_eq wid;
  occupied_le = λ wid. omega (arith, p.occupied_le wid, q.occupied_le wid);
  engaged_le = λ user. omega (arith, p.engaged_le user, q.engaged_le user);
  workers_keyed = λ h. q.workers_keyed (p.workers_keyed h);
  allocations_keyed = λ h. q.allocations_keyed (p.allocations_keyed h);
  absent = λ k e. q.absent k (p.absent k e);
  drawn_le = omega (arith, p.drawn_le, q.drawn_le);
}

-- Changes of the other fields are quiet.
pub Quiet-same :
    (s t : Tx)
    → t.workers ≡ s.workers
    → t.allocations ≡ s.allocations
    → s.drawn ≤ t.drawn
    → Quiet s t
unfolding occupied
Quiet-same s t w a d = record {
  rooms_eq = λ wid. ap (λ m. rooms_at (lookup wid m)) w;
  occupied_le = λ wid. rw a (omega arith);
  engaged_le = λ user. rw a (omega arith);
  workers_keyed = λ h. rw w h;
  allocations_keyed = λ h. rw a h;
  absent = λ k e. rw w e;
  drawn_le = d;
}

-- A write to a worker that keeps its identifier and its rooms.
pub record Steady (f : Worker → Worker) : Type 0 where
  pub id_eq : (w : Worker) → (f w).id ≡ w.id
  pub rooms_eq : (w : Worker) → (f w).max_rooms ≡ w.max_rooms

rooms_at-map :
    (f : Worker → Worker)
    → Steady f
    → (o : Option Worker) (b : Bool) → rooms_at (if b then Option.map f o else o) ≡ rooms_at o
rooms_at-map f h none b = ground arith
rooms_at-map f h (some w) b = ground (arith, h.rooms_eq w)

map_absent :
    (f : Worker → Worker) (o : Option Worker) (b : Bool)
    → o ≡ none
    → (if b then Option.map f o else o) ≡ none
map_absent f none b h = ground arith
map_absent f (some w) b h = cc

pub update_worker-Quiet :
    (wid : String) (f : Worker → Worker) (tx : Tx) → Steady f → Quiet tx (update_worker wid f tx)
unfolding occupied
update_worker-Quiet wid f tx h = record {
  rooms_eq = λ j. rw (lookup-modify wid j f tx.workers) (rooms_at-map f h (lookup j tx.workers) _);
  occupied_le = λ j. omega arith;
  engaged_le = λ user. omega arith;
  workers_keyed = Entries-modify _ wid f tx.workers (λ j w e. h.id_eq w ∙ e);
  allocations_keyed = λ k. k;
  absent = λ k e. lookup-modify wid k f tx.workers ∙ map_absent f (lookup k tx.workers) _ e;
  drawn_le = omega arith;
}

pub map_workers-Quiet :
    (f : Worker → Worker) (tx : Tx)
    → Steady f
    → Quiet tx (with_workers (map_values f tx.workers) tx)
unfolding occupied
map_workers-Quiet f tx h = record {
  rooms_eq =
      λ j. rw (lookup-map_values j f tx.workers) (rooms_at-map f h (lookup j tx.workers) true);
  occupied_le = λ j. omega arith;
  engaged_le = λ user. omega arith;
  workers_keyed = Entries-map_values _ f tx.workers (λ j w e. h.id_eq w ∙ e);
  allocations_keyed = λ k. k;
  absent = λ k e. lookup-map_values k f tx.workers ∙ map_absent f (lookup k tx.workers) true e;
  drawn_le = omega arith;
}

-- A change of an allocation that moves it to no worker, adds no user and reopens no room.
pub record Calm (a b : Allocation) : Type 0 where
  pub worker_eq : b.worker_id ≡ a.worker_id
  pub users_eq : b.user_ids ≡ a.user_ids
  pub closed : terminal a.state ≡ true → terminal b.state ≡ true

Calm-occupies :
    (a b : Allocation) (wid : String) → Calm a b → occupies wid b ≡ true → occupies wid a ≡ true
Calm-occupies a b wid h e = ground (arith, h.worker_eq, h.closed, ap (λ w. w == wid) h.worker_eq)

Calm-engages :
    (a b : Allocation) (user : String) → Calm a b → engages user b ≡ true → engages user a ≡ true
Calm-engages a b user h e = ground (arith, h.closed, ap (λ us. contains us user) h.users_eq)

pub update_allocation-Quiet :
    (f : Allocation → Allocation) (a : Allocation) (tx : Tx)
    → lookup a.id tx.allocations ≡ some a
    → ((b : Allocation) → (f b).id ≡ b.id)
    → Calm a (f a)
    → Quiet tx (update_allocation a.id f tx)
unfolding occupied
update_allocation-Quiet f a tx found same calm = record {
  rooms_eq = λ wid. refl;
  occupied_le = λ wid.
      count-modify_at (occupies wid) a.id f a tx.allocations found (Calm-occupies a (f a) wid calm);
  engaged_le = λ user.
      count-modify_at (engages user) a.id f a tx.allocations found (Calm-engages a (f a) user calm);
  workers_keyed = λ k. k;
  allocations_keyed = Entries-modify _ a.id f tx.allocations (λ j b e. same b ∙ e);
  absent = λ k e. e;
  drawn_le = omega arith;
}

pub map_allocations-Quiet :
    (f : Allocation → Allocation) (tx : Tx)
    → ((b : Allocation) → (f b).id ≡ b.id)
    → ((b : Allocation) → Calm b (f b))
    → Quiet tx (with_allocations (map_values f tx.allocations) tx)
unfolding occupied
map_allocations-Quiet f tx same calm = record {
  rooms_eq = λ wid. refl;
  occupied_le = λ wid.
      count-map_values-le (occupies wid) f (λ b. Calm-occupies b (f b) wid (calm b)) tx.allocations;
  engaged_le = λ user.
      count-map_values-le (engages user) f (λ b. Calm-engages b (f b) user (calm b)) tx.allocations;
  workers_keyed = λ k. k;
  allocations_keyed = Entries-map_values _ f tx.allocations (λ j b e. same b ∙ e);
  absent = λ k e. e;
  drawn_le = omega arith;
}

pub retain_allocations-Quiet :
    (q : Allocation → Bool) (tx : Tx) → Quiet tx (with_allocations (retain q tx.allocations) tx)
unfolding occupied
retain_allocations-Quiet q tx = record {
  rooms_eq = λ wid. refl;
  occupied_le = λ wid. count-retain-le (occupies wid) q tx.allocations;
  engaged_le = λ user. count-retain-le (engages user) q tx.allocations;
  workers_keyed = λ k. k;
  allocations_keyed = Entries-retain _ q tx.allocations;
  absent = λ k e. e;
  drawn_le = omega arith;
}
