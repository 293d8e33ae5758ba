-- ===== src/Manager/Allocations.antt =====
-- touch, finish, allocation, cancel and reserve of pkg/fleetmanager/manager.go.
use Prim.Native.String.{len}
use nakama_agones.Prelude.{
  ℕ, ◌+◌, String, true, false, not, ◌&&◌, ◌||◌, Option, none, some, List, [], ◌∷◌, ◌==◌, text_Eq,
  ltb, any, length, if◌then◌else◌, Result, ok, err, Error, ◌>>=◌, ◌>>◌, refuse_if,
}
use nakama_agones.Prelude.Table.{Table, insert, map_values}
use nakama_agones.State.{Allocation, Session, Command}
use nakama_agones.State.Phases.{
  Phase, phase_Eq, Reason, CommandType, terminal, is_cancelled, is_prepare_room,
}
use nakama_agones.Manager.{
  Manager, Tx, fresh, advance, with_allocations, with_commands, update_allocation, on_allocation,
  put_command,
}
use nakama_agones.Manager.Users.{valid_users, contains, same_users}

unfoldable pub touch : Allocation → Allocation
touch a = record a { revision = a.revision + 1 }

unfoldable pub finish : Phase → Reason → ℕ → Allocation → Allocation
unfolding touch
finish phase reason now a = touch (record a { state = phase; error = reason; terminal_at = now })

-- The loop of `allocation` over s.Allocations: the allocation that already has the request key,
-- none, or the error that ends the loop.
-- It stops at the first room that decides, in the order of the list; Go draws a new order for every
-- call, which is another list of the same entries.
unfoldable pub find_request : List String → String → Table Allocation → Result (Option Allocation)
find_request users key [] = ok none
find_request users key ((k, a) ∷ rest) =
    let later = find_request users key rest in
    if a.request_key == key
    then (if same_users a.user_ids users then ok (some a) else err Error.forbidden)
    else if not (terminal a.state) && any (contains a.user_ids) users
    then err Error.busy
    else later

unfoldable pub new_allocation : Manager → List String → String → ℕ → ℕ → Tx → Allocation
new_allocation m users key now timeout tx = record {
  id = fresh m tx;
  request_key = key;
  room_id = fresh m (advance tx);
  worker_id = "";
  preferred_worker_id = "";
  user_ids = users;
  state = Phase.waiting_capacity;
  epoch = 1;
  revision = 1;
  created_at = now;
  expires_at = now + timeout;
  sessions = [];
  error = Reason.empty;
  terminal_at = 0;
  notified_revision = 0;
}

-- what follows the loop of `allocation`; the result is the allocation's identifier
unfoldable pub admit : Manager → List String → String → ℕ → ℕ → Tx → Option Allocation → String × Tx
unfolding new_allocation
admit m users key now timeout tx (some a) = (a.id, tx)
admit m users key now timeout tx none =
    let a = new_allocation m users key now timeout tx in
    (a.id, with_allocations (insert a.id a tx.allocations) (advance (advance tx)))

unfoldable pub allocation : Manager → List String → String → ℕ → ℕ → Tx → Result (String × Tx)
allocation m users key now timeout tx = do
  refuse_if (not (valid_users users) || key == "" || ltb 256 (len key)) Error.invalid
  found ← find_request users key tx.allocations
  ok (admit m users key now timeout tx found)

-- Withdrawal of the preparations that were not dispatched: the loop of `cancel` over s.Commands.
unfoldable pub withdraw : String → Command → Command
withdraw aid c =
    if c.allocation_id == aid && is_prepare_room c.type then record c { done = true } else c

cancel_command : Manager → Allocation → ℕ → Tx → Command
cancel_command m a now tx = record {
  id = fresh m tx;
  type = CommandType.cancel_room;
  worker_id = a.worker_id;
  room_id = a.room_id;
  allocation_id = a.id;
  epoch = a.epoch;
  user_ids = [];
  expires_at = now + m.cfg.prepare_timeout;
  done = false;
  attempts = 0;
  not_before = 0;
}

-- a.State = "cancelling"; a.Error = reason; touch(a)
unfoldable pub begin_cancel : Reason → Allocation → Allocation
unfolding touch
begin_cancel reason a = touch (record a { state = Phase.cancelling; error = reason })

unfoldable pub send_cancel : Manager → Allocation → ℕ → Tx → Tx
unfolding withdraw cancel_command
send_cancel m a now tx = advance (
    put_command (cancel_command m a now tx)
      (with_commands (map_values (withdraw a.id) tx.commands) tx))

-- `cancel` at the allocation `a`, which is s.Allocations[a.ID]
unfoldable pub cancel_found : Manager → Reason → ℕ → Allocation → Tx → Tx
unfolding begin_cancel send_cancel
cancel_found m reason now a tx =
    if terminal a.state || a.state == Phase.cancelling
    then tx
    else if a.worker_id == ""
    then update_allocation a.id
        (finish (if is_cancelled reason then Phase.cancelled else Phase.expired) reason now) tx
    else send_cancel m a now (update_allocation a.id (begin_cancel reason) tx)

unfoldable pub cancel : Manager → Reason → ℕ → String → Tx → Tx
unfolding cancel_found
cancel m reason now aid tx = on_allocation aid (cancel_found m reason now) tx

-- the loop of `reserve`: one session for each user, in the order of the seats
unfoldable pub seat_users : Manager → ℕ → ℕ → ℕ → List String → List Session
seat_users m drawn seat expires_at [] = []
seat_users m drawn seat expires_at (user ∷ users) =
    record {
      id = m.runtime.draws drawn;
      user_id = user;
      seat = seat;
      expires_at = expires_at;
      connected = false;
      ever_connected = false;
      reconnect_until = 0;
    }
    ∷ seat_users m (drawn + 1) (seat + 1) expires_at users

unfoldable pub assign : Manager → ℕ → ℕ → ℕ → Allocation → Allocation
unfolding seat_users touch
assign m drawn now ttl a = touch (record a {
  sessions = seat_users m drawn 0 (now + ttl) a.user_ids;
  state = Phase.assigned;
  expires_at = now + ttl;
})

-- `reserve` on s.Allocations[a.ID]; it draws one identifier for each user
unfoldable pub reserve : Manager → List String → ℕ → ℕ → Allocation → Tx → Result Tx
unfolding assign
reserve m users now ttl a tx =
    if not (same_users a.user_ids users)
    then err Error.forbidden
    else if a.state == Phase.assigned || a.state == Phase.active
    then ok tx
    else if not (a.state == Phase.prepared)
    then err Error.busy
    else ok (record (update_allocation a.id (assign m tx.drawn now ttl) tx) {
      drawn = tx.drawn + length a.user_ids;
    })
