-- ===== src/Agent/Rooms.antt =====
-- The last loop of a heartbeat's report: rooms that closed, players that are there or not
-- (pkg/fleetmanager/http.go).
use nakama_agones.Prelude.{
  ℕ, ◌+◌, String, Bool, true, false, not, ◌&&◌, ◌||◌, List, ◌==◌, text_Eq, number_Eq, length,
  for_each, if◌then◌else◌, map,
}
use nakama_agones.Prelude.Table.{keys}
use nakama_agones.State.{Worker, Allocation, Session}
use nakama_agones.State.Phases.{Phase, phase_Eq, Reason, terminal}
use nakama_agones.Manager.{Manager, Tx, update_worker, update_allocation, on_allocation}
use nakama_agones.Manager.Users.{contains}
use nakama_agones.Manager.Allocations.{touch, finish}
use nakama_agones.Agent.Reports.{RoomReport}

-- the body of the loop over a.Sessions
unfoldable pub report_session : Manager → ℕ → List String → Session → Session
report_session m now users s =
    let connected = contains users s.user_id in
    if connected
    then record s { ever_connected = true; reconnect_until = 0; connected = true }
    else if s.connected && s.reconnect_until == 0
    then record s { reconnect_until = now + m.cfg.reconnect_seconds; connected = false }
    else record s { connected = false }

-- what a report of an open room does to an assigned or active allocation
unfoldable pub report_players : Manager → ℕ → RoomReport → Allocation → Allocation
unfolding report_session touch
report_players m now room a =
    let seen = record a { sessions = map (report_session m now room.user_ids) a.sessions } in
    if room.state == "playing"
      && length room.user_ids == length a.user_ids
      && a.state == Phase.assigned
    then touch (record seen { state = Phase.active })
    else seen

abbrev pub seated : Allocation → Bool
seated a = a.state == Phase.assigned || a.state == Phase.active

abbrev pub add_players : ℕ → Worker → Worker
add_players n w = record w { player_count = w.player_count + n }

-- the body of the inner loop, over s.Allocations
unfoldable pub report_room : Manager → ℕ → String → RoomReport → Allocation → Tx → Tx
unfolding report_players
report_room m now wid room a tx =
    if not (a.room_id == room.room_id) || not (a.worker_id == wid) || terminal a.state
    then tx
    else if room.state == "closed"
    then (if seated a
        then update_allocation a.id (finish Phase.completed Reason.empty now) tx
        else tx)
    else update_worker wid (add_players (length room.user_ids))
        (if seated a then update_allocation a.id (report_players m now room) tx else tx)

unfoldable pub report_rooms : Manager → ℕ → String → RoomReport → Tx → Tx
report_rooms m now wid room tx =
    for_each (λ aid. on_allocation aid (report_room m now wid room)) (keys tx.allocations) tx
