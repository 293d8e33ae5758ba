-- ===== src/Agones/Stopping.antt =====
-- Stopping a worker (Stop of internal/agones/client.go).
use nakama_agones.Prelude.{String, none, some, if◌then◌else◌, ◌==◌, number_Eq}
use nakama_agones.Provider.{ApiError}
use nakama_agones.Agones.{Client}
use nakama_agones.Agones.Requests.{ok, err, Method, request, is_status}
use nakama_agones.Agones.Identifiers.{parse_id}
use nakama_agones.Agones.Calls.{Server, Call, sending}
use nakama_agones.Agones.Listing.{get_owned}
use nakama_agones.Agones.Secrets.{cleanup_absent_secret}

module _ (c : Client) (server : Server) where
  -- the game server is there
  unfoldable pub stop_found : String → String → Call server (Unit {0})
  unfolding is_status sending request
  stop_found name uid t =
      let r = sending (request "stop" Method.delete) (server.delete_game name uid) t in
      if is_status 404 r.0 then cleanup_absent_secret c server name uid r.1 else r

  unfoldable pub stop_absent : String → ApiError → Call server (Unit {0})
  unfolding parse_id
  stop_absent id e t = elim (parse_id id) [
    | none ↦ (err e, t)
    | some (name, uid) ↦ cleanup_absent_secret c server name uid t
  ]

  -- isStatus(err, 404) of the error that reading the game server returned
  unfoldable pub stop_missing : String → ApiError → Call server (Unit {0})
  stop_missing id e t = if e.status_code == 404 then stop_absent id e t else (err e, t)

  unfoldable pub stop_instance : String → Call server (Unit {0})
  stop_instance id t =
      let r = get_owned c server id t in
      elim r.0 [
        | ok g ↦ stop_found g.metadata.name g.metadata.uid r.1
        | err e ↦ stop_missing id e r.1
      ]
