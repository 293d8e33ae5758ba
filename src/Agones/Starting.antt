-- ===== src/Agones/Starting.antt =====
-- Starting a worker (Start of internal/agones/client.go).
use nakama_agones.Prelude.{
  String, Bool, false, not, ◌&&◌, ◌||◌, Option, none, some, List, [], ◌∷◌, ◌==◌, text_Eq, number_Eq,
  if◌then◌else◌, length, all,
}
use nakama_agones.Prelude.Table.{Table, lookup}
use nakama_agones.Provider.{ApiError, Instance}
use nakama_agones.Agones.{OwnerRef, GameServer, Secret, Client}
use nakama_agones.Agones.Requests.{Attempt, ok, err, Method, failure, request, is_status, uncertain}
use nakama_agones.Agones.Objects.{StartRequest, desired, owned_secret}
use nakama_agones.Agones.Matching.{same_game, make_instance}
use nakama_agones.Agones.Calls.{Server, Call, sending}
use nakama_agones.Agones.Secrets.{no_refs, delete_secret, ensure_secret_owner}

-- reflect.DeepEqual of two maps
unfoldable pub same_content : Table String → Table String → Bool
unfolding lookup
same_content a b =
    length a == length b
    && all
        (λ (entry : String × String). elim (lookup entry.0 b) [
          | none ↦ false
          | some v ↦ v == entry.1
        ])
        a

-- the one owner reference of a secret, if it names a game server of that name
unfoldable pub game_owner : String → List OwnerRef → Option String
game_owner name (r ∷ []) =
    if r.api_version == "agones.dev/v1" && r.kind == "GameServer" && r.name == name
    then some r.uid
    else none
game_owner name refs = none

-- A creation that met an object of that name, or whose outcome is not known, is followed by a read
-- of the object.
module _ {S A : Type 0} where
  unfoldable pub reconciled : ApiError → Attempt A × S → Attempt A × S
  unfolding uncertain
  reconciled original (ok a, t) = (ok a, t)
  reconciled original (err e, t) =
      if original.outcome_unknown then (err (uncertain original), t) else (err e, t)

  unfoldable pub after_post : (S → Attempt A × S) → Attempt A → S → Attempt A × S
  unfolding reconciled
  after_post read (ok a) t = (ok a, t)
  after_post read (err e) t =
      if e.status_code == 409 || e.outcome_unknown then reconciled e (read t) else (err e, t)

module _ (c : Client) (server : Server) where
  unfoldable pub read_game : String → String → Call server GameServer
  read_game op name = sending (request op Method.get) (server.get_game name)

  unfoldable pub create_secret : Secret → Call server Secret
  create_secret s t =
      let r = sending (request "secret_create" Method.post) (server.post_secret s) t in
      after_post
        (sending (request "secret_reconcile" Method.get) (server.get_secret s.metadata.name)) r.0
        r.1

  unfoldable pub create_game : GameServer → Call server GameServer
  create_game g t =
      let r = sending (request "start" Method.post) (server.post_game g) t in
      after_post (read_game "create_reconcile" g.metadata.name) r.0 r.1

  unfoldable pub conflict : {A : Type 0} → String → server.State → Attempt A × server.State
  conflict reason t = (err (failure "start" 409 reason false), t)

  -- what the game server of the owner reference's name is found to be
  unfoldable pub owner_verdict : GameServer → String → Attempt GameServer → Attempt (Unit {0})
  unfolding same_game failure
  owner_verdict want uid (err e) =
      err (if e.status_code == 404 then failure "start" 409 "secret_owner_conflict" false else e)
  owner_verdict want uid (ok owner) =
      if not (owner.metadata.uid == uid) || not (same_game c owner want)
      then err (failure "start" 409 "secret_owner_conflict" false)
      else ok tt

  -- a secret that has an owner: the game server of that name, with the reference's UID
  unfoldable pub check_owner : GameServer → Secret → Call server (Unit {0})
  check_owner want s t =
      if no_refs s.metadata.owner_references
      then (ok tt, t)
      else (elim (game_owner want.metadata.name s.metadata.owner_references) [
        | none ↦ conflict "secret_owner_conflict" t
        | some uid ↦
            let r = read_game "secret_owner_check" want.metadata.name t in
            (owner_verdict want uid r.0, r.1)
      ])

  -- The game server was refused for good: its credentials go, unless it is there.
  unfoldable pub give_up : GameServer → Secret → ApiError → Call server Instance
  give_up want s e t =
      if not e.outcome_unknown
        && (e.status_code == 400 || e.status_code == 403 || e.status_code == 422)
      then (let r = read_game "failed_create_check" want.metadata.name t in
          if is_status 404 r.0 then (err e, (delete_secret c server s r.1).1) else (err e, r.1))
      else (err e, t)

  -- the game server that is there
  unfoldable pub finish_start : GameServer → Secret → GameServer → Call server Instance
  finish_start want s actual t =
      if not (same_game c actual want)
      then conflict "gameserver_identity_or_config_conflict" t
      else (let r = ensure_secret_owner c server actual s t in
          elim r.0 [
            | err e ↦ (err (uncertain e), r.1)
            | ok done ↦ (ok (make_instance c actual), r.1)
          ])

  unfoldable pub start_with_secret : GameServer → Secret → Call server Instance
  start_with_secret want s t =
      let checked = check_owner want s t in
      elim checked.0 [
        | err e ↦ (err e, checked.1)
        | ok done ↦
            let r = create_game want checked.1 in
            elim r.0 [ err e ↦ give_up want s e r.1 | ok actual ↦ finish_start want s actual r.1 ]
      ]

  unfoldable pub start_desired : GameServer → Secret → Call server Instance
  start_desired want credentials t =
      let r = create_secret credentials t in
      elim r.0 [
        | err e ↦ (err e, r.1)
        | ok s ↦
            if not (owned_secret c s want) || not (same_content s.content credentials.content)
            then conflict "secret_identity_or_config_conflict" r.1
            else start_with_secret want s r.1
      ]

  unfoldable pub start_instance : StartRequest → Call server Instance
  start_instance req t = elim (desired c req) [
    | err e ↦ (err e, t)
    | ok want ↦ start_desired want.0 want.1 t
  ]
