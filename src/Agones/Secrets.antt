-- ===== src/Agones/Secrets.antt =====
-- The credentials of a worker and their owner (ensureSecretOwner, cleanupAbsentSecret and
-- deleteSecret of internal/agones/client.go).
use nakama_agones.Prelude.{
  String, Bool, true, false, not, ◌&&◌, ◌||◌, List, [], ◌∷◌, ◌==◌, text_Eq, number_Eq,
  if◌then◌else◌,
}
use nakama_agones.Agones.{OwnerRef, Secret, GameServer, Client}
use nakama_agones.Agones.Requests.{Attempt, ok, err, Method, failure, request, is_status}
use nakama_agones.Agones.Identifiers.{secret_name, resource_uid}
use nakama_agones.Agones.Objects.{owned_meta, owned_secret}
use nakama_agones.Agones.Calls.{Server, Call, sending}

abbrev pub same_ref : OwnerRef → OwnerRef → Bool
same_ref a b =
    a.api_version == b.api_version && a.kind == b.kind && a.name == b.name && a.uid == b.uid

-- exactly one reference, the expected one
unfoldable pub only_ref : OwnerRef → List OwnerRef → Bool
only_ref expected (r ∷ []) = same_ref r expected
only_ref expected refs = false

unfoldable pub game_ref : String → String → OwnerRef
game_ref name uid = record {
  api_version = "agones.dev/v1";
  kind = "GameServer";
  name = name;
  uid = uid;
}

abbrev pub no_refs : List OwnerRef → Bool
no_refs [] = true
no_refs (r ∷ rs) = false

-- the answer to the update
unfoldable pub check_updated : String → OwnerRef → Attempt Secret → Attempt (Unit {0})
unfolding only_ref failure
check_updated uid expected (err e) = err e
check_updated uid expected (ok s) =
    if not (s.metadata.uid == uid) || not (only_ref expected s.metadata.owner_references)
    then err (failure "secret_owner" 0 "invalid_owner_response" false)
    else ok tt

module _ (c : Client) (server : Server) where
  -- ensureSecretOwner for a secret that is known
  unfoldable pub ensure_secret_owner : GameServer → Secret → Call server (Unit {0})
  unfolding owned_secret game_ref only_ref check_updated failure sending request
  ensure_secret_owner g s t =
      let expected = game_ref g.metadata.name g.metadata.uid in
      let owned_by = record s {
        metadata = record s.metadata { owner_references = expected ∷ [] };
      } in
      if not (owned_secret c s g)
      then (err (failure "secret_owner" 409 "secret_identity_mismatch" false), t)
      else if not (no_refs s.metadata.owner_references)
      then (if only_ref expected s.metadata.owner_references
          then (ok tt, t)
          else (err (failure "secret_owner" 409 "secret_owner_conflict" false), t))
      else if s.metadata.resource_version == ""
      then (err (failure "secret_owner" 0 "missing_resource_version" false), t)
      else (let r = sending (request "secret_owner" Method.put) (server.put_secret owned_by) t in
          (check_updated s.metadata.uid expected r.0, r.1))

  -- what is absent is deleted
  unfoldable pub absent_ok : Attempt (Unit {0}) → Attempt (Unit {0})
  unfolding is_status
  absent_ok r = if is_status 404 r then ok tt else r

  unfoldable pub delete_secret : Secret → Call server (Unit {0})
  unfolding absent_ok sending request
  delete_secret s t =
      let r =
        sending (request "secret_cleanup" Method.delete)
          (server.delete_secret s.metadata.name s.metadata.uid) t in
      (absent_ok r.0, r.1)

  -- the secret of a game server that is gone
  unfoldable pub cleanup_found : String → String → Secret → Call server (Unit {0})
  unfolding owned_meta secret_name resource_uid only_ref game_ref delete_secret failure
  cleanup_found name uid s t =
      if not (owned_meta c s.metadata)
        || not (s.metadata.name == secret_name name)
        || not (resource_uid s.metadata.uid)
      then (err (failure "secret_cleanup" 409 "secret_identity_mismatch" false), t)
      else if not (only_ref (game_ref name uid) s.metadata.owner_references)
      then (err (failure "secret_cleanup" 409 "secret_owner_conflict" false), t)
      else delete_secret s t

  unfoldable pub cleanup_absent_secret : String → String → Call server (Unit {0})
  unfolding cleanup_found secret_name is_status sending request
  cleanup_absent_secret name uid t =
      let r =
        sending (request "secret_cleanup_get" Method.get) (server.get_secret (secret_name name))
          t in
      if is_status 404 r.0
      then (ok tt, r.1)
      else (elim r.0 [ err e ↦ (err e, r.1) | ok s ↦ cleanup_found name uid s r.1 ])
