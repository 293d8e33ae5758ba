-- ===== src/Agones/Deleting.antt =====
-- What Stop may delete (internal/agones/client.go).
use nakama_agones.Prelude.{
  ◌≡◌, sym, String, true, not, ◌||◌, some, arith, Bool-cases, inl, inr, ◌==◌, text_Eq, number_Eq,
  eq_iff,
}
use mathlib.Core.Path.{subst}
use nakama_agones.Provider.{ApiError}
use nakama_agones.Agones.{GameServer, Secret, Client}
use nakama_agones.Agones.Requests.{Attempt, Attempt-cases, ok, Method, request, is_status}
use nakama_agones.Agones.Identifiers.{parse_id, secret_name, resource_uid}
use nakama_agones.Agones.Objects.{owned_meta, owned_game}
use nakama_agones.Agones.Calls.{Server, sending, and_then, on_success}
use nakama_agones.Agones.Listing.{checked_game, get_owned}
use nakama_agones.Agones.Secrets.{
  only_ref, game_ref, delete_secret, cleanup_found, cleanup_absent_secret,
}
use nakama_agones.Agones.Stopping.{stop_found, stop_absent, stop_missing, stop_instance}

-- A property of the API server's state that reads keep, and so do the two deletions that Stop may
-- do for an instance: of the game server with the name and the UID of the instance, and of a secret
-- that the client owns and whose one owner reference is that game server.
pub record Keeps (c : Client) (server : Server) (name uid : String) (P : server.State → Type 0)
    : Type 1 where
  pub get_game : (n : String) (t : server.State) → P t → P (server.get_game n t).1
  pub get_secret : (n : String) (t : server.State) → P t → P (server.get_secret n t).1
  pub delete_game : (t : server.State) → P t → P (server.delete_game name uid t).1
  pub delete_secret :
      (s : Secret) (t : server.State)
      → owned_meta c s.metadata ≡ true
      → s.metadata.name ≡ secret_name name
      → only_ref (game_ref name uid) s.metadata.owner_references ≡ true
      → P t
      → P (server.delete_secret s.metadata.name s.metadata.uid t).1

module _ (c : Client) (server : Server) (name uid : String) (P : server.State → Type 0)
    (keeps : Keeps c server name uid P) where
  cleanup_found-keeps :
      (s : Secret) (t : server.State) → P t → P (cleanup_found c server name uid s t).1
  unfolding cleanup_found delete_secret sending
  cleanup_found-keeps s t p =
      elim (Bool-cases (
        not (owned_meta c s.metadata)
        || not (s.metadata.name == secret_name name)
        || not (resource_uid s.metadata.uid))) [
          | inl bad ↦ rw bad p
          | inr ours ↦
              elim (Bool-cases (only_ref (game_ref name uid) s.metadata.owner_references)) [
                | inr other ↦ rw (ours, other) p
                | inl sole ↦
                    rw (ours, sole)
                      (keeps.delete_secret s t (ground arith)
                        ((eq_iff s.metadata.name (secret_name name)).0 (ground arith)) sole p)
              ]
        ]

  cleanup-keeps : (t : server.State) → P t → P (cleanup_absent_secret c server name uid t).1
  unfolding cleanup_absent_secret sending
  cleanup-keeps t p =
      let r =
        sending (request "secret_cleanup_get" Method.get) (server.get_secret (secret_name name))
          t in
      elim (Bool-cases (is_status 404 r.0)) [
        | inl gone ↦ rw gone (keeps.get_secret (secret_name name) t p)
        | inr here ↦ elim (Attempt-cases r.0) [
          | inl (e, failed) ↦ rw (here, failed) (keeps.get_secret (secret_name name) t p)
          | inr (s, there) ↦
              rw (here, there) (cleanup_found-keeps s r.1 (keeps.get_secret (secret_name name) t p))
        ]
      ]

  -- the game server that was read is the one of the identifier
  checked_game-named :
      (g' g : GameServer)
      → checked_game c name uid g' ≡ ok g
      → (g.metadata.name ≡ name) × (g.metadata.uid ≡ uid)
  unfolding checked_game
  checked_game-named g' g e =
      elim (Bool-cases
        (not (owned_game c g') || not (g'.metadata.name == name) || not (g'.metadata.uid == uid))) [
          | inl bad ↦ absurd (cc (bad, e))
          | inr good ↦
              let same : g' ≡ g = ok-injective (rw good at e) in
              subst (λ h. (h.metadata.name ≡ name) × (h.metadata.uid ≡ uid)) same
                (
                  (eq_iff g'.metadata.name name).0 (ground arith),
                  (eq_iff g'.metadata.uid uid).0 (ground arith),
                )
        ]
    where
      ok-injective : {a b : GameServer} → ◌≡◌ {A = Attempt GameServer} (ok a) (ok b) → a ≡ b
      ok-injective e = cc e

  stop_found-keeps : (t : server.State) → P t → P (stop_found c server name uid t).1
  unfolding stop_found sending
  stop_found-keeps t p =
      let r = sending (request "stop" Method.delete) (server.delete_game name uid) t in
      let q = keeps.delete_game t p in
      elim (Bool-cases (is_status 404 r.0)) [
        | inl gone ↦ rw gone (cleanup-keeps r.1 q)
        | inr other ↦ rw other q
      ]

  module _ (id : String) (named : parse_id id ≡ some (name, uid)) where
    get_owned-keeps : (t : server.State) → P t → P (get_owned c server id t).1
    unfolding get_owned and_then on_success sending
    get_owned-keeps t p =
        let r = sending (request "get" Method.get) (server.get_game name) t in
        elim (Attempt-cases r.0) [
          | inl (e, failed) ↦ rw (named, get_owned, failed) (keeps.get_game name t p)
          | inr (g, there) ↦ rw (named, get_owned, there) (keeps.get_game name t p)
        ]

    get_owned-named :
        (t : server.State) (g : GameServer)
        → (get_owned c server id t).0 ≡ ok g
        → (g.metadata.name ≡ name) × (g.metadata.uid ≡ uid)
    unfolding get_owned and_then on_success sending
    get_owned-named t g e =
        let r = sending (request "get" Method.get) (server.get_game name) t in
        elim (Attempt-cases r.0) [
          | inl (x, failed) ↦ absurd (cc (rw (named, get_owned, failed) at e))
          | inr (g', there) ↦ checked_game-named g' g (rw (named, get_owned, there) at e)
        ]

    stop_absent-keeps : (e : ApiError) (t : server.State) → P t → P (stop_absent c server id e t).1
    unfolding stop_absent
    stop_absent-keeps e t p = rw (named, stop_absent) (cleanup-keeps t p)

    stop_missing-keeps :
        (e : ApiError) (t : server.State) → P t → P (stop_missing c server id e t).1
    unfolding stop_missing
    stop_missing-keeps e t p = elim (Bool-cases (e.status_code == 404)) [
      | inl gone ↦ rw gone (stop_absent-keeps e t p)
      | inr other ↦ rw other p
    ]

    stop_instance-keeps : (t : server.State) → P t → P (stop_instance c server id t).1
    unfolding stop_instance
    stop_instance-keeps t p =
        let r = get_owned c server id t in
        let q = get_owned-keeps t p in
        elim (Attempt-cases r.0) [
          | inr (g, there) ↦
              let n = get_owned-named t g there in
              rw (there, stop_instance)
                (subst (λ m. P (stop_found c server m g.metadata.uid r.1).1) (sym n.0)
                  (subst (λ u. P (stop_found c server name u r.1).1) (sym n.1)
                    (stop_found-keeps r.1 q)))
          | inl (e, failed) ↦ rw (failed, stop_instance) (stop_missing-keeps e r.1 q)
        ]

-- Stopping an instance changes nothing at the API server but by deleting the game server with
-- exactly its name and UID, or a secret of this client with the name of its credentials and no
-- owner but that game server: whatever property reads and these two deletions keep, Stop keeps,
-- whatever the API server answers.
pub stop_instance-Keeps :
    (c : Client) (server : Server) (id name uid : String) (P : server.State → Type 0)
    (t : server.State)
    → parse_id id ≡ some (name, uid)
    → Keeps c server name uid P
    → P t
    → P (stop_instance c server id t).1
stop_instance-Keeps c server id name uid P t named keeps p =
    stop_instance-keeps c server name uid P keeps id named t p
