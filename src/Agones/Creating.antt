-- ===== src/Agones/Creating.antt =====
-- When Start may delete credentials (internal/agones/client.go).
use nakama_agones.Prelude.{
  ◌≡◌, refl, String, true, false, not, ◌&&◌, ◌||◌, arith, Bool-cases, Option-cases, ◌⊎◌, inl, inr,
  ◌==◌, text_Eq, number_Eq,
}
use nakama_agones.Provider.{ApiError, Instance}
use nakama_agones.Agones.{GameServer, Secret, Client}
use nakama_agones.Agones.Requests.{Attempt, Attempt-cases, ok, err, Method, request, is_status}
use nakama_agones.Agones.Objects.{StartRequest, desired, owned_secret}
use nakama_agones.Agones.Matching.{same_game}
use nakama_agones.Agones.Calls.{Server, sending}
use nakama_agones.Agones.Secrets.{only_ref, game_ref, no_refs, ensure_secret_owner, delete_secret}
use nakama_agones.Agones.Starting.{
  same_content, game_owner, reconciled, after_post, read_game, create_secret, create_game, conflict,
  check_owner, give_up, finish_start, start_with_secret, start_desired, start_instance,
}

-- A property of the API server's state that everything keeps but deletions.
pub record Kept (server : Server) (P : server.State → Type 0) : Type 1 where
  pub get_game : (n : String) (t : server.State) → P t → P (server.get_game n t).1
  pub get_secret : (n : String) (t : server.State) → P t → P (server.get_secret n t).1
  pub post_game : (g : GameServer) (t : server.State) → P t → P (server.post_game g t).1
  pub post_secret : (s : Secret) (t : server.State) → P t → P (server.post_secret s t).1
  pub put_secret : (s : Secret) (t : server.State) → P t → P (server.put_secret s t).1

-- How a start ends that gives the credentials up: the API server refused the game server for good,
-- at a state at which `P` holds; it was then asked for this game server and answered that there is
-- none; and what follows is one deletion, of a secret with the content of the worker's credentials.
pub record GivenUp (c : Client) (server : Server) (req : StartRequest) (P : server.State → Type 0)
    (r : Attempt Instance × server.State) : Type 0 where
  pub want : GameServer
  pub credentials : Secret
  pub wanted : desired c req ≡ ok (want, credentials)
  pub error : ApiError
  pub failed : r.0 ≡ err error
  pub certain : error.outcome_unknown ≡ false
  pub refused :
      (error.status_code == 400 || error.status_code == 403 || error.status_code == 422) ≡ true
  pub before : server.State
  pub held : P before
  pub absent :
      is_status 404
        (request "failed_create_check" Method.get (server.get_game want.metadata.name before).0)
      ≡ true
  pub secret : Secret
  pub ours : owned_secret c secret want ≡ true
  pub same : same_content secret.content credentials.content ≡ true
  pub deleted :
      r.1 ≡ (delete_secret c server secret (server.get_game want.metadata.name before).1).1

-- a creation that is followed by a read
module _ {S A : Type 0} (P : S → Type 0) where
  reconciled-keeps : (e : ApiError) (r : Attempt A × S) → P r.1 → P (reconciled e r).1
  unfolding reconciled
  reconciled-keeps e (ok a, t) p = p
  reconciled-keeps e (err x, t) p = elim (Bool-cases e.outcome_unknown) [
    | inl yes_ ↦ rw yes_ p
    | inr no_ ↦ rw no_ p
  ]

  after_post-keeps :
      (read : S → Attempt A × S)
      → ((t : S) → P t → P (read t).1)
      → (r : Attempt A) (t : S) → P t
      → P (after_post read r t).1
  unfolding after_post
  after_post-keeps read keep (ok a) t p = p
  after_post-keeps read keep (err e) t p =
      elim (Bool-cases (e.status_code == 409 || e.outcome_unknown)) [
        | inl again ↦ rw again (reconciled-keeps e (read t) (keep t p))
        | inr over ↦ rw over p
      ]

module _ (c : Client) (server : Server) (P : server.State → Type 0) (kept : Kept server P) where
  create_secret-keeps : (s : Secret) (t : server.State) → P t → P (create_secret c server s t).1
  unfolding create_secret sending
  create_secret-keeps s t p =
      let r = sending (request "secret_create" Method.post) (server.post_secret s) t in
      after_post-keeps P
        (sending (request "secret_reconcile" Method.get) (server.get_secret s.metadata.name))
        (λ u q. kept.get_secret s.metadata.name u q) r.0 r.1 (kept.post_secret s t p)

  read_game-keeps : (op name : String) (t : server.State) → P t → P (read_game c server op name t).1
  unfolding read_game sending
  read_game-keeps op name t p = kept.get_game name t p

  create_game-keeps : (g : GameServer) (t : server.State) → P t → P (create_game c server g t).1
  unfolding create_game sending
  create_game-keeps g t p =
      let r = sending (request "start" Method.post) (server.post_game g) t in
      after_post-keeps P (read_game c server "create_reconcile" g.metadata.name)
        (λ u q. read_game-keeps "create_reconcile" g.metadata.name u q) r.0 r.1
        (kept.post_game g t p)

  check_owner-keeps :
      (want : GameServer) (s : Secret) (t : server.State)
      → P t
      → P (check_owner c server want s t).1
  unfolding check_owner conflict
  check_owner-keeps want s t p = elim (Bool-cases (no_refs s.metadata.owner_references)) [
    | inl alone ↦ rw alone p
    | inr owned_ ↦ elim (Option-cases (game_owner want.metadata.name s.metadata.owner_references)) [
      | inl other ↦ rw (owned_, other) p
      | inr (uid, named) ↦
          rw (owned_, named) (read_game-keeps "secret_owner_check" want.metadata.name t p)
    ]
  ]

  ensure-keeps :
      (g : GameServer) (s : Secret) (t : server.State)
      → P t
      → P (ensure_secret_owner c server g s t).1
  unfolding ensure_secret_owner sending
  ensure-keeps g s t p =
      let refs = s.metadata.owner_references in
      elim (Bool-cases (owned_secret c s g)) [
        | inr other ↦ rw other p
        | inl ours ↦ elim (Bool-cases (no_refs refs)) [
          | inr some_ ↦
              elim (Bool-cases (only_ref (game_ref g.metadata.name g.metadata.uid) refs)) [
                | inl sole ↦ rw (ours, some_, sole) p
                | inr more ↦ rw (ours, some_, more) p
              ]
          | inl none_ ↦ elim (Bool-cases (s.metadata.resource_version == "")) [
            | inl blank ↦ rw (ours, none_, blank) p
            | inr there ↦ rw (ours, none_, there) (kept.put_secret _ t p)
          ]
        ]
      ]

  finish-keeps :
      (want : GameServer) (s : Secret) (actual : GameServer) (t : server.State)
      → P t
      → P (finish_start c server want s actual t).1
  unfolding finish_start conflict
  finish-keeps want s actual t p =
      let r = ensure_secret_owner c server actual s t in
      elim (Bool-cases (same_game c actual want)) [
        | inr other ↦ rw other p
        | inl same ↦ elim (Attempt-cases r.0) [
          | inl (e, failed) ↦ rw (same, failed) (ensure-keeps actual s t p)
          | inr (u, done) ↦ rw (same, done) (ensure-keeps actual s t p)
        ]
      ]

  -- what holds at the end, or the credentials were given up
  module _ (req : StartRequest) where
    unfoldable pub Ends : Attempt Instance × server.State → Type 0
    Ends r = P r.1 ⊎ GivenUp c server req P r

    module _ (want : GameServer) (credentials s : Secret)
        (wanted : desired c req ≡ ok (want, credentials)) (ours : owned_secret c s want ≡ true)
        (same : same_content s.content credentials.content ≡ true) where
      give_up-Ends : (e : ApiError) (t : server.State) → P t → Ends (give_up c server want s e t)
      unfolding give_up Ends read_game sending
      give_up-Ends e t p =
          let refusal = e.status_code == 400 || e.status_code == 403 || e.status_code == 422 in
          let r = read_game c server "failed_create_check" want.metadata.name t in
          elim (Bool-cases (not e.outcome_unknown && refusal)) [
            | inr other ↦ rw other (inl p)
            | inl sure ↦ elim (Bool-cases (is_status 404 r.0)) [
              | inr there ↦ rw (sure, there) (inl (kept.get_game want.metadata.name t p))
              | inl gone ↦
                  rw (sure, gone)
                    (inr (record {
                      want = want;
                      credentials = credentials;
                      wanted = wanted;
                      error = e;
                      failed = refl;
                      certain = ground arith;
                      refused = ground arith;
                      before = t;
                      held = p;
                      absent = gone;
                      secret = s;
                      ours = ours;
                      same = same;
                      deleted = refl;
                    }))
            ]
          ]

      start_with_secret-Ends : (t : server.State) → P t → Ends (start_with_secret c server want s t)
      unfolding start_with_secret Ends
      start_with_secret-Ends t p =
          let checked = check_owner c server want s t in
          let q = check_owner-keeps want s t p in
          let r = create_game c server want checked.1 in
          let k = create_game-keeps want checked.1 q in
          elim (Attempt-cases checked.0) [
            | inl (e, failed) ↦ rw (failed, start_with_secret) (inl q)
            | inr (u, fine) ↦ elim (Attempt-cases r.0) [
              | inl (e, failed) ↦ rw (fine, start_with_secret, failed) (give_up-Ends e r.1 k)
              | inr (actual, there) ↦
                  rw (fine, start_with_secret, there) (inl (finish-keeps want s actual r.1 k))
            ]
          ]

    start_desired-Ends :
        (want : GameServer) (credentials : Secret) (t : server.State)
        → desired c req ≡ ok (want, credentials)
        → P t
        → Ends (start_desired c server want credentials t)
    unfolding start_desired Ends conflict
    start_desired-Ends want credentials t wanted p =
        let r = create_secret c server credentials t in
        let q = create_secret-keeps credentials t p in
        elim (Attempt-cases r.0) [
          | inl (e, failed) ↦ rw (failed, start_desired) (inl q)
          | inr (s, there) ↦
              elim (Bool-cases
                (not (owned_secret c s want) || not (same_content s.content credentials.content))) [
                  | inl other ↦ rw (there, start_desired, other) (inl q)
                  | inr ours ↦
                      rw (there, start_desired, ours)
                        (start_with_secret-Ends want credentials s wanted (ground arith)
                          (ground arith) r.1 q)
                ]
        ]

-- Starting a worker deletes nothing at the API server, whatever it answers, unless it gives the
-- credentials up: whatever property everything but deletions keeps holds at the end, or the start
-- ended with an error that is certain and has the status 400, 403 or 422, the API server then
-- answered 404 when asked for the game server, and after that the one deletion was that of the
-- client's own secret with the credentials of this worker.
pub start_instance-Ends :
    (c : Client) (server : Server) (req : StartRequest) (P : server.State → Type 0)
    (t : server.State)
    → Kept server P
    → P t
    → P (start_instance c server req t).1 ⊎ GivenUp c server req P (start_instance c server req t)
unfolding start_instance Ends
start_instance-Ends c server req P t kept p = elim (Attempt-cases (desired c req)) [
  | inl (e, failed) ↦ rw (failed, start_instance) (inl p)
  | inr (want, fine) ↦
      rw (fine, start_instance) (start_desired-Ends c server P kept req want.0 want.1 t fine p)
]
