-- ===== src/Agones/Listing.antt =====
-- Reading game servers (get, Get and List of internal/agones/client.go).
use Prim.Native.String.{len}
use nakama_agones.Prelude.{
  ℕ, zero, suc, String, false, not, ◌||◌, none, some, List, [], ◌∷◌, ◌++◌, ltb, ◌==◌, text_Eq,
  number_Eq, if◌then◌else◌, for_each,
}
use nakama_agones.Prelude.Table.Distinct.{has_key}
use nakama_agones.Provider.{Instance}
use nakama_agones.Agones.{GameServer, Client}
use nakama_agones.Agones.Requests.{Attempt, ok, err, Method, failure, request}
use nakama_agones.Agones.Identifiers.{parse_id, instance_id}
use nakama_agones.Agones.Objects.{owned_game}
use nakama_agones.Agones.Matching.{make_instance}
use nakama_agones.Agones.Calls.{Server, Call, sending, and_then, on_success}

-- the instances that a list has found, with their identifiers
pub record Found : Type 0 where
  pub instances : List Instance
  pub seen : List String

module _ (c : Client) where
  unfoldable pub checked_game : String → String → GameServer → Attempt GameServer
  unfolding owned_game failure
  checked_game name uid g =
      if not (owned_game c g) || not (g.metadata.name == name) || not (g.metadata.uid == uid)
      then err (failure "get" 409 "resource_identity_mismatch" false)
      else ok g

  -- the body of the loop over a page
  unfoldable pub add_instance : GameServer → Found → Found
  unfolding owned_game instance_id make_instance
  add_instance g f =
      let id = instance_id g.metadata.name g.metadata.uid in
      if not (owned_game c g) || has_key id f.seen
      then f
      else record { instances = f.instances ++ make_instance c g ∷ []; seen = id ∷ f.seen }

  module _ (server : Server) where
    unfoldable pub get_owned : String → Call server GameServer
    unfolding parse_id checked_game and_then on_success sending request failure
    get_owned id s = elim (parse_id id) [
      | none ↦ (err (failure "get" 0 "invalid_instance_id" false), s)
      | some (name, uid) ↦
          and_then (sending (request "get" Method.get) (server.get_game name))
            (on_success (λ g t. (checked_game name uid g, t))) s
    ]

    unfoldable pub get_instance : String → Call server Instance
    unfolding get_owned and_then on_success make_instance
    get_instance id = and_then (get_owned id) (on_success (λ g t. (ok (make_instance c g), t)))

    -- `pages` pages at most, from a cursor; `cursors` are those seen before
    unfoldable pub list_from : ℕ → String → List String → Found → Call server (List Instance)
    unfolding sending request failure for_each add_instance
    list_from zero cursor cursors f s =
        (err (failure "list" 0 "pagination_limit_exceeded" false), s)
    list_from (suc pages) cursor cursors f s =
        let r = sending (request "list" Method.get) (server.list_games cursor) s in
        let later = λ (next : String) (g : Found). list_from pages next (next ∷ cursors) g r.1 in
        elim r.0 [
          | err e ↦ (err e, r.1)
          | ok page ↦ elim page.items [
            | none ↦ (err (failure "list" 0 "invalid_list_response" false), r.1)
            | some games ↦
                let g = for_each add_instance games f in
                let next = page.continue in
                if next == ""
                then (ok g.instances, r.1)
                else if has_key next cursors || ltb 4096 (len next)
                then (err (failure "list" 0 "invalid_pagination" false), r.1)
                else later next g
          ]
        ]

    unfoldable pub list_instances : Call server (List Instance)
    unfolding list_from
    list_instances = list_from 100 "" [] (record { instances = []; seen = [] })
