-- ===== src/Agones/Calls.antt =====
-- The API server as the client sees it: a state, and one function for each request that the
-- client makes (internal/agones/client.go). A call takes the state and returns a value or an error.
use nakama_agones.Prelude.{String}
use nakama_agones.Agones.{GameServer, Secret, GameList}
use nakama_agones.Agones.Requests.{Exchange, Attempt, ok, err}

pub record Server : Type 1 where
  pub State : Type 0
  pub list_games : String → State → Exchange GameList × State
  pub get_game : String → State → Exchange GameServer × State
  pub post_game : GameServer → State → Exchange GameServer × State
  -- with a precondition on the UID
  pub delete_game : String → String → State → Exchange (Unit {0}) × State
  pub get_secret : String → State → Exchange Secret × State
  pub post_secret : Secret → State → Exchange Secret × State
  pub put_secret : Secret → State → Exchange Secret × State
  pub delete_secret : String → String → State → Exchange (Unit {0}) × State

module _ (server : Server) where
  abbrev pub Call : Type 0 → Type 0
  Call A = server.State → Attempt A × server.State

-- a call and what follows it
module _ {S A B : Type 0} where
  unfoldable pub and_then :
      (S → Attempt A × S) → (Attempt A → S → Attempt B × S) → S → Attempt B × S
  and_then call next s = next (call s).0 (call s).1

  -- `if err != nil { return err }`
  unfoldable pub on_success : (A → S → Attempt B × S) → Attempt A → S → Attempt B × S
  on_success next (ok a) s = next a s
  on_success next (err e) s = (err e, s)

unfoldable pub sending :
    {S A : Type 0} → (Exchange A → Attempt A) → (S → Exchange A × S) → S → Attempt A × S
sending wrap exchange s = (wrap (exchange s).0, (exchange s).1)
