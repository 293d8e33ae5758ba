-- ===== src/Tests/Hosting.antt =====
-- The theorems on the Kubernetes client at concrete inputs: an API server that keeps the names of
-- its objects and answers every read with one game server.
use nakama_agones.Prelude.{
  ℕ, length, ◌≡◌, refl, String, true, false, some, List, [], ◌∷◌, arith, ◌⊎◌, ◌==◌, text_Eq,
  if◌then◌else◌, eq_iff,
}
use nakama_agones.Prelude.Table.Distinct.{has_key}
use nakama_agones.Provider.{Instance}
use nakama_agones.State.{Worker}
use nakama_agones.Manager.{Manager}
use nakama_agones.Console.Names.{every_char, last_char}
use nakama_agones.Agones.{Secret, GameServer, Client}
use nakama_agones.Agones.Requests.{answered, rejected, ok}
use nakama_agones.Agones.Identifiers.{parse_id, instance_id, secret_name}
use nakama_agones.Agones.Objects.{owned_game, value_at}
use nakama_agones.Agones.Calls.{Server}
use nakama_agones.Agones.Listing.{list_instances}
use nakama_agones.Agones.Stopping.{stop_instance}
use nakama_agones.Agones.Starting.{start_instance}
use nakama_agones.Agones.Pages.{Inventory, CountedTo, list_instances-Inventory}
use nakama_agones.Agones.Resolving.{instance_id-parse_id}
use nakama_agones.Agones.Deleting.{Keeps, stop_instance-Keeps}
use nakama_agones.Agones.Creating.{Kept, GivenUp, start_instance-Ends}
use nakama_agones.Agones.Variables.{start_request, valid_server_environment, controller_variables}
use nakama_agones.Agones.Reserved.{Accepted, start_request-Accepted}
use nakama_agones.Tests.{config, runtime, server as ready_worker}

abbrev client : Client
client = record {
  space = "games";
  pool = "default";
  deployment_id = "arena";
  deployment_hash = "d1";
  port_name = "game";
  game_port = 7777;
  game_image = "image";
  image_pull_secret = "";
  cpu_request = "500m";
  cpu_limit = "500m";
  memory_request = "";
  memory_limit = "";
  node_selector = [];
  selector_json = λ m. "{}";
  pull_secrets_json = λ s. "null";
  profile_hmac = λ token spec region data_. "p1";
}

abbrev worker : String
worker = "aaaaaaaaaaaaaaaaaaaaaaaaaaaaaaaa"

abbrev game : GameServer
game = record {
  api_version = "agones.dev/v1";
  kind = "GameServer";
  metadata = record {
    name = "nag-aaaaaaaaaaaaaaaaaaaaaaaaaaaaaaaa";
    space = "games";
    uid = "u1";
    resource_version = "1";
    labels =
        ("app.kubernetes.io/managed-by", "nakama-agones")
        ∷ ("nakama-agones.io/pool", "default")
        ∷ ("nakama-agones.io/deployment", "d1")
        ∷ ("nakama-agones.io/worker", worker)
        ∷ [];
    annotations =
        ("nakama-agones.io/deployment-id", "arena")
        ∷ ("nakama-agones.io/build-hash", "b1")
        ∷ ("nakama-agones.io/config-hmac", "p1")
        ∷ [];
    owner_references = [];
    deletion_timestamp = "";
  };
  spec = record {
    container = "game";
    ports = [];
    health = record {
      disabled = false;
      initial_delay_seconds = "30";
      period_seconds = "5";
      failure_threshold = "3";
    };
    template_labels = [];
    containers = [];
    node_selector = "{}";
    image_pull_secrets = "null";
    termination_grace_period_seconds = 60;
  };
  status = record { state = "Allocated"; address = "10.0.0.9"; ports = [] };
}

-- the names but one
abbrev without : String → List String → List String
without k [] = []
without k (j ∷ js) = if j == k then without k js else j ∷ without k js

has_key-without :
    (j k : String) (ks : List String)
    → (k == j) ≡ false
    → has_key j ks ≡ true
    → has_key j (without k ks) ≡ true
has_key-without j k [] d h = absurd (cc h)
has_key-without j k (i ∷ ks) d h =
    ground (arith, eq_iff i k, eq_iff i j, eq_iff k j, has_key-without j k ks d)

abbrev server : Server
server = record {
  State = List String;
  list_games =
      λ cursor t. (answered (record { continue = ""; items = some (game ∷ game ∷ []) }), t);
  get_game = λ n t. (answered game, t);
  post_game = λ g t. (answered game, g.metadata.name ∷ t);
  delete_game = λ n uid t. (answered tt, without n t);
  get_secret = λ n t. (rejected 404 0, t);
  post_secret = λ s t. (answered s, s.metadata.name ∷ t);
  put_secret = λ s t. (answered s, t);
  delete_secret = λ n uid t. (answered tt, without n t);
}

instance_id-parse_id_example :
    parse_id (instance_id game.metadata.name game.metadata.uid)
    ≡ some (game.metadata.name, game.metadata.uid)
unfolding owned_game every_char last_char
instance_id-parse_id_example = instance_id-parse_id client game refl

-- the server lists the game server twice, and keeps the cursors that it was asked for
abbrev counting : Server
counting = record server {
  list_games = λ cursor t.
      (answered (record { continue = ""; items = some (game ∷ game ∷ []) }), cursor ∷ t);
}

list_instances-Inventory_example :
    ((l : List Instance) → (list_instances client counting []).0 ≡ ok l → Inventory client l)
    × CountedTo
        (λ (n : ℕ) (t : List String). length t ≡ n)
        100
        (list_instances client counting []).1
list_instances-Inventory_example =
    list_instances-Inventory client counting [] (λ n t. length t ≡ n)
      (λ n cursor t h. omega (arith, h)) refl

abbrev game_id : String
game_id = "nag-aaaaaaaaaaaaaaaaaaaaaaaaaaaaaaaa@u1"

-- another object stays
abbrev Stays : List String → Type 0
Stays t = has_key "other" t ≡ true

other_secret :
    (s : Secret) (t : List String)
    → s.metadata.name ≡ secret_name game.metadata.name
    → Stays t
    → Stays (without s.metadata.name t)
unfolding secret_name
other_secret s t named p = has_key-without "other" s.metadata.name t (rw named refl) p

Stays-Keeps : Keeps client server game.metadata.name game.metadata.uid Stays
Stays-Keeps = record {
  get_game = λ n t p. p;
  get_secret = λ n t p. p;
  delete_game = λ t p. has_key-without "other" game.metadata.name t refl p;
  delete_secret = λ s t mine named sole p. other_secret s t named p;
}

stop_instance-Keeps_example : Stays (stop_instance client server game_id ("other" ∷ [])).1
unfolding parse_id every_char
stop_instance-Keeps_example =
    stop_instance-Keeps client server game_id game.metadata.name game.metadata.uid Stays
      ("other" ∷ []) refl Stays-Keeps refl

abbrev manager : Manager
manager = record {
  cfg = record config { server_environment = ("MAP", "forest") ∷ [] };
  owner = "a";
  runtime = runtime;
}

abbrev started : Worker
started = record ready_worker { id = worker }

show_number : ℕ → String
show_number n = "7"

start_request-Accepted_example : Accepted show_number manager started
unfolding valid_server_environment every_char value_at controller_variables
start_request-Accepted_example =
    start_request-Accepted show_number manager started (λ m. 20) refl refl refl

Stays-Kept : Kept server Stays
Stays-Kept = record {
  get_game = λ n t p. p;
  get_secret = λ n t p. p;
  post_game = λ g t p. later g.metadata.name t p;
  post_secret = λ s t p. later s.metadata.name t p;
  put_secret = λ s t p. p;
}
  where
    later : (k : String) (t : List String) → Stays t → Stays (k ∷ t)
    later k t p = ground arith

start_instance-Ends_example :
    Stays
      (start_instance client server (start_request show_number manager started) ("other" ∷ [])).1
    ⊎ GivenUp client server
        (start_request show_number manager started)
        Stays
        (start_instance client server (start_request show_number manager started) ("other" ∷ []))
start_instance-Ends_example =
    start_instance-Ends client server (start_request show_number manager started) Stays
      ("other" ∷ []) Stays-Kept refl
