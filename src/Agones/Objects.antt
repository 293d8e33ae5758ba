-- ===== src/Agones/Objects.antt =====
-- The objects that a worker wants, and which objects are its own (desired, owned, ownedGame,
-- ownedSecret, sameGame and instance of internal/agones/client.go).

use Prim.Native.String.{len}
use nakama_agones.Prelude.{
  String, Bool, true, false, not, ◌&&◌, ◌||◌, Option, none, some, List, [], ◌∷◌, ◌++◌, leb, ltb,
  length, ◌==◌, number_Eq, text_Eq, text_lt, if◌then◌else◌, sort, for_each, all, map,
}
use nakama_agones.Prelude.Table.{Table, lookup, insert, keys}
use nakama_agones.Provider.{Any}
use nakama_agones.Console.Names.{every_char}
use nakama_agones.Agones.{ObjectMeta, Secret, Environment, Container, GameSpec, GameServer, Client}
use nakama_agones.Agones.Requests.{Attempt, ok, err, failure}
use nakama_agones.Agones.Quantities.{quantity_value}
use nakama_agones.Agones.Identifiers.{worker_id, resource_uid, env_name, game_name, secret_name}

pub record StartRequest : Type 0 where
  pub name : String
  pub region : String
  pub custom_data : Table Any
  pub environment_variables : Table String
  pub cpu_resources : Option (String × String)

-- CustomData[key].(string)
unfoldable pub text_at : String → Table Any → String
unfolding lookup
text_at key data_ = elim (lookup key data_) [
  | none ↦ ""
  | some v ↦ elim v [ Any.text t ↦ t | Any.other ↦ "" ]
]

-- m[key], "" where it is missing
unfoldable pub value_at : String → Table String → String
unfolding lookup
value_at key m = elim (lookup key m) [ none ↦ "" | some v ↦ v ]

unfoldable pub labels : Client → String → Table String
labels c worker =
    ("app.kubernetes.io/managed-by", "nakama-agones")
    ∷ ("nakama-agones.io/pool", c.pool)
    ∷ ("nakama-agones.io/deployment", c.deployment_hash)
    ∷ ("nakama-agones.io/worker", worker)
    ∷ []

unfoldable pub identity_ok : Client → StartRequest → Bool
unfolding text_at worker_id game_name
identity_ok c req =
    let worker = text_at "worker_id" req.custom_data in
    let build = text_at "build_hash" req.custom_data in
    worker_id worker
    && text_at "fleet_owner" req.custom_data == c.deployment_id
    && not (build == "")
    && leb (len build) 256
    && not (req.region == "")
    && req.name == game_name worker

unfoldable pub credentials_ok : StartRequest → Bool
unfolding value_at text_at
credentials_ok req =
    value_at "AGONES_FLEET_WORKER_ID" req.environment_variables
      == text_at "worker_id" req.custom_data
    && value_at "AGONES_FLEET_BUILD_HASH" req.environment_variables
      == text_at "build_hash" req.custom_data
    && not (value_at "AGONES_FLEET_BOOTSTRAP_TOKEN" req.environment_variables == "")
    && not (value_at "AGONES_FLEET_ADMISSION_KEY" req.environment_variables == "")

unfoldable pub variable_ok : String × String → Bool
unfolding env_name every_char
variable_ok (k, v) = env_name k && leb (len v) 8192 && every_char (λ c. not (c == 0)) v

-- the CPU request and limit, and whether they are quantities
unfoldable pub cpu_resources : Client → StartRequest → String × String
cpu_resources c req = elim req.cpu_resources [ none ↦ (c.cpu_request, c.cpu_limit) | some r ↦ r ]

abbrev quantity_ok : String → Bool
quantity_ok v = v == "" || elim (quantity_value v) [ none ↦ false | some q ↦ true ]

unfoldable pub cpu_ok : StartRequest → Bool
unfolding quantity_value
cpu_ok req = elim req.cpu_resources [ none ↦ true | some r ↦ quantity_ok r.0 && quantity_ok r.1 ]

-- the resources that are not empty
unfoldable pub resources : String → String → Table String
resources cpu memory =
    (if cpu == "" then [] else ("cpu", cpu) ∷ [])
    ++ (if memory == "" then [] else ("memory", memory) ∷ [])

unfoldable pub environment : StartRequest → List Environment
unfolding secret_name
environment req =
    map
      (λ (k : String). record {
        name = k;
        value = "";
        from_secret = some (secret_name req.name, k);
      })
      (sort text_lt (keys req.environment_variables))

unfoldable pub game_container : Client → StartRequest → Container
unfolding environment resources cpu_resources
game_container c req = record {
  name = "game";
  image = c.game_image;
  image_pull_policy = "IfNotPresent";
  env = environment req;
  requests = resources (cpu_resources c req).0 c.memory_request;
  limits = resources (cpu_resources c req).1 c.memory_limit;
  security_context = "{\"allowPrivilegeEscalation\":false,\"capabilities\":{\"drop\":[\"ALL\"]}}";
}

unfoldable pub game_spec : Client → StartRequest → GameSpec
unfolding labels game_container text_at insert for_each
game_spec c req = record {
  container = "game";
  ports =
      (record {
        name = c.port_name;
        port_policy = "Dynamic";
        container_port = c.game_port;
        host_port = 0;
        protocol = "UDP";
      })
      ∷ [];
  health = record {
    disabled = false;
    initial_delay_seconds = "30";
    period_seconds = "5";
    failure_threshold = "3";
  };
  template_labels = labels c (text_at "worker_id" req.custom_data);
  containers = game_container c req ∷ [];
  node_selector = c.selector_json (
      for_each (λ (entry : String × String). insert entry.0 entry.1) c.node_selector
        (("kubernetes.io/os", "linux") ∷ []));
  image_pull_secrets = c.pull_secrets_json c.image_pull_secret;
  termination_grace_period_seconds = 60;
}

-- the metadata that both objects have but for their names
unfoldable pub annotated : Client → StartRequest → String → ObjectMeta
unfolding labels game_spec value_at text_at
annotated c req name = record {
  name = name;
  space = c.space;
  uid = "";
  resource_version = "";
  labels = labels c (text_at "worker_id" req.custom_data);
  annotations =
      ("nakama-agones.io/deployment-id", c.deployment_id)
      ∷ ("nakama-agones.io/build-hash", text_at "build_hash" req.custom_data)
      ∷ (
        "nakama-agones.io/config-hmac",
        c.profile_hmac (value_at "AGONES_FLEET_BOOTSTRAP_TOKEN" req.environment_variables)
            (game_spec c req) req.region req.environment_variables,
      )
      ∷ [];
  owner_references = [];
  deletion_timestamp = "";
}

unfoldable pub wanted_game : Client → StartRequest → GameServer
unfolding annotated game_spec
wanted_game c req = record {
  api_version = "agones.dev/v1";
  kind = "GameServer";
  metadata = annotated c req req.name;
  spec = game_spec c req;
  status = record { state = ""; address = ""; ports = [] };
}

unfoldable pub wanted_secret : Client → StartRequest → Secret
unfolding annotated secret_name
wanted_secret c req = record {
  api_version = "v1";
  kind = "Secret";
  metadata = annotated c req (secret_name req.name);
  type = "Opaque";
  immutable = true;
  content = req.environment_variables;
}

unfoldable pub desired : Client → StartRequest → Attempt (GameServer × Secret)
unfolding identity_ok credentials_ok variable_ok cpu_ok wanted_game wanted_secret failure
desired c req =
    if not (identity_ok c req)
    then err (failure "start" 0 "invalid_worker_identity" false)
    else if not (credentials_ok req)
    then err (failure "start" 0 "missing_worker_credentials" false)
    else if ltb 80 (length req.environment_variables)
    then err (failure "start" 0 "too_many_environment_variables" false)
    else if not (all variable_ok req.environment_variables)
    then err (failure "start" 0 "invalid_environment_variable" false)
    else if not (cpu_ok req)
    then err (failure "start" 0 "invalid_cpu_resources" false)
    else ok (wanted_game c req, wanted_secret c req)

unfoldable pub owned_meta : Client → ObjectMeta → Bool
unfolding value_at worker_id
owned_meta c meta =
    meta.space == c.space
    && worker_id (value_at "nakama-agones.io/worker" meta.labels)
    && value_at "app.kubernetes.io/managed-by" meta.labels == "nakama-agones"
    && value_at "nakama-agones.io/pool" meta.labels == c.pool
    && value_at "nakama-agones.io/deployment" meta.labels == c.deployment_hash
    && value_at "nakama-agones.io/deployment-id" meta.annotations == c.deployment_id

abbrev is_empty : {A : Type 0} → List A → Bool
is_empty [] = true
is_empty (x ∷ xs) = false

unfoldable pub owned_game : Client → GameServer → Bool
unfolding owned_meta value_at game_name resource_uid
owned_game c g =
    g.api_version == "agones.dev/v1"
    && g.kind == "GameServer"
    && is_empty g.metadata.owner_references
    && owned_meta c g.metadata
    && g.metadata.name == game_name (value_at "nakama-agones.io/worker" g.metadata.labels)
    && resource_uid g.metadata.uid
    && not (value_at "nakama-agones.io/config-hmac" g.metadata.annotations == "")
    && not (value_at "nakama-agones.io/build-hash" g.metadata.annotations == "")

unfoldable pub owned_secret : Client → Secret → GameServer → Bool
unfolding owned_meta value_at secret_name resource_uid
owned_secret c s g =
    s.api_version == "v1"
    && s.kind == "Secret"
    && owned_meta c s.metadata
    && s.metadata.name == secret_name g.metadata.name
    && resource_uid s.metadata.uid
    && s.immutable
    && s.type == "Opaque"
    && s.metadata.deletion_timestamp == ""
    && value_at "nakama-agones.io/config-hmac" s.metadata.annotations
      == value_at "nakama-agones.io/config-hmac" g.metadata.annotations
