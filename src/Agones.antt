-- ===== src/Agones.antt =====
-- The client of the Kubernetes API that hosts workers as Agones game servers
-- (internal/agones/client.go): its data. Values that the program only compares by their JSON are
-- the JSON text.
pub mod Requests
pub mod Quantities
pub mod Objects
pub mod Matching
pub mod Identifiers
pub mod Calls
pub mod Listing
pub mod Secrets
pub mod Stopping
pub mod Starting
pub mod Pages
pub mod Resolving
pub mod Variables
pub mod Reserved
pub mod Deleting
pub mod Creating
use nakama_agones.Prelude.{ℕ, String, Bool, Option, List}
use nakama_agones.Prelude.Table.{Table}

pub record OwnerRef : Type 0 where
  pub api_version : String
  pub kind : String
  pub name : String
  pub uid : String

pub record ObjectMeta : Type 0 where
  pub name : String
  pub space : String
  pub uid : String
  pub resource_version : String
  pub labels : Table String
  pub annotations : Table String
  pub owner_references : List OwnerRef
  pub deletion_timestamp : String

pub record Secret : Type 0 where
  pub api_version : String
  pub kind : String
  pub metadata : ObjectMeta
  pub type : String
  pub immutable : Bool
  pub content : Table String

pub record GamePort : Type 0 where
  pub name : String
  pub port_policy : String
  pub container_port : ℕ
  pub host_port : ℕ
  pub protocol : String

-- an environment variable: its literal value, or a key of a secret
pub record Environment : Type 0 where
  pub name : String
  pub value : String
  pub from_secret : Option (String × String)

pub record Container : Type 0 where
  pub name : String
  pub image : String
  pub image_pull_policy : String
  pub env : List Environment
  pub requests : Table String
  pub limits : Table String
  pub security_context : String

pub record Health : Type 0 where
  pub disabled : Bool
  pub initial_delay_seconds : String
  pub period_seconds : String
  pub failure_threshold : String

pub record GameSpec : Type 0 where
  pub container : String
  pub ports : List GamePort
  pub health : Health
  pub template_labels : Table String
  pub containers : List Container
  pub node_selector : String
  pub image_pull_secrets : String
  pub termination_grace_period_seconds : ℕ

pub record StatusPort : Type 0 where
  pub name : String
  pub port : ℕ

pub record GameStatus : Type 0 where
  pub state : String
  pub address : String
  pub ports : List StatusPort

pub record GameServer : Type 0 where
  pub api_version : String
  pub kind : String
  pub metadata : ObjectMeta
  pub spec : GameSpec
  pub status : GameStatus

-- one page of a list; no items where the answer has none, which is not an empty list
pub record GameList : Type 0 where
  pub continue : String
  pub items : Option (List GameServer)

-- The configuration, the hash of the deployment, and the functions of the standard library that
-- encode the launch profile: encoding/json and crypto/hmac.
pub record Client : Type 0 where
  pub space : String
  pub pool : String
  pub deployment_id : String
  pub deployment_hash : String
  pub port_name : String
  pub game_port : ℕ
  pub game_image : String
  pub image_pull_secret : String
  pub cpu_request : String
  pub cpu_limit : String
  pub memory_request : String
  pub memory_limit : String
  pub node_selector : Table String
  pub selector_json : Table String → String
  pub pull_secrets_json : String → String
  pub profile_hmac : String → GameSpec → String → Table String → String
