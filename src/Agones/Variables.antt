-- ===== src/Agones/Variables.antt =====
-- The variables that a game server is started with (startRequest of pkg/fleetmanager/lifecycle.go
-- and validateServerEnvironment of pkg/fleetmanager/config.go). The number formatting and the size
-- of the JSON are parameters. A name with characters other than the ASCII ones is refused by the
-- test of its characters, so that upper case is ASCII upper case here.
use Prim.Native.Char.{code}
use Prim.Native.String.{len, ◌++◌ as text_append}
use nakama_agones.Prelude.{
  ℕ, ◌-◌, String, Bool, true, false, not, ◌&&◌, ◌||◌, some, [], ◌∷◌, leb, length, ◌==◌, number_Eq,
  text_Eq, if◌then◌else◌, all,
}
use nakama_agones.Prelude.Table.{Table, insert}
use nakama_agones.State.{Worker}
use nakama_agones.Manager.{Manager}
use nakama_agones.Provider.{Any}
use nakama_agones.Console.Names.{span, every_char, first_char}
use nakama_agones.Agones.Identifiers.{alphanumeric, game_name}
use nakama_agones.Agones.Objects.{StartRequest}

abbrev upper : ℕ → ℕ
upper c = if span b'a' b'z' c then c - 32 else c

-- strings.HasPrefix(strings.ToUpper(s), p)
unfoldable pub upper_prefix : String → String → Bool
upper_prefix String.[] s = true
upper_prefix (String.◌∷◌ c p) String.[] = false
upper_prefix (String.◌∷◌ c p) (String.◌∷◌ d s) = code c == upper (code d) && upper_prefix p s

unfoldable pub valid_variable : String × String → Bool
unfolding upper_prefix every_char
valid_variable (name, value) =
    leb 1 (len name)
    && leb (len name) 128
    && not (upper_prefix "AGONES_" name)
    && not (upper_prefix "FLEET_" name)
    && first_char (λ c. span b'A' b'Z' c || span b'a' b'z' c || c == b'_') name
    && every_char (λ c. alphanumeric c || c == b'_') name
    && leb (len value) 8192
    && every_char (λ c. not (c == 0)) value

unfoldable pub valid_server_environment : (Table String → ℕ) → Table String → Bool
unfolding valid_variable
valid_server_environment json_size values =
    leb (length values) 64 && all valid_variable values && leb (json_size values) 32768

-- the controller's own variables
unfoldable pub controller_variables : (ℕ → String) → Manager → Worker → Table String
controller_variables show m w =
    ("AGONES_FLEET_WORKER_ID", w.id)
    ∷ (
      "AGONES_FLEET_BOOTSTRAP_TOKEN",
      m.runtime.encode (m.runtime.derive m.cfg.signing_key (text_append "bootstrap:" w.id)),
    )
    ∷ (
      "AGONES_FLEET_ADMISSION_KEY",
      m.runtime.encode (m.runtime.derive m.cfg.signing_key (text_append "admission:" w.id)),
    )
    ∷ ("AGONES_FLEET_CONTROL_URL", m.cfg.control_url)
    ∷ ("AGONES_FLEET_BUILD_HASH", m.cfg.build_hash)
    ∷ ("AGONES_FLEET_MAX_ROOMS", show w.max_rooms)
    ∷ ("AGONES_FLEET_GAME_PORT", show m.cfg.game_port)
    ∷ ("AGONES_FLEET_GAME_PORT_NAME", m.cfg.port_name)
    ∷ []

-- `for name, value := range values { m[name] = value }`
unfoldable pub copy_variables : Table String → Table String → Table String
unfolding insert
copy_variables [] m = m
copy_variables ((name, value) ∷ values) m = copy_variables values (insert name value m)

unfoldable pub start_request : (ℕ → String) → Manager → Worker → StartRequest
unfolding controller_variables copy_variables game_name
start_request show m w = record {
  name = game_name w.id;
  region = m.cfg.region;
  custom_data =
      ("fleet_owner", Any.text m.cfg.deployment_id)
      ∷ ("worker_id", Any.text w.id)
      ∷ ("build_hash", Any.text m.cfg.build_hash)
      ∷ [];
  environment_variables = copy_variables m.cfg.server_environment (controller_variables show m w);
  cpu_resources = some (w.cpu_request, w.cpu_limit);
}
