-- ===== src/Agones/Identifiers.antt =====
-- Names of workers, game servers and instances (internal/agones/client.go).
use Prim.Native.Char.{code}
use Prim.Native.String.{len, ◌++◌ as text_append}
use nakama_agones.Prelude.{
  ℕ, String, Bool, ◌&&◌, ◌||◌, Option, none, some, List, [], ◌∷◌, leb, ◌==◌, number_Eq,
  if◌then◌else◌,
}
use nakama_agones.Console.Names.{span, every_char, first_char}
use nakama_agones.Console.Auth.{cut_prefix}

abbrev pub alphanumeric : ℕ → Bool
alphanumeric c = span b'a' b'z' c || span b'A' b'Z' c || span b'0' b'9' c

-- ^[a-f0-9]{32}$
unfoldable pub worker_id : String → Bool
worker_id s = len s == 32 && every_char (λ c. span b'a' b'f' c || span b'0' b'9' c) s

-- ^[A-Za-z0-9][-A-Za-z0-9]{0,127}$
unfoldable pub resource_uid : String → Bool
resource_uid s =
    leb (len s) 128 && first_char alphanumeric s && every_char (λ c. alphanumeric c || c == b'-') s

-- ^[A-Za-z_][A-Za-z0-9_]{0,127}$
unfoldable pub env_name : String → Bool
env_name s =
    leb (len s) 128
    && first_char (λ c. span b'a' b'z' c || span b'A' b'Z' c || c == b'_') s
    && every_char (λ c. alphanumeric c || c == b'_') s

unfoldable pub game_name : String → String
game_name worker = text_append "nag-" worker

unfoldable pub secret_name : String → String
secret_name name = text_append name "-credentials"

-- g.Metadata.Name + "@" + g.Metadata.UID
unfoldable pub instance_id : String → String → String
instance_id name uid = text_append name (text_append "@" uid)

-- strings.Split(id, "@")
unfoldable pub split_at : String → List String
split_at String.[] = "" ∷ []
split_at (String.◌∷◌ c s) = elim (split_at s) [
  | [] ↦ []
  | first ∷ rest ↦ if code c == b'@' then "" ∷ first ∷ rest else String.◌∷◌ c first ∷ rest
]

unfoldable pub parse_id_parts : List String → Option (String × String)
unfolding worker_id resource_uid cut_prefix
parse_id_parts (name ∷ uid ∷ []) = elim (cut_prefix "nag-" name) [
  | none ↦ none
  | some worker ↦ if worker_id worker && resource_uid uid then some (name, uid) else none
]
parse_id_parts parts = none

unfoldable pub parse_id : String → Option (String × String)
unfolding parse_id_parts split_at
parse_id id = parse_id_parts (split_at id)
