-- ===== src/Console/Auth.antt =====
-- Administrators' sessions, passwords and login limits (internal/console/auth.go and
-- api_token.go). Base64, hexadecimal, PBKDF2 and SHA-256 are the libraries'. Times are in seconds
-- since 1970.
pub mod Passwords
pub mod Sessions
pub mod Logins
pub mod Lifetimes
pub mod Windows
pub mod Throttle
use Prim.Native.Char.{code}
use Prim.Native.String.{len, ◌++◌ as text_append}
use nakama_agones.Prelude.{
  ℕ, ◌+◌, ◌-◌, ◌*◌, String, Bool, true, false, not, ◌&&◌, ◌||◌, Option, none, some, List, [], ◌∷◌,
  ltb, leb, length, ◌==◌, text_Eq, number_Eq, if◌then◌else◌,
}
use nakama_agones.Prelude.Table.{Table, lookup, insert, remove, retain}
use nakama_agones.Console.Names.{every_char, span}

-- what the code calls of the cryptography and encoding packages; a decoder says whether the text
-- is exactly an encoding
pub record Codec : Type 0 where
  pub base64_raw : String → Option String
  pub base64_url : String → Option String
  pub hex : String → Option String
  pub byte_length : String → ℕ
  pub sha256 : String → String
  pub pbkdf2 : String → ℕ → String → Option String

pub record LoginSession : Type 0 where
  pub csrf : String
  pub expires_at : ℕ

pub record LoginAttempts : Type 0 where
  pub count : ℕ
  pub until : ℕ

pub record AuthState : Type 0 where
  pub sessions : Table LoginSession
  pub peers : Table LoginAttempts
  pub global : LoginAttempts

abbrev pub session_lifetime : ℕ
session_lifetime = 28800

abbrev pub max_sessions : ℕ
max_sessions = 64

abbrev pub login_window : ℕ
login_window = 300

abbrev pub login_per_peer : ℕ
login_per_peer = 5

abbrev pub login_global : ℕ
login_global = 20

abbrev pub max_login_peers : ℕ
max_login_peers = 4096

-- the cookies of a request, and the host of its remote address
pub record Request : Type 0 where
  pub cookies : List (String × String)
  pub peer : Option String

-- strings.Split(value, "$")
unfoldable pub split_dollar : String → List String
split_dollar String.[] = "" ∷ []
split_dollar (String.◌∷◌ c s) = elim (split_dollar s) [
  | [] ↦ []
  | first ∷ rest ↦ if code c == b'$' then "" ∷ first ∷ rest else String.◌∷◌ c first ∷ rest
]

-- strings.HasPrefix and strings.TrimPrefix
unfoldable pub cut_prefix : String → String → Option String
cut_prefix String.[] s = some s
cut_prefix (String.◌∷◌ c p) String.[] = none
cut_prefix (String.◌∷◌ c p) (String.◌∷◌ d s) = if code c == code d then cut_prefix p s else none

-- strconv.Atoi of a text that strconv.Itoa writes back: digits without a leading zero. A number
-- below 600000 or above 2000000 is refused afterwards, so that signs and overflow do not matter.
unfoldable pub read_digits : ℕ → String → Option ℕ
read_digits n String.[] = some n
read_digits n (String.◌∷◌ c s) =
    if span b'0' b'9' (code c) then read_digits (n * 10 + (code c - b'0')) s else none
