-- ===== src/Console/Names.antt =====
-- The shapes of names that the console accepts (internal/console/source.go, enrollment_client.go,
-- config.go, http.go and feishu.go). Each is a test of every character and of the length.
use Prim.Native.Char.{code}
use Prim.Native.String.{len}
use nakama_agones.Prelude.{ℕ, String, Bool, true, false, ◌&&◌, ◌||◌, ◌==◌, leb, number_Eq}

unfoldable pub every_char : (ℕ → Bool) → String → Bool
every_char p String.[] = true
every_char p (String.◌∷◌ c s) = p (code c) && every_char p s

abbrev pub first_char : (ℕ → Bool) → String → Bool
first_char p String.[] = false
first_char p (String.◌∷◌ c s) = p (code c)

unfoldable pub last_char : (ℕ → Bool) → String → Bool
last_char p String.[] = false
last_char p (String.◌∷◌ c String.[]) = p (code c)
last_char p (String.◌∷◌ c (String.◌∷◌ d s)) = last_char p (String.◌∷◌ d s)

abbrev pub span : ℕ → ℕ → ℕ → Bool
span low high c = leb low c && leb c high

abbrev digit : ℕ → Bool
digit = span b'0' b'9'

abbrev lower : ℕ → Bool
lower = span b'a' b'z'

abbrev letter : ℕ → Bool
letter c = lower c || span b'A' b'Z' c

abbrev small : ℕ → Bool
small c = lower c || digit c

abbrev bounded : ℕ → ℕ → String → Bool
bounded low high s = leb low (len s) && leb (len s) high

-- ^[a-z0-9](?:[-a-z0-9.]{0,251}[a-z0-9])?$
unfoldable pub dns_name : String → Bool
dns_name s =
    bounded 1 253 s
    && first_char small s
    && last_char small s
    && every_char (λ c. small c || c == b'-' || c == b'.') s

-- ^[a-f0-9]{32}$
unfoldable pub worker_name : String → Bool
worker_name s = bounded 32 32 s && every_char (λ c. span b'a' b'f' c || digit c) s

-- ^[a-z0-9](?:[-a-z0-9]{0,61}[a-z0-9])?$
unfoldable pub enrollment_label : String → Bool
enrollment_label s =
    bounded 1 63 s
    && first_char small s
    && last_char small s
    && every_char (λ c. small c || c == b'-') s

-- ^[a-zA-Z0-9-]{1,128}$
unfoldable pub enrollment_uid : String → Bool
enrollment_uid s = bounded 1 128 s && every_char (λ c. letter c || digit c || c == b'-') s

-- ^[0-9]{1,32}$
unfoldable pub enrollment_version : String → Bool
enrollment_version s = bounded 1 32 s && every_char digit s

-- strings.Contains(s, "..")
unfoldable pub has_dots : String → Bool
has_dots String.[] = false
has_dots (String.◌∷◌ c String.[]) = false
has_dots (String.◌∷◌ c (String.◌∷◌ d s)) =
    (code c == b'.' && code d == b'.') || has_dots (String.◌∷◌ d s)

unfoldable pub valid_username : String → Bool
valid_username s =
    bounded 1 64 s
    && first_char (λ c. letter c || digit c) s
    && every_char (λ c. letter c || digit c || c == b'_' || c == b'.' || c == b'@' || c == b'-') s

unfoldable pub safe_error_code : String → Bool
safe_error_code s = bounded 1 64 s && every_char (λ c. small c || c == b'_') s
