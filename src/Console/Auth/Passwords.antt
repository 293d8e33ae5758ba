-- ===== src/Console/Auth/Passwords.antt =====
-- The administrator's password and the token of the read-only API (internal/console/auth.go and
-- api_token.go).
use Prim.Native.String.{len, ◌++◌ as text_append}
use nakama_agones.Prelude.{
  ℕ, String, Bool, false, not, ◌||◌, Option, none, some, List, [], ◌∷◌, ltb, ◌==◌, text_Eq,
  number_Eq, if◌then◌else◌,
}
use nakama_agones.Console.Names.{every_char, span}
use nakama_agones.Console.Auth.{Codec, split_dollar, cut_prefix, read_digits}

infixl 5 ◌>>=◌
unfoldable pub ◌>>=◌ : {A B : Type 0} → Option A → (A → Option B) → Option B
none >>= next = none
some a >>= next = next a

pub record PasswordHash : Type 0 where
  pub iterations : ℕ
  pub salt : String
  pub key : String

-- no leading zero, as strconv.Itoa writes it
unfoldable pub plain_number : String → Option ℕ
unfolding read_digits
plain_number s = elim (cut_prefix "0" s) [
  | some rest ↦ none
  | none ↦ if s == "" then none else read_digits 0 s
]

module _ (codec : Codec) where
  unfoldable pub decode_sized : ℕ → Option String → Option String
  decode_sized size none = none
  decode_sized size (some raw) = if codec.byte_length raw == size then some raw else none

  unfoldable pub parse_hash_parts : List String → Option PasswordHash
  unfolding ◌>>=◌ decode_sized plain_number
  parse_hash_parts (scheme ∷ count ∷ salt ∷ key ∷ []) =
      if not (scheme == "pbkdf2-sha256")
      then none
      else (plain_number count >>= λ iterations.
          decode_sized 32 (codec.base64_raw salt) >>= λ raw_salt.
          decode_sized 32 (codec.base64_raw key) >>= λ raw_key.
          if ltb iterations 600000 || ltb 2000000 iterations
          then none
          else some (record { iterations = iterations; salt = raw_salt; key = raw_key }))
  parse_hash_parts parts = none

  unfoldable pub parse_password_hash : String → Option PasswordHash
  unfolding parse_hash_parts split_dollar
  parse_password_hash value =
      if ltb 256 (len value) then none else parse_hash_parts (split_dollar value)

  -- a constant-time comparison is an equality
  unfoldable pub verify_password : String → String → Bool
  unfolding parse_password_hash
  verify_password password encoded = elim (parse_password_hash encoded) [
    | none ↦ false
    | some h ↦
        if ltb 1024 (len password) || ltb (len password) 12
        then false
        else (elim (codec.pbkdf2 password h.iterations h.salt) [
          | none ↦ false
          | some actual ↦ actual == h.key
        ])
  ]

  -- HashPassword with the salt that was drawn
  unfoldable pub hash_password : String → (String → String) → String → Option String
  hash_password password encode salt =
      if ltb (len password) 12 || ltb 1024 (len password)
      then none
      else (codec.pbkdf2 password 600000 salt >>= λ key. some (
          text_append "pbkdf2-sha256$600000$"
            (text_append (encode salt) (text_append "$" (encode key)))))

  -- lower-case characters only: value == strings.ToLower(value) for the hexadecimal texts
  unfoldable pub read_token_digest : String → Option String
  unfolding cut_prefix every_char decode_sized
  read_token_digest value =
      if not (len value == 71) || not (every_char (λ c. not (span b'A' b'Z' c)) value)
      then none
      else (cut_prefix "sha256:" value >>= λ digits. decode_sized 32 (codec.hex digits))

  unfoldable pub verify_read_api_token : String → String → Bool
  unfolding read_token_digest cut_prefix decode_sized
  verify_read_api_token token hash = elim (read_token_digest hash) [
    | none ↦ false
    | some expected ↦
        if not (len token == 48)
        then false
        else (elim (cut_prefix "fcro_" token >>= λ raw. decode_sized 32 (codec.base64_url raw)) [
          | none ↦ false
          | some raw ↦ codec.sha256 token == expected
        ])
  ]
