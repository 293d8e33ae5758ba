-- ===== src/Console/Auth/Sessions.antt =====
-- Sessions (internal/console/auth.go).
use Prim.Native.String.{len}
use nakama_agones.Prelude.{
  ℕ, ◌+◌, String, Bool, not, Option, none, some, List, [], ◌∷◌, ltb, leb, length, ◌==◌, text_Eq,
  number_Eq, if◌then◌else◌,
}
use nakama_agones.Prelude.Table.{Table, lookup, insert, remove, retain}
use nakama_agones.Console.Auth.{
  Codec, LoginSession, AuthState, Request, session_lifetime, max_sessions,
}
use nakama_agones.Console.Auth.Passwords.{decode_sized, ◌>>=◌}

-- `pruneLocked`: deadlines are absolute
unfoldable pub prune : ℕ → AuthState → AuthState
unfolding retain
prune now s = record s {
  sessions = retain (λ v. ltb now v.expires_at) s.sessions;
  peers = retain (λ v. ltb now v.until) s.peers;
}

unfoldable pub session_cookie_name : Bool → String
session_cookie_name secure = if secure then "__Host-fleet-admin" else "fleet-admin-session"

-- the values of the cookies of that name
unfoldable pub cookie_values : String → List (String × String) → List String
cookie_values name [] = []
cookie_values name ((n, v) ∷ rest) =
    let others = cookie_values name rest in if n == name then v ∷ others else others

-- the key of the session that expires first, given the first one of those read so far
unfoldable pub oldest_of :
    Option (String × LoginSession) → Table LoginSession → Option (String × LoginSession)
oldest_of best [] = best
oldest_of none ((k, v) ∷ rest) = oldest_of (some (k, v)) rest
oldest_of (some (k₀, v₀)) ((k, v) ∷ rest) =
    oldest_of (if ltb v.expires_at v₀.expires_at then some (k, v) else some (k₀, v₀)) rest

unfoldable pub make_room : AuthState → AuthState
unfolding oldest_of remove
make_room s =
    if leb max_sessions (length s.sessions)
    then elim (oldest_of none s.sessions) [
      | none ↦ s
      | some (k, v) ↦ record s { sessions = remove k s.sessions }
    ]
    else s

module _ (codec : Codec) (secure : Bool) where
  -- the key of the session that the one session cookie names
  unfoldable pub token_key : List String → Option String
  unfolding decode_sized
  token_key (token ∷ []) =
      if not (len token == 43)
      then none
      else (decode_sized codec 32 (codec.base64_url token) >>= λ raw. some (codec.sha256 token))
  token_key tokens = none

  unfoldable pub request_session_key : Request → Option String
  unfolding token_key cookie_values session_cookie_name
  request_session_key r = token_key (cookie_values (session_cookie_name secure) r.cookies)

  unfoldable pub request_session : ℕ → Request → AuthState → AuthState × Option LoginSession
  unfolding request_session_key lookup remove
  request_session now r s = elim (request_session_key r) [
    | none ↦ (s, none)
    | some key ↦ elim (lookup key s.sessions) [
      | none ↦ (s, none)
      | some v ↦
          if ltb now v.expires_at
          then (s, some v)
          else (record s { sessions = remove key s.sessions }, none)
    ]
  ]

  unfoldable pub drop_request_session : Request → AuthState → AuthState
  unfolding request_session_key remove
  drop_request_session r s = elim (request_session_key r) [
    | none ↦ s
    | some key ↦ record s { sessions = remove key s.sessions }
  ]

  -- createSession with the two tokens that were drawn
  unfoldable pub create_session :
      ℕ → String → String → Request → AuthState → AuthState × LoginSession
  unfolding prune drop_request_session make_room insert
  create_session now token csrf r s =
      let value : LoginSession = record { csrf = csrf; expires_at = now + session_lifetime } in
      let room = make_room (drop_request_session r (prune now s)) in
      (record room { sessions = insert (codec.sha256 token) value room.sessions }, value)

  unfoldable pub delete_session : Request → AuthState → AuthState
  unfolding drop_request_session
  delete_session r s = drop_request_session r s
