-- ===== src/Console/Auth/Logins.antt =====
-- The limits on attempts to log in (allowLogin of internal/console/auth.go).
use nakama_agones.Prelude.{
  ℕ, ◌+◌, String, Bool, true, false, ◌||◌, none, some, ltb, leb, length, number_Eq, if◌then◌else◌,
}
use nakama_agones.Prelude.Table.{lookup, insert}
use nakama_agones.Console.Auth.{
  LoginAttempts, AuthState, Request, login_window, login_per_peer, login_global, max_login_peers,
}
use nakama_agones.Console.Auth.Sessions.{prune}

unfoldable pub peer_name : Request → String
peer_name r = elim r.peer [ none ↦ "unknown" | some host ↦ host ]

unfoldable pub new_attempts : ℕ → LoginAttempts
new_attempts now = record { count = 0; until = now + login_window }

unfoldable pub global_window : ℕ → LoginAttempts → LoginAttempts
unfolding new_attempts
global_window now g = if ltb now g.until then g else new_attempts now

unfoldable pub one_more : LoginAttempts → LoginAttempts
one_more a = record a { count = a.count + 1 }

-- the rest of allowLogin, with the two windows
unfoldable pub count_login : String → LoginAttempts → LoginAttempts → AuthState → AuthState × Bool
unfolding insert one_more
count_login peer global item s =
    if leb login_global global.count || leb login_per_peer item.count
    then (s, false)
    else (record s { global = one_more global; peers = insert peer (one_more item) s.peers }, true)

unfoldable pub allow_pruned : ℕ → String → AuthState → AuthState × Bool
unfolding count_login global_window new_attempts lookup
allow_pruned now peer s = elim (lookup peer s.peers) [
  | some item ↦ count_login peer (global_window now s.global) item s
  | none ↦
      if leb max_login_peers (length s.peers)
      then (s, false)
      else count_login peer (global_window now s.global) (new_attempts now) s
]

unfoldable pub allow_login : ℕ → Request → AuthState → AuthState × Bool
unfolding allow_pruned peer_name prune
allow_login now r s = allow_pruned now (peer_name r) (prune now s)
