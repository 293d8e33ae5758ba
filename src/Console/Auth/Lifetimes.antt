-- ===== src/Console/Auth/Lifetimes.antt =====
-- How long a session lives, and how many there are (internal/console/auth.go).
use Prim.Native.String.{len}
use nakama_agones.Prelude.{
  ℕ, ◌+◌, ◌≤◌, ◌<◌, ◌≡◌, refl, ◌∙◌, ap, String, Bool, true, false, ◌||◌, none, some, [], ◌∷◌, ltb,
  leb, length, arith, Bool-cases, Option-cases, inl, inr, ◌==◌, text_Eq, number_Eq, eq_iff,
}
use nakama_agones.Prelude.Table.{Table, lookup, insert, remove, retain, keys}
use nakama_agones.Prelude.Table.Laws.{lookup-insert, lookup-remove}
use nakama_agones.Prelude.Table.Distinct.{has_key}
use nakama_agones.Console.Auth.{Codec, LoginSession, AuthState, Request}
use nakama_agones.Console.Auth.Passwords.{decode_sized, ◌>>=◌}
use nakama_agones.Console.Auth.Sessions.{
  prune, session_cookie_name, cookie_values, token_key, request_session_key, request_session,
  oldest_of, drop_request_session, make_room, create_session, delete_session,
}

module _ {V : Type 0} where
  length-insert-le : (k : String) (v : V) (m : Table V) → length (insert k v m) ≤ length m + 1
  unfolding insert
  length-insert-le k v [] = omega arith
  length-insert-le k v ((i, w) ∷ m) = ground (arith, length-insert-le k v m)

  length-remove-le : (k : String) (m : Table V) → length (remove k m) ≤ length m
  unfolding remove
  length-remove-le k [] = omega arith
  length-remove-le k ((i, w) ∷ m) = ground (arith, length-remove-le k m)

  length-remove-lt :
      (k : String) (m : Table V) → has_key k (keys m) ≡ true → length (remove k m) < length m
  unfolding remove
  length-remove-lt k [] h = absurd (cc h)
  length-remove-lt k ((i, w) ∷ m) h = ground (arith, length-remove-le k m, length-remove-lt k m)

  length-retain-le : (p : V → Bool) (m : Table V) → length (retain p m) ≤ length m
  unfolding retain
  length-retain-le p [] = omega arith
  length-retain-le p ((i, w) ∷ m) = ground (arith, length-retain-le p m)

-- the session that is removed is one of those there are
oldest_of-some :
    (k : String) (v : LoginSession) (m : Table LoginSession)
    → (j : String) × (w : LoginSession) × (oldest_of (some (k, v)) m ≡ some (j, w))
      × ((k == j) || has_key j (keys m) ≡ true)
unfolding oldest_of
oldest_of-some k v [] = (k, v, refl, ground (arith, eq_iff k k))
oldest_of-some k v ((i, w) ∷ m) = elim (Bool-cases (ltb w.expires_at v.expires_at)) [
  | inl older ↦ let r = oldest_of-some i w m in rw older (r.0, r.1, r.2, ground (arith, r.3))
  | inr younger ↦ let r = oldest_of-some k v m in rw younger (r.0, r.1, r.2, ground (arith, r.3))
]

oldest_of-none :
    (m : Table LoginSession)
    → 1 ≤ length m
    → (j : String) × (w : LoginSession) × (oldest_of none m ≡ some (j, w))
      × (has_key j (keys m) ≡ true)
unfolding oldest_of
oldest_of-none [] h = absurd (omega (arith, h))
oldest_of-none ((k, v) ∷ m) h = oldest_of-some k v m

make_room-lt : (s : AuthState) → length s.sessions ≤ 64 → length (make_room s).sessions < 64
unfolding make_room
make_room-lt s h = elim (Bool-cases (leb 64 (length s.sessions))) [
  | inr room ↦ rw room (ground arith)
  | inl full ↦
      let r = oldest_of-none s.sessions (ground arith) in
      rw (full, r.2) (omega (arith, h, length-remove-lt r.0 s.sessions r.3))
]

module _ (codec : Codec) (secure : Bool) where
  drop_request_session-le :
      (r : Request) (s : AuthState)
      → length (drop_request_session codec secure r s).sessions ≤ length s.sessions
  unfolding drop_request_session
  drop_request_session-le r s = elim (Option-cases (request_session_key codec secure r)) [
    | inl e ↦ rw (e, drop_request_session) (omega arith)
    | inr (key, e) ↦ rw (e, drop_request_session) (length-remove-le key s.sessions)
  ]

  create_session-le :
      (now : ℕ) (token csrf : String) (r : Request) (s : AuthState)
      → length s.sessions ≤ 64
      → length (create_session codec secure now token csrf r s).0.sessions ≤ 64
  unfolding create_session prune
  create_session-le now token csrf r s h =
      let dropped = drop_request_session codec secure r (prune now s) in
      omega (
        arith,
        length-insert-le (codec.sha256 token) _ (make_room dropped).sessions,
        make_room-lt dropped (
            omega (
              arith,
              h,
              drop_request_session-le r (prune now s),
              length-retain-le (λ v. ltb now v.expires_at) s.sessions,
            )),
      )

  -- a request with the cookie of a session that is created now
  pub record Carries (token : String) (r : Request) : Type 0 where
    pub cookies : r.cookies ≡ (session_cookie_name secure, token) ∷ []
    pub sized : len token ≡ 43
    pub raw : String
    pub decoded : codec.base64_url token ≡ some raw
    pub complete : codec.byte_length raw ≡ 32

  one_cookie :
      (name value : String) (r : Request)
      → r.cookies ≡ (name, value) ∷ []
      → cookie_values name r.cookies ≡ value ∷ []
  unfolding cookie_values
  one_cookie name value r e = rw e (ground (arith, eq_iff name name))

  one_token :
      (token : String) (r : Request)
      → Carries token r
      → token_key codec secure (token ∷ []) ≡ some (codec.sha256 token)
  unfolding token_key decode_sized ◌>>=◌
  one_token token r h = rw (h.sized, h.decoded, decode_sized, h.complete) refl

  Carries-key :
      (token : String) (r : Request)
      → Carries token r
      → request_session_key codec secure r ≡ some (codec.sha256 token)
  unfolding request_session_key
  Carries-key token r h =
      ap (token_key codec secure) (one_cookie (session_cookie_name secure) token r h.cookies)
      ∙ one_token token r h

  request-live :
      (now : ℕ) (r : Request) (s : AuthState) (key : String) (v : LoginSession)
      → request_session_key codec secure r ≡ some key
      → lookup key s.sessions ≡ some v
      → now < v.expires_at
      → request_session codec secure now r s ≡ (s, some v)
  unfolding request_session
  request-live now r s key v k e live =
      let on : ltb now v.expires_at ≡ true = ground arith in rw (k, request_session, e, on) refl

  request-over :
      (now : ℕ) (r : Request) (s : AuthState) (key : String) (v : LoginSession)
      → request_session_key codec secure r ≡ some key
      → lookup key s.sessions ≡ some v
      → v.expires_at ≤ now
      → (request_session codec secure now r s).1 ≡ none
  unfolding request_session
  request-over now r s key v k e over =
      let off : ltb now v.expires_at ≡ false = ground arith in rw (k, request_session, e, off) refl

  request-absent :
      (now : ℕ) (r : Request) (s : AuthState) (key : String)
      → request_session_key codec secure r ≡ some key
      → lookup key s.sessions ≡ none
      → (request_session codec secure now r s).1 ≡ none
  unfolding request_session
  request-absent now r s key k e = rw (k, request_session, e) refl

  deleted-absent :
      (r : Request) (s : AuthState) (key : String)
      → request_session_key codec secure r ≡ some key
      → lookup key (delete_session codec secure r s).sessions ≡ none
  unfolding delete_session drop_request_session
  deleted-absent r s key k =
      rw (k, drop_request_session)
        (ground (arith, lookup-remove key key s.sessions, eq_iff key key))

  lookup-inserted :
      (key : String) (v : LoginSession) (m : Table LoginSession)
      → lookup key (insert key v m) ≡ some v
  lookup-inserted key v m = ground (arith, lookup-insert key key v m, eq_iff key key)

  created-there :
      (now : ℕ) (token csrf : String) (r : Request) (s : AuthState)
      → lookup (codec.sha256 token) (create_session codec secure now token csrf r s).0.sessions
        ≡ some (create_session codec secure now token csrf r s).1
  unfolding create_session
  created-there now token csrf r s =
      lookup-inserted (codec.sha256 token) _
        (make_room (drop_request_session codec secure r (prune now s))).sessions

  -- what a session that was created at `now` is good for
  pub record Cycle (now later : ℕ) (r : Request) (t : AuthState) (v : LoginSession) : Type 0 where
    pub lifetime : v.expires_at ≡ now + 28800
    pub live : later < now + 28800 → request_session codec secure later r t ≡ (t, some v)
    pub over : now + 28800 ≤ later → (request_session codec secure later r t).1 ≡ none
    pub deleted : (request_session codec secure later r (delete_session codec secure r t)).1 ≡ none
    pub bounded : length t.sessions ≤ 64

  -- Logging in and back: after a session is created with a token, a request that carries this
  -- token as its one session cookie is answered with exactly that session for eight hours, and
  -- with none from then on, or after the session is deleted; there are at most 64 sessions if
  -- there were before.
  pub create_session-Cycle :
      (now later : ℕ) (token csrf : String) (first r : Request) (s : AuthState)
      → Carries token r
      → length s.sessions ≤ 64
      → Cycle now later r
          (create_session codec secure now token csrf first s).0
          (create_session codec secure now token csrf first s).1
  unfolding create_session
  create_session-Cycle now later token csrf first r s h few =
      let key = Carries-key token r h in
      let t = (create_session codec secure now token csrf first s).0 in
      let there = created-there now token csrf first s in
      record {
        lifetime = refl;
        live = λ early. request-live later r t (codec.sha256 token) _ key there early;
        over = λ late. request-over later r t (codec.sha256 token) _ key there late;
        deleted =
            request-absent later r (delete_session codec secure r t) (codec.sha256 token) key
              (deleted-absent r t (codec.sha256 token) key);
        bounded = create_session-le now token csrf first s few;
      }
