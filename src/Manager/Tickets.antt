-- ===== src/Manager/Tickets.antt =====
-- Admission tokens and assignments: pkg/fleetmanager/token.go, and Assignment of manager.go.
use Prim.Native.String.{len, ◌++◌ as text_append}
use nakama_agones.Prelude.{
  ℕ, ◌+◌, String, Bool, true, false, not, ◌&&◌, ◌||◌, Option, none, some, List, [], ◌∷◌, ◌==◌,
  text_Eq, number_Eq, ltb, leb, if◌then◌else◌, Result, ok, err, Error, ◌>>=◌, ◌>>◌, refuse_if,
  or_fail,
}
use nakama_agones.Prelude.Int.{ℤ, pos, negsuc, ltb_ℤ, leb_ℤ, integer_Eq}
use nakama_agones.Prelude.Table.{lookup, range}
use nakama_agones.State.{State, Worker, Allocation, Session}
use nakama_agones.State.Phases.{WorkerState, worker_state_Eq, Phase, phase_Eq, Reason, terminal}
use nakama_agones.Manager.{Manager}
use nakama_agones.Manager.Admission.{older_than}
use nakama_agones.Manager.Users.{contains}

pub record AdmissionClaims : Type 0 where
  pub schema_version : ℤ
  pub user_id : String
  pub worker_id : String
  pub boot_id : String
  pub room_id : String
  pub allocation_id : String
  pub reservation_id : String
  pub seat : ℤ
  pub epoch : ℤ
  pub expires_at : ℤ
  pub nonce : String
  pub resume : Bool

-- What the tokens use of the libraries: `marshal` and `unmarshal` are json.Marshal and
-- json.Unmarshal of claims, `encode` and `decode` are unpadded base64url, `derive` is HMAC-SHA256,
-- and `split` is strings.Split at dots.
pub record Crypto : Type 0 where
  pub marshal : AdmissionClaims → Option (List ℕ)
  pub unmarshal : List ℕ → Option AdmissionClaims
  pub encode : List ℕ → String
  pub decode : String → Option (List ℕ)
  pub derive : List ℕ → String → List ℕ
  pub split : String → List String

unfoldable pub bytes_eq : List ℕ → List ℕ → Bool
bytes_eq [] [] = true
bytes_eq (a ∷ as_) (b ∷ bs) = a == b && bytes_eq as_ bs
bytes_eq _ _ = false

-- `sign`
unfoldable pub sign : Crypto → List ℕ → AdmissionClaims → Result String
sign c key claims = do
  b ← or_fail (c.marshal claims) Error.invalid
  let payload = c.encode b
  ok (text_append payload (text_append "." (c.encode (c.derive key payload))))

-- the test of the claims
unfoldable pub valid_claims : ℕ → AdmissionClaims → Bool
valid_claims now c = not (
    not (c.schema_version == pos 1)
    || c.user_id == ""
    || c.worker_id == ""
    || c.boot_id == ""
    || c.room_id == ""
    || c.allocation_id == ""
    || c.reservation_id == ""
    || c.nonce == ""
    || ltb_ℤ c.epoch (pos 1)
    || ltb_ℤ c.seat (pos 0)
    || leb_ℤ c.expires_at (pos now)
    || ltb_ℤ (pos (now + 60)) c.expires_at)

-- what VerifyAdmission does with the two parts of a token
unfoldable pub verify_parts : Crypto → List ℕ → String → String → ℕ → Result AdmissionClaims
unfolding valid_claims bytes_eq
verify_parts c key payload signature now = do
  sig ← or_fail (c.decode signature) Error.invalid
  refuse_if (not (bytes_eq sig (c.derive key payload))) Error.invalid
  raw ← or_fail (c.decode payload) Error.invalid
  claims ← or_fail (c.unmarshal raw) Error.invalid
  refuse_if (not (valid_claims now claims)) Error.invalid
  ok claims

-- VerifyAdmission
unfoldable pub verify_admission : Crypto → List ℕ → String → ℕ → Result AdmissionClaims
unfolding verify_parts
verify_admission c key token now = do
  refuse_if (ltb 4096 (len token)) Error.invalid
  elim (c.split token) [
    | payload ∷ signature ∷ [] ↦ verify_parts c key payload signature now
    | _ ↦ err Error.invalid
  ]

pub record Endpoint : Type 0 where
  pub host : String
  pub port : ℕ
  pub transport : String

-- less the schema version, which is always 1
pub record Assignment : Type 0 where
  pub allocation_id : String
  pub revision : ℕ
  pub state : Phase
  pub worker_id : String
  pub boot_id : String
  pub room_id : String
  pub seat : ℤ
  pub endpoint : Option Endpoint
  pub build_hash : String
  pub admission_token : String
  pub expires_at : ℕ
  pub reconnect_seconds : ℕ
  pub error : Reason

-- the condition under which the loop of Assignment prefers the candidate
unfoldable pub preferred : Option Allocation → Allocation → Bool
preferred none candidate = true
preferred (some a) candidate =
    terminal a.state && not (terminal candidate.state)
    || ((terminal a.state && terminal candidate.state
          || not (terminal a.state) && not (terminal candidate.state))
        && ltb a.created_at candidate.created_at)

-- the loop
unfoldable pub latest_of : String → List Allocation → Option Allocation → Option Allocation
unfolding preferred
latest_of user [] a = a
latest_of user (candidate ∷ rest) a =
    latest_of user rest
      (if contains candidate.user_ids user && preferred a candidate then some candidate else a)

-- the allocation that the assignment is about
unfoldable pub subject : State → String → String → Result Allocation
unfolding latest_of
subject s user aid =
    if aid == "" then or_fail (latest_of user (range s.allocations) none) Error.not_found else do
      a ← or_fail (lookup aid s.allocations) Error.not_found
      refuse_if (not (contains a.user_ids user)) Error.forbidden
      ok a

abbrev pub without_seat : Manager → Allocation → Assignment
without_seat m a = record {
  allocation_id = a.id;
  revision = a.revision;
  state = a.state;
  worker_id = a.worker_id;
  boot_id = "";
  room_id = a.room_id;
  seat = negsuc 0;
  endpoint = none;
  build_hash = m.cfg.build_hash;
  admission_token = "";
  expires_at = a.expires_at;
  reconnect_seconds = m.cfg.reconnect_seconds;
  error = a.error;
}

-- whether the worker cannot take the player
unfoldable pub unreachable : Manager → ℕ → Bool → Worker → Bool
unreachable m now resume w =
    not w.provider_ready
    || (not w.ready && not (resume && w.draining && w.state == WorkerState.draining))
    || w.boot_id == ""
    || w.host == ""
    || older_than now w.last_heartbeat m.cfg.heartbeat_timeout
    || (not (w.state == WorkerState.ready) && not (w.state == WorkerState.draining))

-- the expiry of the ticket for a seat, or the refusal
unfoldable pub ticket_expiry : ℕ → Bool → Session → Result ℕ
ticket_expiry now resume s =
    if resume
    then (do
      refuse_if (not s.ever_connected || (ltb 0 s.reconnect_until && leb s.reconnect_until now))
          Error.busy
      ok (
          if ltb 0 s.reconnect_until && ltb s.reconnect_until (now + 45)
          then s.reconnect_until
          else now + 45))
    else do refuse_if (leb s.expires_at now) Error.busy; ok s.expires_at

-- the user's seat
unfoldable pub find_session : String → List Session → Option Session
find_session user [] = none
find_session user (s ∷ ss) =
    let rest = find_session user ss in if s.user_id == user then some s else rest

-- Assignment on the state of a View; `nonce` is the identifier that it draws
unfoldable pub assignment :
    Crypto → Manager → State → String → String → Bool → ℕ → String → Result Assignment
unfolding subject unreachable ticket_expiry find_session sign
assignment c m s user aid resume now nonce = do
  a ← subject s user aid
  if not (a.state == Phase.assigned) && not (a.state == Phase.active)
      then ok (without_seat m a)
      else do
        w ← or_fail (lookup a.worker_id s.workers) Error.busy
        refuse_if (unreachable m now resume w) Error.busy
        session ← or_fail (find_session user a.sessions) Error.forbidden
        expires ← ticket_expiry now resume session
        token ← sign c (c.derive m.cfg.signing_key (text_append "admission:" w.id)) (record {
          schema_version = pos 1;
          user_id = user;
          worker_id = w.id;
          boot_id = w.boot_id;
          room_id = a.room_id;
          allocation_id = a.id;
          reservation_id = session.id;
          seat = pos session.seat;
          epoch = pos a.epoch;
          expires_at = pos expires;
          nonce = nonce;
          resume = resume;
        })
        ok (record (without_seat m a) {
          boot_id = w.boot_id;
          seat = pos session.seat;
          endpoint = some (record { host = w.host; port = w.port; transport = "tugboat-udp" });
          build_hash = w.build_hash;
          admission_token = token;
          expires_at = expires;
        })
