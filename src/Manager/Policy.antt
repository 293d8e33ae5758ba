-- ===== src/Manager/Policy.antt =====
-- pkg/fleetmanager/policy.go: the capacity policy, its validation and its update.
use Prim.Native.Char.{code}
use Prim.Native.String.{len}
use nakama_agones.Prelude.{
  ℕ, ◌+◌, ◌-◌, String, Bool, true, false, not, ◌&&◌, ◌||◌, Option, none, some, List, [], ◌∷◌, ◌++◌,
  ◌==◌, text_Eq, number_Eq, ltb, leb, drop, length, if◌then◌else◌, Result, ok, Error, ◌>>◌,
  refuse_if,
}
use nakama_agones.Prelude.Float.{Float, whole, is_nan, is_inf, ltb_float}
use nakama_agones.State.{State, CapacityPolicy, PolicyAudit}
use nakama_agones.Manager.{Manager, Runtime, Tx}

pub record PolicyUpdate : Type 0 where
  pub expected_revision : ℕ
  pub rooms_per_instance : ℕ
  pub cpu_request_millicores : ℕ
  pub cpu_limit_millicores : ℕ
  pub actor : String

abbrev pub between : ℕ → ℕ → ℕ → Bool
between lo hi c = leb lo c && leb c hi

-- the test of one character of the actor: a letter, a digit, or one of ._@-
unfoldable pub actor_char : ℕ → Bool
actor_char c =
    between b'a' b'z' c
    || between b'A' b'Z' c
    || between b'0' b'9' c
    || c == b'.'
    || c == b'_'
    || c == b'@'
    || c == b'-'

unfoldable pub actor_chars : String → Bool
unfolding actor_char
actor_chars String.[] = true
actor_chars (String.◌∷◌ c s) = actor_char (code c) && actor_chars s

unfoldable pub validate : PolicyUpdate → Bool
unfolding actor_chars
validate p =
    if ltb p.expected_revision 1
      || ltb p.rooms_per_instance 1
      || ltb 512 p.rooms_per_instance
      || ltb p.cpu_request_millicores 100
      || ltb 64000 p.cpu_request_millicores
      || not (p.cpu_request_millicores == p.cpu_limit_millicores)
      || ltb (len p.actor) 1
      || ltb 64 (len p.actor)
    then false
    else actor_chars p.actor

-- strings.HasSuffix(raw, "m") with strings.TrimSuffix
trim_milli : String → Option String
trim_milli String.[] = none
trim_milli (String.◌∷◌ c String.[]) = if code c == b'm' then some "" else none
trim_milli (String.◌∷◌ c (String.◌∷◌ d s)) = elim (trim_milli (String.◌∷◌ d s)) [
  | none ↦ none
  | some r ↦ some (String.◌∷◌ c r)
]

-- what follows strconv.ParseFloat
quantity_milli : Runtime → ℕ → Option Float → ℕ
quantity_milli r multiplier none = 0
quantity_milli r multiplier (some n) =
    if is_nan n
      || is_inf n
      || ltb_float n (whole 0)
      || ltb_float (whole 1000000000) (r.scale multiplier n)
    then 0
    else r.ceil (r.scale multiplier n)

unfoldable pub cpu_milli : Runtime → String → ℕ
unfolding trim_milli quantity_milli
cpu_milli r raw = if raw == "" then 0 else elim (trim_milli raw) [
  | none ↦ quantity_milli r 1000 (r.parse_float raw)
  | some digits ↦ quantity_milli r 1 (r.parse_float digits)
]

-- the policy that stands in for an absent one
unfoldable pub deployment_policy : Manager → CapacityPolicy
deployment_policy m = record {
  revision = 1;
  rooms_per_instance = m.cfg.max_rooms;
  cpu_request_millicores = cpu_milli m.runtime m.cfg.cpu_request;
  cpu_limit_millicores = cpu_milli m.runtime m.cfg.cpu_limit;
  updated_at = 0;
  updated_by = "deployment";
}

unfoldable pub policy : Manager → State → CapacityPolicy
policy m s = elim s.capacity_policy [ some p ↦ p | none ↦ deployment_policy m ]

unfoldable pub next_policy : CapacityPolicy → PolicyUpdate → ℕ → CapacityPolicy
next_policy old u now = record {
  revision = old.revision + 1;
  rooms_per_instance = u.rooms_per_instance;
  cpu_request_millicores = u.cpu_request_millicores;
  cpu_limit_millicores = u.cpu_limit_millicores;
  updated_at = now;
  updated_by = u.actor;
}

-- the audit trail with one more entry, cut to its last hundred
unfoldable pub append_audit : List PolicyAudit → PolicyAudit → List PolicyAudit
append_audit audit entry =
    let all_ = audit ++ entry ∷ [] in
    if ltb 100 (length all_) then drop (length all_ - 100) all_ else all_

unfoldable pub update_policy : Manager → PolicyUpdate → ℕ → Tx → Result Tx
unfolding next_policy
update_policy m u now tx = do
  refuse_if (not (validate u)) Error.policy_invalid
  let old = policy m tx.state
  refuse_if (not (old.revision == u.expected_revision)) Error.policy_conflict
  let p = next_policy old u now
  ok (record tx {
    state = record tx.state {
      capacity_policy = some p;
      policy_audit =
          append_audit tx.policy_audit
            (record { at = p.updated_at; actor = u.actor; before = old; after = p });
    };
  })
