-- ===== src/Agones/Requests.antt =====
-- One request to the API, and the errors of the client (request, failure, isStatus and uncertain of
-- internal/agones/client.go).
use nakama_agones.Prelude.{
  ℕ, ◌≡◌, refl, ◌⊎◌, inl, inr, String, Bool, true, false, ◌&&◌, ◌||◌, leb, ltb, ◌==◌, number_Eq,
  if◌then◌else◌,
}
use nakama_agones.Provider.{ApiError, Cause}

pub data Method : Type 0 where
  get post put delete : Method

abbrev pub is_post : Method → Bool
is_post Method.post = true
is_post m = false

-- What becomes of one exchange: the request was not sent, for a reason that was found here; no
-- answer came; a status outside 2xx came, with a Retry-After of so many seconds (0 for none); the
-- body could not be read or was not the JSON that was wanted; or it was.
pub data Exchange (A : Type 0) : Type 0 where
  unsent : Cause → String → Exchange A
  broken : Cause → Exchange A
  rejected : ℕ → ℕ → Exchange A
  garbled : ℕ → String → Exchange A
  answered : A → Exchange A

pub data Attempt (A : Type 0) : Type 0 where
  ok : A → Attempt A
  err : ApiError → Attempt A

pub Attempt-cases :
    {A : Type 0} (r : Attempt A) → ((e : ApiError) × (r ≡ err e)) ⊎ ((a : A) × (r ≡ ok a))
Attempt-cases (ok a) = inr (a, refl)
Attempt-cases (err e) = inl (e, refl)

unfoldable pub failure : String → ℕ → String → Bool → ApiError
failure op status reason unknown = record {
  operation = op;
  status_code = status;
  reason = reason;
  retry_after = 0;
  outcome_unknown = unknown;
  cause = Cause.nil;
}

unfoldable pub request : {A : Type 0} → String → Method → Exchange A → Attempt A
unfolding failure
request op method (unsent cause reason) = err (record (failure op 0 reason false) { cause = cause })
request op method (broken cause) =
    err (record (failure op 0 "transport_error" (is_post method)) { cause = cause })
request op method (rejected status seconds) =
    err
      (record (failure op status "kubernetes_rejected_request"
        (is_post method && (leb 500 status || status == 408))) {
          retry_after = if ltb 3600 seconds then 3600 else seconds;
        })
request op method (garbled status reason) = err (failure op status reason (is_post method))
request op method (answered a) = ok a

unfoldable pub is_status : {A : Type 0} → ℕ → Attempt A → Bool
is_status status (ok a) = false
is_status status (err e) = e.status_code == status

unfoldable pub is_unknown : {A : Type 0} → Attempt A → Bool
is_unknown (ok a) = false
is_unknown (err e) = e.outcome_unknown

unfoldable pub uncertain : ApiError → ApiError
uncertain e = record e { outcome_unknown = true }
