-- ===== src/Manager/Signing.antt =====
-- A token's way from the manager to the game server (pkg/fleetmanager/token.go).
use Prim.Native.String.{len, ◌++◌ as text_append}
use nakama_agones.Prelude.{
  ℕ, ◌<◌, String, ◌≡◌, refl, Bool, true, false, not, ◌||◌, ◌&&◌, ◌==◌, some, List, [], ◌∷◌, ltb,
  err, ok, Error, ◌>>=◌, ◌>>◌, or_fail, refuse_if, if◌then◌else◌, arith, number_Eq, Bool-cases, inl,
  inr, Returns, Returns-ok, Returns-seq, Returns-refuse_if, Returns-or_fail,
}
use nakama_agones.Manager.Tickets.{
  AdmissionClaims, Crypto, Assignment, bytes_eq, valid_claims, verify_parts, verify_admission, sign,
  assignment,
}
use nakama_agones.Prelude.Int.{pos}
use nakama_agones.Prelude.Table.{lookup}
use nakama_agones.State.{State, Worker}
use nakama_agones.State.Phases.{Phase, phase_Eq}
use nakama_agones.Manager.{Manager}
use nakama_agones.Manager.Passes.{ticket_expiry-Lasts}

bytes_eq_refl : (xs : List ℕ) → bytes_eq xs xs ≡ true
unfolding bytes_eq
bytes_eq_refl [] = refl
bytes_eq_refl (x ∷ xs) = let rest = bytes_eq_refl xs in ground arith

guards-if :
    {A : Type 0} (long valid : Bool) (a : A)
    → (refuse_if long Error.invalid >>= λ done. refuse_if (not valid) Error.invalid >> ok a)
      ≡ (if long || not valid then err Error.invalid else ok a)
unfolding refuse_if ◌>>=◌
guards-if true valid a = refl
guards-if false true a = refl
guards-if false false a = refl

-- A token that is signed for claims is verified under the same key at any time: if it has at most
-- 4096 characters and the claims are valid then, the answer is exactly these claims, and otherwise
-- the token is refused. This is for claims that JSON and base64url give back, in encodings without
-- a dot.
pub sign-verify_admission :
    (c : Crypto) (key : List ℕ) (claims : AdmissionClaims) (raw : List ℕ) (now : ℕ)
    (payload signature : String)
    → c.marshal claims ≡ some raw
    → c.unmarshal raw ≡ some claims
    → c.encode raw ≡ payload
    → c.decode payload ≡ some raw
    → c.encode (c.derive key payload) ≡ signature
    → c.decode signature ≡ some (c.derive key payload)
    → c.split (text_append payload (text_append "." signature)) ≡ payload ∷ signature ∷ []
    → (sign c key claims >>= λ token. verify_admission c key token now) ≡ (
        sign c key claims >>= λ token.
        if ltb 4096 (len token) || not (valid_claims now claims)
        then err Error.invalid
        else ok claims)
unfolding sign verify_admission verify_parts or_fail refuse_if ◌>>=◌
sign-verify_admission c key claims raw now payload signature made read carried back signed same
      parts =
    rw (made, carried, signed, parts, same, bytes_eq_refl (c.derive key payload), back, read)
      (guards-if (ltb 4096 (len (text_append payload (text_append "." signature))))
        (valid_claims now claims) claims)

-- the claims that the token of an assignment is signed for
pub record Admits (c : Crypto) (m : Manager) (s : State) (user : String) (now : ℕ) (resume : Bool)
    (out : Assignment) : Type 0 where
  pub worker : Worker
  pub claims : AdmissionClaims
  pub found : lookup out.worker_id s.workers ≡ some worker
  pub signed :
      sign c (c.derive m.cfg.signing_key (text_append "admission:" worker.id)) claims
      ≡ ok out.admission_token
  pub of_user : claims.user_id ≡ user
  pub of_worker : claims.worker_id ≡ worker.id
  pub of_boot : claims.boot_id ≡ out.boot_id
  pub of_room : claims.room_id ≡ out.room_id
  pub of_allocation : claims.allocation_id ≡ out.allocation_id
  pub of_seat : claims.seat ≡ out.seat
  pub resumes : claims.resume ≡ resume
  pub version : claims.schema_version ≡ pos 1
  pub lapses : claims.expires_at ≡ pos out.expires_at
  pub lasts : now < out.expires_at

-- The token of an assignment to an assigned or active room is signed under the key of the worker
-- that the assignment names, for claims of version 1 of the asking user that agree with the
-- assignment on the boot, the room, the allocation, the seat and the expiry, which is yet to come.
pub assignment-Admits :
    (c : Crypto) (m : Manager) (s : State) (user aid : String) (resume : Bool) (now : ℕ)
    (nonce : String)
    → Returns
        (λ out.
          (out.state == Phase.assigned || out.state == Phase.active) ≡ true
          → Admits c m s user now resume out)
        (assignment c m s user aid resume now nonce)
unfolding assignment
assignment-Admits c m s user aid resume now nonce = Returns-seq _ _ _ λ a e.
    elim (Bool-cases (not (a.state == Phase.assigned) && not (a.state == Phase.active))) [
      | inl early ↦ rw early (Returns-ok _ _ (λ h. absurd (ground arith)))
      | inr there ↦ rw there (
          Returns-or_fail _ _ _ _ λ w found. Returns-refuse_if _ _ _ _ λ reachable.
            Returns-or_fail _ _ _ _ λ session seat. Returns-seq _ _ _ λ expires lasts.
              Returns-seq _ _ _ λ token signed. Returns-ok _ _ (λ h. record {
                worker = w;
                claims = _;
                found = found;
                signed = signed;
                of_user = refl;
                of_worker = refl;
                of_boot = refl;
                of_room = refl;
                of_allocation = refl;
                of_seat = refl;
                resumes = refl;
                version = refl;
                lapses = refl;
                lasts = ((ticket_expiry-Lasts now resume session).at expires lasts).lasts;
              }))
    ]
