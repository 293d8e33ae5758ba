-- ===== src/Manager/Passes.antt =====
-- What tickets, tokens and pages promise (pkg/fleetmanager/token.go and manager.go).
use nakama_agones.Prelude.{
  ℕ, ◌+◌, ◌≤◌, ◌<◌, ◌≡◌, ◌≢◌, refl, ap, ◌∙◌, eq_iff, String, Bool, true, false, ◌&&◌, some, List,
  [], ◌∷◌, length, text_lt, arith, text_Eq, number_Eq, ltb, Bool-cases, inl, inr, err, Error,
  Returns, Returns-ok, Returns-err, Returns-refuse_if, Returns-or_fail,
}
use nakama_agones.Prelude.Int.{ℤ, pos, ltb_ℤ, leb_ℤ, integer_Eq, eqb_ℤ_iff}
use nakama_agones.Prelude.Table.{Table}
use nakama_agones.Prelude.Table.Laws.{All, All-sort, take-All}
use nakama_agones.State.{State, Worker, Session}
use nakama_agones.Manager.Tickets.{
  AdmissionClaims, Crypto, bytes_eq, valid_claims, verify_parts, verify_admission, ticket_expiry,
}
use nakama_agones.Manager.Listing.{Filter, listed, ids_after, page, list_workers}

-- how long a ticket may last
pub record Lasts (now : ℕ) (resume : Bool) (s : Session) (expires : ℕ) : Type 0 where
  pub lasts : now < expires
  pub seated : resume ≡ false → expires ≡ s.expires_at
  pub short : resume ≡ true → expires ≤ now + 45
  pub leased : resume ≡ true → 0 < s.reconnect_until → expires ≤ s.reconnect_until
  pub returning : resume ≡ true → s.ever_connected ≡ true

-- A ticket for a seat has not expired. A first ticket lasts as long as the reservation; a ticket to
-- come back is given only to a player who was connected, lasts at most 45 seconds, and not beyond
-- the reconnection lease if one runs.
pub ticket_expiry-Lasts :
    (now : ℕ) (resume : Bool) (s : Session)
    → Returns (Lasts now resume s) (ticket_expiry now resume s)
unfolding ticket_expiry
ticket_expiry-Lasts now true s = Returns-refuse_if _ _ _ _ λ open_. Returns-ok _ _ (record {
  lasts = ground arith;
  seated = λ e. ground arith;
  short = λ e. ground arith;
  leased = λ e h. ground arith;
  returning = λ e. ground arith;
})
ticket_expiry-Lasts now false s = Returns-refuse_if _ _ _ _ λ open_. Returns-ok _ _ (record {
  lasts = ground arith;
  seated = λ e. refl;
  short = λ e. ground arith;
  leased = λ e h. ground arith;
  returning = λ e. ground arith;
})

-- what the list of a page holds
abbrev pub After : String → Table Worker → String → Type 0
After after m wid = text_lt after wid ≡ true

ids_after-After :
    (f : Filter) (after : String) (m : Table Worker) → All (After after m) (ids_after f after m)
unfolding ids_after
ids_after-After f after [] = tt
ids_after-After f after ((wid, w) ∷ m) = elim (Bool-cases (text_lt after wid && listed f w)) [
  | inl e ↦ rw e (ground arith, ids_after-After f after m)
  | inr e ↦ rw e (ids_after-After f after m)
]

page-bounds :
    (P : String → Type 0) (limit : ℕ) (ids : List String)
    → All P ids
    → (length (page limit ids).0 ≤ limit) × All P (page limit ids).0
unfolding page
page-bounds P limit ids h = elim (Bool-cases (ltb limit (length ids))) [
  | inl long ↦ let t = take-All P limit ids h in rw long (t.1, t.0)
  | inr short ↦ rw short (ground arith, h)
]

-- A page of List has at most as many workers as asked for, which is at most a hundred, and every
-- identifier on it comes after the cursor.
pub list_workers-bounds :
    (s : State) (f : Filter) (limit : ℕ) (after : String)
    → Returns
        (λ r. (length r.0 ≤ limit) × (limit ≤ 100) × All (λ wid. text_lt after wid ≡ true) r.0)
        (list_workers s f limit after)
unfolding list_workers
list_workers-bounds s f limit after = Returns-refuse_if _ _ _ _ λ few. Returns-ok _ _ (
    let p =
      page-bounds (After after s.workers) limit _
        (All-sort _ text_lt _ (ids_after-After f after s.workers)) in
    (p.0, ground arith, p.1))

-- what a verified token is
pub record Verified (c : Crypto) (key : List ℕ) (token : String) (now : ℕ)
    (claims : AdmissionClaims) : Type 0 where
  pub payload : String
  pub signature : String
  pub raw : List ℕ
  pub parts : c.split token ≡ payload ∷ signature ∷ []
  pub signed : c.decode signature ≡ some (c.derive key payload)
  pub decoded : c.decode payload ≡ some raw
  pub claimed : c.unmarshal raw ≡ some claims
  pub version : claims.schema_version ≡ pos 1
  pub named : claims.user_id ≢ ""
  pub lasts : ltb_ℤ (pos now) claims.expires_at ≡ true
  pub short : leb_ℤ claims.expires_at (pos (now + 60)) ≡ true

bytes_eq-same : (xs ys : List ℕ) → bytes_eq xs ys ≡ true → xs ≡ ys
unfolding bytes_eq
bytes_eq-same [] [] e = refl
bytes_eq-same [] (y ∷ ys) e = absurd (ground arith)
bytes_eq-same (x ∷ xs) [] e = absurd (ground arith)
bytes_eq-same (x ∷ xs) (y ∷ ys) e =
    let tails : xs ≡ ys = bytes_eq-same xs ys (ground arith) in
    let heads : x ≡ y = ground arith in cc

above : (a b : ℤ) → leb_ℤ a b ≡ false → ltb_ℤ b a ≡ true
above a b h = ground arith

within : (a b : ℤ) → ltb_ℤ a b ≡ false → leb_ℤ b a ≡ true
within a b h = ground arith

module _ (c : Crypto) (key : List ℕ) (token : String) (now : ℕ) where
  verify_parts-Verified :
      (payload signature : String)
      → c.split token ≡ payload ∷ signature ∷ []
      → Returns (Verified c key token now) (verify_parts c key payload signature now)
  unfolding verify_parts valid_claims
  verify_parts-Verified payload signature parts = Returns-or_fail _ _ _ _ λ sig e.
      Returns-refuse_if _ _ _ _ λ same. Returns-or_fail _ _ _ _ λ raw d.
        Returns-or_fail _ _ _ _ λ claims u. Returns-refuse_if _ _ _ _ λ valid.
          Returns-ok _ claims (record {
            payload = payload;
            signature = signature;
            raw = raw;
            parts = parts;
            signed = e ∙ ap some (bytes_eq-same sig (c.derive key payload) (ground arith));
            decoded = d;
            claimed = u;
            version = (eqb_ℤ_iff claims.schema_version (pos 1)).0 (ground arith);
            named = λ h. ground (arith, valid, (eq_iff claims.user_id "").1 h);
            lasts = above claims.expires_at (pos now) (ground arith);
            short = within (pos (now + 60)) claims.expires_at (ground arith);
          })

  -- A token that passes the verification has two parts, the second of which is the signature of the
  -- first under the key; the first holds the claims, which are of version 1 and for a named user,
  -- have not expired and expire within 60 seconds.
  pub verify_admission-Verified :
      Returns (Verified c key token now) (verify_admission c key token now)
  unfolding verify_admission
  verify_admission-Verified = Returns-refuse_if _ _ _ _ λ small. by_parts (c.split token) refl
    where
      by_parts :
          (ps : List String)
          → c.split token ≡ ps
          → Returns (Verified c key token now) (elim ps [
            | payload ∷ signature ∷ [] ↦ verify_parts c key payload signature now
            | _ ↦ err Error.invalid
          ])
      by_parts [] e = Returns-err _ _
      by_parts (p ∷ []) e = Returns-err _ _
      by_parts (p ∷ q ∷ []) e = verify_parts-Verified p q e
      by_parts (p ∷ q ∷ r ∷ rs) e = Returns-err _ _
