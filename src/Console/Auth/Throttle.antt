-- ===== src/Console/Auth/Throttle.antt =====
-- How many logins the limits let through (allowLogin of internal/console/auth.go).
use mathlib.Core.Path.{subst}
use nakama_agones.Prelude.{
  ℕ, ◌+◌, ◌≤◌, ◌<◌, sym, ap, String, Bool, true, ◌&&◌, ◌||◌, Option, none, some, List, [], ◌∷◌, ltb,
  leb, length, arith, Bool-cases, Option-cases, ◌⊎◌, inl, inr, ◌==◌, text_Eq, number_Eq,
  if◌then◌else◌, eq_iff,
}
use nakama_agones.Prelude.Table.{lookup, keys}
use nakama_agones.Prelude.Table.Laws.{lookup-insert}
use nakama_agones.Prelude.Table.Distinct.{Distinct, insert-Distinct, retain-Distinct, lookup-retain}
use nakama_agones.Console.Auth.{LoginAttempts, AuthState, Request}
use nakama_agones.Console.Auth.Sessions.{prune}
use nakama_agones.Console.Auth.Windows.{
  left, left_of, left-window, left-new, left_of-prune, left-one_more,
}
use nakama_agones.Console.Auth.Logins.{
  peer_name, new_attempts, global_window, one_more, count_login, allow_pruned, allow_login,
}

-- the attempts of a list of requests that are allowed, one after the other
unfoldable pub attempts : (String → Bool) → List (ℕ × Request) → AuthState → ℕ
attempts who [] s = 0
attempts who ((now, r) ∷ rest) s =
    let later = attempts who rest (allow_login now r s).0 in
    if (allow_login now r s).1 && who (peer_name r) then later + 1 else later

abbrev Within : ℕ → List (ℕ × Request) → Type 0
Within start [] = Unit
Within start ((now, r) ∷ rest) = (start ≤ now) × (now < start + 300) × Within start rest

abbrev counted : Bool → ℕ
counted b = if b then 1 else 0

module _ (start now : ℕ) (early : start ≤ now) (late : now < start + 300) where
  -- an attempt, allowed or not, against the global window
  count_login-left :
      (peer : String) (item : LoginAttempts) (s : AuthState)
      → left 20 (start + 300) (count_login peer (global_window now s.global) item s).0.global
          + counted (count_login peer (global_window now s.global) item s).1
        ≤ left 20 (start + 300) s.global
  unfolding count_login
  count_login-left peer item s =
      let g = global_window now s.global in
      elim (Bool-cases (leb 20 g.count || leb 5 item.count)) [
        | inl full ↦ rw full (omega arith)
        | inr room ↦
            rw room (left-window 20 start now early late (omega arith) s.global (ground arith))
      ]

  allow_pruned-left :
      (peer : String) (s : AuthState)
      → left 20 (start + 300) (allow_pruned now peer s).0.global
          + counted (allow_pruned now peer s).1
        ≤ left 20 (start + 300) s.global
  unfolding allow_pruned
  allow_pruned-left peer s = elim (Option-cases (lookup peer s.peers)) [
    | inr (item, e) ↦ rw (e, allow_pruned) (count_login-left peer item s)
    | inl e ↦ elim (Bool-cases (leb 4096 (length s.peers))) [
      | inl full ↦ rw (e, allow_pruned, full) (omega arith)
      | inr room ↦ rw (e, allow_pruned, room) (count_login-left peer (new_attempts now) s)
    ]
  ]

  allow_login-left :
      (r : Request) (s : AuthState)
      → left 20 (start + 300) (allow_login now r s).0.global + counted (allow_login now r s).1
        ≤ left 20 (start + 300) s.global
  unfolding allow_login prune
  allow_login-left r s = allow_pruned-left (peer_name r) (prune now s)

  -- the same against the window of one peer
  count_login-left_of :
      (who peer : String) (g item : LoginAttempts) (s : AuthState)
      → left 5 (start + 300) (one_more item) + 1 ≤ left_of 5 (start + 300) (lookup peer s.peers)
        ⊎ (5 ≤ item.count)
      → left_of 5 (start + 300) (lookup who (count_login peer g item s).0.peers)
          + counted ((count_login peer g item s).1 && peer == who)
        ≤ left_of 5 (start + 300) (lookup who s.peers)
  unfolding count_login left_of
  count_login-left_of who peer g item s fits =
      elim (Bool-cases (leb 20 g.count || leb 5 item.count)) [
        | inl full ↦ rw full (omega arith)
        | inr room ↦ elim (Bool-cases (peer == who)) [
          | inl same ↦
              rw (room, lookup-insert, same)
                (elim fits [
                  | inl le ↦
                      subst
                        (λ w.
                          left 5 (start + 300) (one_more item) + 1
                          ≤ left_of 5 (start + 300) (lookup w s.peers))
                        ((eq_iff peer who).0 same) le
                  | inr full ↦ absurd (ground arith)
                ])
          | inr other ↦ rw (room, lookup-insert, other) (omega arith)
        ]
      ]

  Fits : LoginAttempts → Option LoginAttempts → Type 0
  Fits item o =
      left 5 (start + 300) (one_more item) + 1 ≤ left_of 5 (start + 300) o ⊎ (5 ≤ item.count)

  Fits-old : (item : LoginAttempts) → Fits item (some item)
  unfolding Fits left_of
  Fits-old item = elim (Bool-cases (leb 5 item.count)) [
    | inl full ↦ inr (ground arith)
    | inr room ↦ inl (left-one_more 5 (start + 300) item (ground arith))
  ]

  fits-new : left 5 (start + 300) (one_more (new_attempts now)) + 1 ≤ left_of 5 (start + 300) none
  unfolding left_of
  fits-new = left-new 5 start now early late (omega arith)

  allow_pruned-left_of :
      (who peer : String) (s : AuthState)
      → left_of 5 (start + 300) (lookup who (allow_pruned now peer s).0.peers)
          + counted ((allow_pruned now peer s).1 && peer == who)
        ≤ left_of 5 (start + 300) (lookup who s.peers)
  unfolding allow_pruned Fits
  allow_pruned-left_of who peer s = elim (Option-cases (lookup peer s.peers)) [
    | inr (item, e) ↦
        rw (e, allow_pruned)
          (count_login-left_of who peer (global_window now s.global) item s
            (subst (Fits item) (sym e) (Fits-old item)))
    | inl e ↦ elim (Bool-cases (leb 4096 (length s.peers))) [
      | inl full ↦ rw (e, allow_pruned, full) (omega arith)
      | inr room ↦
          rw (e, allow_pruned, room)
            (count_login-left_of who peer (global_window now s.global) (new_attempts now) s
              (subst (Fits (new_attempts now)) (sym e) (inl fits-new)))
    ]
  ]

  allow_login-left_of :
      (who : String) (r : Request) (s : AuthState)
      → Distinct (keys s.peers)
      → left_of 5 (start + 300) (lookup who (allow_login now r s).0.peers)
          + counted ((allow_login now r s).1 && peer_name r == who)
        ≤ left_of 5 (start + 300) (lookup who s.peers)
  unfolding allow_login prune
  allow_login-left_of who r s d = omega (
    arith,
    allow_pruned-left_of who (peer_name r) (prune now s),
    left_of-prune 5 start now (lookup who s.peers) late,
    ap (left_of 5 (start + 300)) (lookup-retain (λ v. ltb now v.until) who s.peers d),
  )

count_login-Distinct :
    (peer : String) (g item : LoginAttempts) (s : AuthState)
    → Distinct (keys s.peers)
    → Distinct (keys (count_login peer g item s).0.peers)
unfolding count_login
count_login-Distinct peer g item s d = elim (Bool-cases (leb 20 g.count || leb 5 item.count)) [
  | inl full ↦ rw full d
  | inr room ↦ rw room (insert-Distinct peer (one_more item) s.peers d)
]

allow_pruned-Distinct :
    (now : ℕ) (peer : String) (s : AuthState)
    → Distinct (keys s.peers)
    → Distinct (keys (allow_pruned now peer s).0.peers)
unfolding allow_pruned
allow_pruned-Distinct now peer s d = elim (Option-cases (lookup peer s.peers)) [
  | inr (item, e) ↦
      rw (e, allow_pruned) (count_login-Distinct peer (global_window now s.global) item s d)
  | inl e ↦ elim (Bool-cases (leb 4096 (length s.peers))) [
    | inl full ↦ rw (e, allow_pruned, full) d
    | inr room ↦
        rw (e, allow_pruned, room)
          (count_login-Distinct peer (global_window now s.global) (new_attempts now) s d)
  ]
]

allow_login-Distinct :
    (now : ℕ) (r : Request) (s : AuthState)
    → Distinct (keys s.peers)
    → Distinct (keys (allow_login now r s).0.peers)
unfolding allow_login prune
allow_login-Distinct now r s d =
    allow_pruned-Distinct now (peer_name r) (prune now s)
      (retain-Distinct (λ v. ltb now v.until) s.peers d)

attempts-left :
    (start : ℕ) (requests : List (ℕ × Request)) (s : AuthState)
    → Within start requests
    → attempts (λ peer. true) requests s ≤ left 20 (start + 300) s.global
unfolding attempts
attempts-left start [] s w = omega arith
attempts-left start ((now, r) ∷ rest) s w =
    let here = allow_login-left start now w.0 w.1 r s in
    let later = attempts-left start rest (allow_login now r s).0 w.2 in ground arith

attempts-left_of :
    (start : ℕ) (who : String) (requests : List (ℕ × Request)) (s : AuthState)
    → Within start requests
    → Distinct (keys s.peers)
    → attempts (λ peer. peer == who) requests s ≤ left_of 5 (start + 300) (lookup who s.peers)
unfolding attempts
attempts-left_of start who [] s w d = omega arith
attempts-left_of start who ((now, r) ∷ rest) s w d =
    let here = allow_login-left_of start now w.0 w.1 who r s d in
    let later =
      attempts-left_of start who rest (allow_login now r s).0 w.2
        (allow_login-Distinct now r s d) in
    ground arith

left_of-le : (end : ℕ) (o : Option LoginAttempts) → left_of 5 end o ≤ 10
unfolding left_of left
left_of-le end none = omega arith
left_of-le end (some a) = ground arith

left-le : (end : ℕ) (a : LoginAttempts) → left 20 end a ≤ 40
unfolding left
left-le end a = ground arith

-- From any state, of the attempts to log in that arrive within five minutes, however they are
-- ordered and wherever they come from, at most 40 are allowed, and at most 10 of one peer: the
-- limits of two windows.
pub allow_login-bounds :
    (start : ℕ) (requests : List (ℕ × Request)) (who : String) (s : AuthState)
    → Within start requests
    → Distinct (keys s.peers)
    → (attempts (λ peer. true) requests s ≤ 40) × (attempts (λ peer. peer == who) requests s ≤ 10)
allow_login-bounds start requests who s w d = (
  omega (arith, attempts-left start requests s w, left-le (start + 300) s.global),
  omega (
    arith,
    attempts-left_of start who requests s w d,
    left_of-le (start + 300) (lookup who s.peers),
  ),
)
