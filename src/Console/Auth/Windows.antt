-- ===== src/Console/Auth/Windows.antt =====
-- What the window of a login limit leaves (allowLogin of internal/console/auth.go).
use nakama_agones.Prelude.{
  ℕ, ◌+◌, ◌-◌, ◌≤◌, ◌<◌, Option, none, some, ltb, leb, arith, if◌then◌else◌,
}
use nakama_agones.Console.Auth.{LoginAttempts}
use nakama_agones.Console.Auth.Logins.{new_attempts, global_window, one_more}

-- what is left of a window whose limit is `limit`, and of the one after it if it begins before
-- `end`
unfoldable pub left : ℕ → ℕ → LoginAttempts → ℕ
left limit end a = (limit - a.count) + (if leb end a.until then 0 else limit)

unfoldable pub left_of : ℕ → ℕ → Option LoginAttempts → ℕ
left_of limit end none = limit
left_of limit end (some a) = left limit end a

-- a window that an allowed attempt counts in
module _ (limit start now : ℕ) (early : start ≤ now) (late : now < start + 300)
    (some_ : 1 ≤ limit) where
  -- the window that is open, or a new one
  pub left-window :
      (g : LoginAttempts)
      → (global_window now g).count < limit
      → left limit (start + 300) (one_more (global_window now g)) + 1 ≤ left limit (start + 300) g
  unfolding left one_more global_window new_attempts
  left-window g room = ground arith

  pub left-new : left limit (start + 300) (one_more (new_attempts now)) + 1 ≤ limit
  unfolding left one_more new_attempts
  left-new = ground arith

-- A window that is over when it is pruned leaves as much as a new one.
pub left_of-prune :
    (limit start now : ℕ) (o : Option LoginAttempts)
    → now < start + 300
    → left_of limit
        (start + 300)
        (elim o [ none ↦ none | some a ↦ if ltb now a.until then some a else none ])
      ≤ left_of limit (start + 300) o
unfolding left_of left
left_of-prune limit start now none late = omega arith
left_of-prune limit start now (some a) late = ground arith

pub left-one_more :
    (limit end : ℕ) (a : LoginAttempts)
    → a.count < limit
    → left limit end (one_more a) + 1 ≤ left limit end a
unfolding left one_more
left-one_more limit end a room = ground arith
