-- ===== src/Prelude/Results.antt =====
-- The error values of the program, and functions that return a value or an error.
use mathlib.Core.Path.{◌≡◌, refl, subst}
use mathlib.Core.Bool.{Bool, true, false}
use mathlib.Core.Logic.{◌⊎◌, inl, inr}
use mathlib.Core.Option.{Option, none, some}
use mathlib.Core.List.{List, [], ◌∷◌}
use nakama_agones.Prelude.Tests.{if◌then◌else◌}

-- `invalid` is any error made by fmt.Errorf, which callers do not tell apart;
-- `panic` is the dereference of a nil pointer.
pub data Error : Type 0 where
  not_found busy forbidden lease policy_conflict policy_invalid invalid panic : Error

pub data Result {ℓ} (A : Type ℓ) : Type ℓ where
  ok : A → Result A
  err : Error → Result A

infixl 5 ◌>>=◌ ◌>>◌
unfoldable pub ◌>>=◌ {ℓ κ} : {A : Type ℓ} {B : Type κ} → Result A → (A → Result B) → Result B
ok value >>= next = next value
err error >>= next = err error

abbrev pub ◌>>◌ {ℓ} : {B : Type ℓ} → Result (Unit {0}) → Result B → Result B
check >> rest = check >>= λ done. rest

-- `if test { return e }`
unfoldable pub refuse_if : Bool → Error → Result (Unit {0})
refuse_if true e = err e
refuse_if false e = ok tt

unfoldable pub or_fail {ℓ} : {A : Type ℓ} → Option A → Error → Result A
or_fail none e = err e
or_fail (some a) e = ok a

-- A loop whose body may return an error, which ends it.
unfoldable pub try_each {ℓ κ} :
    {A : Type ℓ} {S : Type κ} → (A → S → Result S) → List A → S → Result S
try_each body [] s = ok s
try_each body (x ∷ xs) s = body x s >>= try_each body xs

-- What a function returns, if it returns, satisfies `P`.
pub Result-cases {ℓ} :
    {A : Type ℓ} (r : Result A) → ((e : Error) × (r ≡ err e)) ⊎ ((a : A) × (r ≡ ok a))
Result-cases (ok a) = inr (a, refl)
Result-cases (err e) = inl (e, refl)

pub record Returns {ℓ κ} {A : Type ℓ} (P : A → Type κ) (r : Result A) : Type (ℓ ⊔ κ) where
  pub at : (a : A) → r ≡ ok a → P a

module _ {ℓ κ} {A : Type ℓ} (P : A → Type κ) where
  pub Returns-ok : (a : A) → P a → Returns P (ok a)
  Returns-ok a h = record { at = λ b e. subst P (ok_inj a b e) h }
    where
      ok_inj : (x y : A) → ok x ≡ ok y → x ≡ y
      ok_inj x y e = cc

  pub Returns-err : (e : Error) → Returns P (err e)
  Returns-err e = record { at = λ b h. absurd (cc h) }

-- One rule for each way in which a transaction goes on.
module _ {ℓ μ} {B : Type ℓ} (Q : B → Type μ) where
  pub Returns-seq {κ} :
      {A : Type κ} (m : Result A) (f : A → Result B)
      → ((a : A) → m ≡ ok a → Returns Q (f a))
      → Returns Q (m >>= f)
  unfolding ◌>>=◌
  Returns-seq (ok a) f h = h a refl
  Returns-seq (err e) f h = Returns-err Q e

  pub Returns-refuse_if :
      (b : Bool) (e : Error) (k : Unit {0} → Result B)
      → (b ≡ false → Returns Q (k tt))
      → Returns Q (refuse_if b e >>= k)
  unfolding ◌>>=◌ refuse_if
  Returns-refuse_if true e k h = Returns-err Q e
  Returns-refuse_if false e k h = h refl

  pub Returns-or_fail {κ} :
      {A : Type κ} (o : Option A) (e : Error) (f : A → Result B)
      → ((a : A) → o ≡ some a → Returns Q (f a))
      → Returns Q (or_fail o e >>= f)
  unfolding ◌>>=◌ or_fail
  Returns-or_fail none e f h = Returns-err Q e
  Returns-or_fail (some a) e f h = h a refl

  pub Returns-if :
      (b : Bool) (r s : Result B)
      → (b ≡ true → Returns Q r)
      → (b ≡ false → Returns Q s)
      → Returns Q (if b then r else s)
  Returns-if true r s h k = h refl
  Returns-if false r s h k = k refl

  pub Returns-elim {κ} :
      {A : Type κ} (o : Option A) (r : Result B) (f : A → Result B)
      → (o ≡ none → Returns Q r)
      → ((a : A) → o ≡ some a → Returns Q (f a))
      → Returns Q (elim o [ none ↦ r | some a ↦ f a ])
  Returns-elim none r f h k = h refl
  Returns-elim (some a) r f h k = k a refl

pub try_each_inv {ℓ κ μ} :
    {A : Type ℓ} {S : Type κ} (P : S → Type μ) (body : A → S → Result S)
    → ((x : A) (s : S) → P s → Returns P (body x s))
    → (xs : List A) (s : S) → P s
    → Returns P (try_each body xs s)
unfolding try_each
try_each_inv P body keep [] s h = Returns-ok P s h
try_each_inv P body keep (x ∷ xs) s h =
    Returns-seq P (body x s) (try_each body xs)
      (λ t e. try_each_inv P body keep xs t ((keep x s h).at t e))
