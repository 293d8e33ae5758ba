-- ===== src/Prelude/Table/Laws.antt =====
-- Laws of tables: what each write leaves under a key, and how it changes a count.
use Prim.Native.Nat.{◌+◌, ◌≤◌}
use Prim.Native.String.{String}
use mathlib.Core.Path.{◌≡◌, refl}
use mathlib.Core.Bool.{Bool, true}
use mathlib.Core.Option.{Option, none, some}
use mathlib.Core.Option
use mathlib.Core.List.{List, [], ◌∷◌}
use mathlib.Core.Path.{subst}
use mathlib.Core.Logic.{inl, inr}
use native.Mathlib.Omega.{arith}
use text.Mathlib.TextEquality.{eq_iff}
use nakama_agones.Prelude.Tests.{Bool-cases, Option-cases, ◌==◌, if◌then◌else◌, text_Eq}
use Prim.Native.Nat.{ℕ, zero, suc}
use nakama_agones.Prelude.Lists.{length, take, insert_sorted, sort}
use nakama_agones.Prelude.Table.{
  Table, bit, lookup, insert, modify, remove, found, count, map_values, retain,
}

-- every entry, with its key
abbrev pub Entries {ℓ κ} : {V : Type ℓ} → (String → V → Type κ) → Table V → Type κ
Entries P [] = Unit
Entries P ((k, v) ∷ m) = P k v × Entries P m

abbrev pub All {ℓ κ} : {V : Type ℓ} → (V → Type κ) → List V → Type κ
All P [] = Unit
All P (x ∷ xs) = P x × All P xs

module _ {ℓ} {V : Type ℓ} where
  pub lookup-insert :
      (key : String) (wanted : String) (new : V) (m : Table V)
      → lookup wanted (insert key new m) ≡ (if key == wanted then some new else lookup wanted m)
  unfolding insert lookup
  lookup-insert key wanted new [] = refl
  lookup-insert key wanted new ((there, old) ∷ m) = ground (
    arith,
    lookup-insert key wanted new m,
    eq_iff there wanted,
    eq_iff there key,
    eq_iff key wanted,
  )

  pub lookup-remove :
      (k j : String) (m : Table V) → lookup j (remove k m) ≡ (if k == j then none else lookup j m)
  unfolding lookup remove
  lookup-remove k j [] = ground arith
  lookup-remove k j ((i, w) ∷ m) =
      ground (arith, eq_iff k j, eq_iff i k, eq_iff i j, lookup-remove k j m)

  pub count-insert-le :
      (p : V → Bool) (k : String) (v : V) (m : Table V)
      → count p (insert k v m) ≤ count p m + bit (p v)
  unfolding count insert
  count-insert-le p k v [] = omega arith
  count-insert-le p k v ((j, w) ∷ m) = ground (arith, count-insert-le p k v m)

  pub count-remove-le : (p : V → Bool) (k : String) (m : Table V) → count p (remove k m) ≤ count p m
  unfolding count remove
  count-remove-le p k [] = omega arith
  count-remove-le p k ((j, w) ∷ m) = ground (arith, count-remove-le p k m)

  pub count-modify :
      (p : V → Bool) (k : String) (f : V → V) (v : V) (m : Table V)
      → lookup k m ≡ some v
      → count p (modify k f m) + bit (p v) ≡ count p m + bit (p (f v))
  unfolding count modify lookup
  count-modify p k f v [] h = cc
  count-modify p k f v ((j, w) ∷ m) h = ground (arith, count-modify p k f v m)

  pub count-map_values-le :
      (p : V → Bool) (f : V → V)
      → ((v : V) → p (f v) ≡ true → p v ≡ true)
      → (m : Table V) → count p (map_values f m) ≤ count p m
  unfolding count map_values
  count-map_values-le p f h [] = omega arith
  count-map_values-le p f h ((k, v) ∷ m) = ground (arith, h v, count-map_values-le p f h m)

  pub count-retain-le : (p q : V → Bool) (m : Table V) → count p (retain q m) ≤ count p m
  unfolding count retain
  count-retain-le p q [] = omega arith
  count-retain-le p q ((k, v) ∷ m) = ground (arith, count-retain-le p q m)

  pub lookup-map_values :
      (k : String) (f : V → V) (m : Table V) → lookup k (map_values f m) ≡ Option.map f (lookup k m)
  unfolding lookup map_values
  lookup-map_values k f [] = refl
  lookup-map_values k f ((j, v) ∷ m) = ground (arith, lookup-map_values k f m)

  pub lookup-modify :
      (k j : String) (f : V → V) (m : Table V)
      → lookup j (modify k f m) ≡ (if k == j then Option.map f (lookup j m) else lookup j m)
  unfolding lookup modify
  lookup-modify k j f [] = ground arith
  lookup-modify k j f ((i, w) ∷ m) =
      ground (arith, eq_iff k j, eq_iff i k, eq_iff i j, lookup-modify k j f m)

  pub count-modify-le :
      (p : V → Bool) (k : String) (f : V → V)
      → ((v : V) → p (f v) ≡ true → p v ≡ true)
      → (m : Table V) → count p (modify k f m) ≤ count p m
  unfolding count modify
  count-modify-le p k f h [] = omega arith
  count-modify-le p k f h ((j, w) ∷ m) = ground (arith, h w, count-modify-le p k f h m)

  pub count-modify-le_suc :
      (p : V → Bool) (k : String) (f : V → V) (m : Table V) → count p (modify k f m) ≤ count p m + 1
  unfolding count modify
  count-modify-le_suc p k f [] = omega arith
  count-modify-le_suc p k f ((j, w) ∷ m) = ground (arith, count-modify-le_suc p k f m)

  -- A write that does not give the entry a property that it lacked.
  pub count-modify_at :
      (p : V → Bool) (k : String) (f : V → V) (v : V) (m : Table V)
      → lookup k m ≡ some v
      → (p (f v) ≡ true → p v ≡ true)
      → count p (modify k f m) ≤ count p m
  count-modify_at p k f v m found_ h = ground (arith, count-modify p k f v m found_)

  pub count-modify_missing :
      (p : V → Bool) (k : String) (f : V → V) (m : Table V)
      → lookup k m ≡ none
      → count p (modify k f m) ≡ count p m
  unfolding count modify lookup
  count-modify_missing p k f [] h = refl
  count-modify_missing p k f ((j, w) ∷ m) h = ground (arith, count-modify_missing p k f m)

  -- The same, whether or not there is an entry.
  pub count-modify_if :
      (p : V → Bool) (k : String) (f : V → V) (m : Table V)
      → ((v : V) → lookup k m ≡ some v → p (f v) ≡ true → p v ≡ true)
      → count p (modify k f m) ≤ count p m
  count-modify_if p k f m h = elim (Option-cases (lookup k m)) [
    | inl missing ↦ omega (arith, count-modify_missing p k f m missing)
    | inr (v, there) ↦ count-modify_at p k f v m there (h v there)
  ]

module _ {ℓ κ} {V : Type ℓ} (P : String → V → Type κ) where
  pub Entries-lookup :
      (k : String) (v : V) (m : Table V) → Entries P m → lookup k m ≡ some v → P k v
  unfolding lookup
  Entries-lookup k v [] h e = cc
  Entries-lookup k v ((j, w) ∷ m) h e = elim (Bool-cases (j == k)) [
    | inl same ↦
        let here : w ≡ v = ground arith in
        let key : j ≡ k = (eq_iff j k).0 same in subst (λ i. P i v) key (subst (P j) here h.0)
    | inr other ↦ Entries-lookup k v m h.1 (ground arith)
  ]

  pub Entries-insert :
      (k : String) (v : V) (m : Table V) → P k v → Entries P m → Entries P (insert k v m)
  unfolding insert
  Entries-insert k v [] p h = (p, tt)
  Entries-insert k v ((j, w) ∷ m) p h = elim (Bool-cases (j == k)) [
    | inl same ↦ rw same (p, h.1)
    | inr other ↦ rw other (h.0, Entries-insert k v m p h.1)
  ]

  pub Entries-modify :
      (k : String) (f : V → V) (m : Table V)
      → ((j : String) (v : V) → P j v → P j (f v))
      → Entries P m
      → Entries P (modify k f m)
  unfolding modify
  Entries-modify k f [] keep h = tt
  Entries-modify k f ((j, w) ∷ m) keep h = elim (Bool-cases (j == k)) [
    | inl same ↦ rw same (keep j w h.0, h.1)
    | inr other ↦ rw other (h.0, Entries-modify k f m keep h.1)
  ]

  pub Entries-map_values :
      (f : V → V) (m : Table V)
      → ((j : String) (v : V) → P j v → P j (f v))
      → Entries P m
      → Entries P (map_values f m)
  unfolding map_values
  Entries-map_values f [] keep h = tt
  Entries-map_values f ((j, w) ∷ m) keep h = (keep j w h.0, Entries-map_values f m keep h.1)

  pub Entries-retain : (q : V → Bool) (m : Table V) → Entries P m → Entries P (retain q m)
  unfolding retain
  Entries-retain q [] h = tt
  Entries-retain q ((j, w) ∷ m) h = elim (Bool-cases (q w)) [
    | inl kept ↦ rw kept (h.0, Entries-retain q m h.1)
    | inr gone ↦ rw gone (Entries-retain q m h.1)
  ]

  pub Entries-remove : (k : String) (m : Table V) → Entries P m → Entries P (remove k m)
  unfolding remove
  Entries-remove k [] h = tt
  Entries-remove k ((j, w) ∷ m) h = elim (Bool-cases (j == k)) [
    | inl same ↦ rw same (Entries-remove k m h.1)
    | inr other ↦ rw other (h.0, Entries-remove k m h.1)
  ]

-- Loops that look every key up see the entries themselves.
module _ {ℓ κ} {V : Type ℓ} (P : V → Type κ) (m : Table V)
    (holds : (k : String) (v : V) → lookup k m ≡ some v → P v) where
  pub All-found : (ks : List String) → All P (found m ks)
  All-found [] = tt
  All-found (k ∷ ks) = elim (Option-cases (lookup k m)) [
    | inl e ↦ rw (e, found) (All-found ks)
    | inr (v, e) ↦ rw (e, found) (holds k v e, All-found ks)
  ]

module _ {ℓ κ} {A : Type ℓ} (P : A → Type κ) (less : A → A → Bool) where
  All-insert_sorted : (x : A) (ys : List A) → P x → All P ys → All P (insert_sorted less x ys)
  All-insert_sorted x [] p h = (p, tt)
  All-insert_sorted x (y ∷ ys) p h = elim (Bool-cases (less y x)) [
    | inl after ↦ rw after (h.0, All-insert_sorted x ys p h.1)
    | inr before ↦ rw before (p, h)
  ]

  pub All-sort : (xs : List A) → All P xs → All P (sort less xs)
  All-sort [] h = tt
  All-sort (x ∷ xs) h = All-insert_sorted x (sort less xs) h.0 (All-sort xs h.1)

pub All-map {ℓ κ μ} :
    {A : Type ℓ} {P : A → Type κ} {Q : A → Type μ}
    → ((x : A) → P x → Q x)
    → (xs : List A) → All P xs
    → All Q xs
All-map f [] h = tt
All-map f (x ∷ xs) h = (f x h.0, All-map f xs h.1)

pub take-All :
    {A : Type 0} (P : A → Type 0) (n : ℕ) (xs : List A)
    → All P xs
    → All P (take n xs) × (length (take n xs) ≤ n)
take-All P zero xs h = (tt, omega arith)
take-All P (suc n) [] h = (tt, omega arith)
take-All P (suc n) (x ∷ xs) h =
    let rest = take-All P n xs h.1 in ((h.0, rest.0), omega (arith, rest.1))
