-- ===== src/Prelude/Table/Distinct.antt =====
-- Lists of keys without duplicates, as the keys of a Go map are.
use Prim.Native.String.{String}
use mathlib.Core.Path.{◌≡◌, refl}
use mathlib.Core.Bool.{Bool, true, false, ◌||◌}
use mathlib.Core.Option.{none, some}
use mathlib.Core.Logic.{inl, inr}
use mathlib.Core.List.{List, [], ◌∷◌}
use native.Mathlib.Omega.{arith}
use text.Mathlib.TextEquality.{eq_iff}
use nakama_agones.Prelude.Tests.{Bool-cases, ◌==◌, if◌then◌else◌, text_Eq}
use nakama_agones.Prelude.Lists.{insert_sorted, sort}
use nakama_agones.Prelude.Table.{Table, lookup, insert, keys, retain}

abbrev pub has_key : String → List String → Bool
has_key k [] = false
has_key k (j ∷ js) = j == k || has_key k js

abbrev pub Distinct : List String → Type 0
Distinct [] = Unit
Distinct (k ∷ ks) = (has_key k ks ≡ false) × Distinct ks

module _ {ℓ} {V : Type ℓ} where
  pub has_key-insert :
      (j k : String) (v : V) (m : Table V)
      → has_key j (keys (insert k v m)) ≡ (k == j || has_key j (keys m))
  unfolding insert
  has_key-insert j k v [] = refl
  has_key-insert j k v ((i, w) ∷ m) =
      ground (arith, eq_iff i k, eq_iff i j, eq_iff k j, has_key-insert j k v m)

  pub insert-Distinct :
      (k : String) (v : V) (m : Table V) → Distinct (keys m) → Distinct (keys (insert k v m))
  unfolding insert
  insert-Distinct k v [] d = (refl, tt)
  insert-Distinct k v ((i, w) ∷ m) d = elim (Bool-cases (i == k)) [
    | inl same ↦ rw same (ground (arith, eq_iff i k, d.0), d.1)
    | inr other ↦ rw other (
      ground (arith, eq_iff i k, eq_iff k i, has_key-insert i k v m, d.0),
      insert-Distinct k v m d.1,
    )
  ]

  pub lookup-missing : (k : String) (m : Table V) → has_key k (keys m) ≡ false → lookup k m ≡ none
  unfolding lookup
  lookup-missing k [] h = refl
  lookup-missing k ((i, w) ∷ m) h = ground (arith, lookup-missing k m)

  pub missing-has_key : (k : String) (m : Table V) → lookup k m ≡ none → has_key k (keys m) ≡ false
  unfolding lookup
  missing-has_key k [] h = refl
  missing-has_key k ((i, w) ∷ m) h = ground (arith, missing-has_key k m)

  pub lookup-has_key :
      (k : String) (v : V) (m : Table V) → lookup k m ≡ some v → has_key k (keys m) ≡ true
  unfolding lookup
  lookup-has_key k v [] h = absurd (cc h)
  lookup-has_key k v ((i, w) ∷ m) h = ground (arith, lookup-has_key k v m)

module _ {ℓ} {V : Type ℓ} (p : V → Bool) where
  has_key-retain :
      (k : String) (m : Table V)
      → has_key k (keys m) ≡ false
      → has_key k (keys (retain p m)) ≡ false
  unfolding retain
  has_key-retain k [] h = refl
  has_key-retain k ((i, w) ∷ m) h = ground (arith, has_key-retain k m)

  pub retain-Distinct : (m : Table V) → Distinct (keys m) → Distinct (keys (retain p m))
  unfolding retain
  retain-Distinct [] d = tt
  retain-Distinct ((i, w) ∷ m) d = elim (Bool-cases (p w)) [
    | inl e ↦ rw e (has_key-retain i m d.0, retain-Distinct m d.1)
    | inr e ↦ rw e (retain-Distinct m d.1)
  ]

  pub lookup-retain :
      (k : String) (m : Table V)
      → Distinct (keys m)
      → lookup k (retain p m)
        ≡ elim (lookup k m) [ none ↦ none | some v ↦ if p v then some v else none ]
  unfolding retain lookup
  lookup-retain k [] d = refl
  lookup-retain k ((i, w) ∷ m) d = ground (
    arith,
    eq_iff i k,
    lookup-retain k m d.1,
    lookup-missing k (retain p m),
    has_key-retain k m,
    d.0,
  )

module _ (less : String → String → Bool) where
  has_key-insert_sorted :
      (j k : String) (ks : List String)
      → has_key j (insert_sorted less k ks) ≡ (k == j || has_key j ks)
  has_key-insert_sorted j k [] = refl
  has_key-insert_sorted j k (i ∷ ks) = ground (arith, has_key-insert_sorted j k ks)

  pub has_key-sort : (j : String) (ks : List String) → has_key j (sort less ks) ≡ has_key j ks
  has_key-sort j [] = refl
  has_key-sort j (k ∷ ks) =
      ground (arith, has_key-insert_sorted j k (sort less ks), has_key-sort j ks)

  insert_sorted-Distinct :
      (k : String) (ks : List String)
      → has_key k ks ≡ false
      → Distinct ks
      → Distinct (insert_sorted less k ks)
  insert_sorted-Distinct k [] h d = (refl, tt)
  insert_sorted-Distinct k (i ∷ ks) h d = elim (Bool-cases (less i k)) [
    | inl after ↦ rw after (
      ground (arith, eq_iff i k, eq_iff k i, has_key-insert_sorted i k ks, d.0),
      insert_sorted-Distinct k ks (ground arith) d.1,
    )
    | inr before ↦ rw before (h, d)
  ]

  pub sort-Distinct : (ks : List String) → Distinct ks → Distinct (sort less ks)
  sort-Distinct [] d = tt
  sort-Distinct (k ∷ ks) d =
      insert_sorted-Distinct k (sort less ks) (ground (arith, has_key-sort k ks, d.0))
        (sort-Distinct ks d.1)
