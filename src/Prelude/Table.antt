-- ===== src/Prelude/Table.antt =====
-- Go maps with string keys. A loop over a map takes the keys in the list's order, which stands for
-- any order: the theorems hold of every list.
pub mod Laws
pub mod Distinct
use Prim.Native.Nat.{ℕ, ◌+◌, ◌≤◌}
use Prim.Native.String.{String}
use mathlib.Core.Path.{◌≡◌, refl}
use mathlib.Core.Bool.{Bool, true, false}
use mathlib.Core.Option.{Option, none, some}
use mathlib.Core.List.{List, [], ◌∷◌}
use native.Mathlib.Omega.{arith}
use text.Mathlib.TextEquality.{eq_iff}
use nakama_agones.Prelude.Tests.{◌==◌, if◌then◌else◌, text_Eq}

abbrev pub Table {ℓ} : Type ℓ → Type ℓ
Table V = List (String × V)

abbrev pub bit : Bool → ℕ
bit true = 1
bit false = 0

module _ {ℓ} {V : Type ℓ} where
  unfoldable pub lookup : String → Table V → Option V
  lookup k [] = none
  lookup k ((j, v) ∷ m) = if j == k then some v else lookup k m

  -- m[k] = v
  unfoldable pub insert : String → V → Table V → Table V
  insert key new [] = (key, new) ∷ []
  insert key new ((there, old) ∷ m) =
      if there == key then (key, new) ∷ m else (there, old) ∷ insert key new m

  -- a write through the pointer m[k]
  unfoldable pub modify : String → (V → V) → Table V → Table V
  modify k f [] = []
  modify k f ((j, v) ∷ m) = if j == k then (j, f v) ∷ m else (j, v) ∷ modify k f m

  -- delete(m, k)
  unfoldable pub remove : String → Table V → Table V
  remove k [] = []
  remove k ((j, v) ∷ m) = let rest = remove k m in if j == k then rest else (j, v) ∷ rest

  abbrev pub keys : Table V → List String
  keys [] = []
  keys ((k, v) ∷ m) = k ∷ keys m

  -- for _, v := range m, where the loop only reads
  abbrev pub values : Table V → List V
  values [] = []
  values ((k, v) ∷ m) = v ∷ values m

  abbrev pub found : Table V → List String → List V
  found m [] = []
  found m (k ∷ ks) = elim (lookup k m) [ none ↦ found m ks | some v ↦ v ∷ found m ks ]

  -- the same, as what stands under each key
  abbrev pub range : Table V → List V
  range m = found m (keys m)

  -- n := 0; for _, v := range m { if p(v) { n++ } }
  unfoldable pub count : (V → Bool) → Table V → ℕ
  count p [] = 0
  count p ((k, v) ∷ m) = bit (p v) + count p m

-- a loop that writes through every pointer, and one that deletes what fails the test
module _ {ℓ} {V : Type ℓ} where
  unfoldable pub map_values : (V → V) → Table V → Table V
  map_values f [] = []
  map_values f ((k, v) ∷ m) = (k, f v) ∷ map_values f m

  unfoldable pub retain : (V → Bool) → Table V → Table V
  retain p [] = []
  retain p ((k, v) ∷ m) = let rest = retain p m in if p v then (k, v) ∷ rest else rest
