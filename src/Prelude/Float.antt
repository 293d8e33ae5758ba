-- ===== src/Prelude/Float.antt =====
-- IEEE 754 double precision as far as the program compares it. Every finite double is a whole
-- multiple of 2 ^ -1074, so `finite n` stands for n * 2 ^ -1074 and comparisons are exact.
use Prim.Native.Nat.{ℕ, ◌*◌, ◌^◌}
use mathlib.Core.Bool.{Bool, false, true}
use nakama_agones.Prelude.Int.{ℤ, pos, ltb_ℤ, leb_ℤ}

pub data Float : Type 0 where
  nan neg_inf pos_inf : Float
  finite : ℤ → Float

-- The double that a whole number denotes (below 2 ^ 53, where it is exact).
unfoldable pub whole : ℕ → Float
whole n = finite (pos (n * 2 ^ 1074))

abbrev pub is_nan : Float → Bool
is_nan Float.nan = true
is_nan _ = false

abbrev pub is_inf : Float → Bool
is_inf Float.neg_inf = true
is_inf Float.pos_inf = true
is_inf _ = false

-- `a <= b`; a comparison with NaN is false
unfoldable pub leb_float : Float → Float → Bool
leb_float Float.nan b = false
leb_float Float.neg_inf Float.nan = false
leb_float Float.neg_inf b = true
leb_float Float.pos_inf Float.pos_inf = true
leb_float Float.pos_inf b = false
leb_float (Float.finite a) Float.nan = false
leb_float (Float.finite a) Float.neg_inf = false
leb_float (Float.finite a) Float.pos_inf = true
leb_float (Float.finite a) (Float.finite b) = leb_ℤ a b

-- `a < b`
unfoldable pub ltb_float : Float → Float → Bool
ltb_float Float.nan b = false
ltb_float Float.neg_inf Float.nan = false
ltb_float Float.neg_inf Float.neg_inf = false
ltb_float Float.neg_inf b = true
ltb_float Float.pos_inf b = false
ltb_float (Float.finite a) Float.nan = false
ltb_float (Float.finite a) Float.neg_inf = false
ltb_float (Float.finite a) Float.pos_inf = true
ltb_float (Float.finite a) (Float.finite b) = ltb_ℤ a b
