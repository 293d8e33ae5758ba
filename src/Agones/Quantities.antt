-- ===== src/Agones/Quantities.antt =====
-- Kubernetes quantities as exact fractions (quantityValue and sameQuantities of
-- internal/agones/client.go).
use Prim.Native.Char.{code}
use Prim.Native.String.{len}
use nakama_agones.Prelude.{
  ℕ, ◌+◌, ◌-◌, ◌*◌, ◌^◌, String, Bool, false, not, ◌&&◌, ◌||◌, Option, none, some, ltb, length,
  ◌==◌, number_Eq, text_Eq, if◌then◌else◌, all,
}
use nakama_agones.Prelude.Table.{Table, lookup}
use nakama_agones.Console.Names.{span}

-- the number that the leading digits continue, how many there are, and what follows them
pub record Scan : Type 0 where
  pub value : ℕ
  pub digits : ℕ
  pub rest : String

unfoldable pub scan : ℕ → ℕ → String → Scan
scan value digits String.[] = record { value = value; digits = digits; rest = "" }
scan value digits (String.◌∷◌ c s) =
    let further = scan (value * 10 + (code c - b'0')) (digits + 1) s in
    if span b'0' b'9' (code c)
    then further
    else record { value = value; digits = digits; rest = String.◌∷◌ c s }

-- numerator and denominator
abbrev pub Fraction : Type 0
Fraction = ℕ × ℕ

unfoldable pub si_factor : ℕ → Option Fraction
si_factor c =
    if c == b'n'
    then some (1, 10 ^ 9)
    else if c == b'u'
    then some (1, 10 ^ 6)
    else if c == b'm'
    then some (1, 10 ^ 3)
    else if c == b'k' || c == b'K'
    then some (10 ^ 3, 1)
    else if c == b'M'
    then some (10 ^ 6, 1)
    else if c == b'G'
    then some (10 ^ 9, 1)
    else if c == b'T'
    then some (10 ^ 12, 1)
    else if c == b'P'
    then some (10 ^ 15, 1)
    else none

unfoldable pub binary_factor : ℕ → Option Fraction
binary_factor c =
    if c == b'k' || c == b'K'
    then some (2 ^ 10, 1)
    else if c == b'M'
    then some (2 ^ 20, 1)
    else if c == b'G'
    then some (2 ^ 30, 1)
    else if c == b'T'
    then some (2 ^ 40, 1)
    else if c == b'P'
    then some (2 ^ 50, 1)
    else none

-- the digits of an exponent, at most 30
unfoldable pub exponent : String → Option ℕ
unfolding scan
exponent s =
    let n = scan 0 0 s in
    if n.digits == 0 || not (n.rest == "") || ltb 30 n.value then none else some n.value

unfoldable pub signed_factor : String → Option Fraction
unfolding exponent
signed_factor String.[] = none
signed_factor (String.◌∷◌ c s) =
    if code c == b'-'
    then elim (exponent s) [ none ↦ none | some n ↦ some (1, 10 ^ n) ]
    else if code c == b'+'
    then elim (exponent s) [ none ↦ none | some n ↦ some (10 ^ n, 1) ]
    else elim (exponent (String.◌∷◌ c s)) [ none ↦ none | some n ↦ some (10 ^ n, 1) ]

unfoldable pub unit_factor : String → Option Fraction
unfolding si_factor binary_factor signed_factor
unit_factor String.[] = some (1, 1)
unit_factor (String.◌∷◌ c s) =
    if code c == b'e' || code c == b'E'
    then signed_factor s
    else if s == ""
    then si_factor (code c)
    else if s == "i"
    then binary_factor (code c)
    else none

unfoldable pub with_unit : ℕ → ℕ → String → Option Fraction
unfolding unit_factor
with_unit value decimals unit = elim (unit_factor unit) [
  | none ↦ none
  | some f ↦ some (value * f.0, 10 ^ decimals * f.1)
]

-- the decimals, if there is a point
unfoldable pub with_decimals : ℕ → String → Option Fraction
unfolding with_unit scan
with_decimals value String.[] = with_unit value 0 ""
with_decimals value (String.◌∷◌ c s) =
    let n = scan value 0 s in
    if not (code c == b'.')
    then with_unit value 0 (String.◌∷◌ c s)
    else if n.digits == 0
    then none
    else with_unit n.value n.digits n.rest

unfoldable pub quantity_value : String → Option Fraction
unfolding scan with_decimals
quantity_value raw =
    let n = scan 0 0 raw in
    if ltb 32 (len raw) || n.digits == 0 then none else with_decimals n.value n.rest

unfoldable pub same_value : Option Fraction → Option Fraction → Bool
same_value (some a) (some b) = a.0 * b.1 == b.0 * a.1
same_value a b = false

unfoldable pub same_quantities : Table String → Table String → Bool
unfolding quantity_value same_value lookup
same_quantities a b =
    length a == length b
    && all
        (λ (entry : String × String).
          same_value (quantity_value entry.1)
            (quantity_value (elim (lookup entry.0 b) [ none ↦ "" | some raw ↦ raw ])))
        a
