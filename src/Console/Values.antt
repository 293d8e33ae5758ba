-- ===== src/Console/Values.antt =====
-- Decoded JSON, which the console reads field by field (internal/console/alerts.go and api_v1.go).
-- A number is the double that it denotes, infinite where the text is out of range.
use nakama_agones.Prelude.{
  String, Bool, false, not, ◌&&◌, List, [], ◌∷◌, ◌==◌, if◌then◌else◌, text_Eq,
}
use nakama_agones.Prelude.Float.{Float, is_nan, is_inf, whole}

mutual
  pub data Json : Type 0 where
    null : Json
    flag : Bool → Json
    numeral : Float → Json
    string : String → Json
    array : Items → Json
    object : Fields → Json

  pub data Items : Type 0 where
    no_items : Items
    item : Json → Items → Items

  pub data Fields : Type 0 where
    no_fields : Fields
    entry : String → Json → Fields → Fields

unfoldable pub finite_float : Float → Bool
finite_float v = not (is_nan v) && not (is_inf v)

-- the value of `number`, 0 where there is none, and whether there is one
unfoldable pub number : Json → Float × Bool
unfolding finite_float
number (Json.numeral f) = (f, finite_float f)
number v = (whole 0, false)

unfoldable pub map_object : Json → Fields
map_object (Json.object m) = m
map_object v = no_fields

-- m[key], nil where it is missing
unfoldable pub at_key : Fields → String → Json
at_key Fields.no_fields key = null
at_key (Fields.entry k v m) key = if k == key then v else at_key m key

unfoldable pub text_field : Fields → String → String
unfolding at_key
text_field m key = elim (at_key m key) [ Json.string s ↦ s | _ ↦ "" ]

unfoldable pub item_objects : Items → List Fields
item_objects Items.no_items = []
item_objects (Items.item (Json.object m) rest) = m ∷ item_objects rest
item_objects (Items.item v rest) = item_objects rest

unfoldable pub objects : Json → List Fields
unfolding item_objects
objects (Json.array l) = item_objects l
objects v = []

-- v == true
unfoldable pub is_true : Json → Bool
is_true (Json.flag b) = b
is_true v = false

-- v == text
unfoldable pub is_text : String → Json → Bool
is_text s (Json.string t) = t == s
is_text s v = false
