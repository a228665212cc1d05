-- ===== src/Json.antt =====
-- The values of JSON, as `json.loads` gives them, and what the program uses of Python's library
-- for them.
use leap_soledad.Prelude.{Bool, true, false, Option, List, Text, text_eq, if◌then◌else◌}
use leap_soledad.Prelude.Int.{ℤ}

mutual
  -- `real` is a float, which the program only hands on: it is kept as its text.
  pub data Value : Type 0 where
    null : Value
    boolean : Bool → Value
    int : ℤ → Value
    real : Text → Value
    str : Text → Value
    list : Values → Value
    dict : Fields → Value

  pub data Values : Type 0 where
    nil : Values
    cons : Value → Values → Values

  pub data Fields : Type 0 where
    end : Fields
    field : Text → Value → Fields → Fields

-- Python's library: `json.loads` (`none` is ValueError) and `json.dumps`, `==` of two values, and
-- `lower` and `split` of a text.
pub record Python : Type 0 where
  pub loads : Text → Option Value
  pub dumps : Value → Text
  pub value_eq : Value → Value → Bool
  pub lower : Text → Text
  pub words : Text → List Text

-- `isinstance(value, dict)`
unfoldable pub is_object : Value → Bool
is_object (dict fields) = true
is_object (list values) = false
is_object _ = false

-- `raw_doc.get(key)`: None, which is `null`, also where the key is missing.
unfoldable pub get_field : Text → Fields → Value
get_field k end = null
get_field k (field j v fields) = if text_eq j k then v else get_field k fields
