-- ===== src/Mcp/Values.antt =====
-- JSON values, as internal/manager/mcp builds them with maps and slices; encoding/json is given as
-- two functions.
use sit.Prelude.{ℕ, Text, Bool, Option}
use sit.Prelude.Int.{ℤ, pos}

-- A JSON value. A number that is only carried on is kept as its text.
mutual
  pub data Value : Type 0 where
    null : Value
    boolean : Bool → Value
    integer : ℤ → Value
    number : Text → Value
    string : Text → Value
    array : Values → Value
    object : Fields → Value

  pub data Values : Type 0 where
    no_items : Values
    item : Value → Values → Values

  pub data Fields : Type 0 where
    no_fields : Fields
    field : Text → Value → Fields → Fields

pub record Codec : Type 0 where
  pub value_of : Text → Option Value  -- json.Unmarshal
  pub text_of : Value → Text  -- json.Marshal

abbrev pub natural : ℕ → Value
natural n = integer (pos n)

abbrev pub text_field : Text → Text → Fields → Fields
text_field name s rest = field name (string s) rest
