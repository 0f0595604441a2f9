-- ===== src/Common/Json.antt =====
-- Values of unknown shape, the type `unknown` of the source, and what the checks read of them.
use trax_os.Common.{String, Bool, true, false, ◌||◌, Option, none, some, ◌==◌, if◌then◌else◌}
use trax_os.Common.Int.{ℤ, pos}
use trax_os.Common.Number.{Number, integer}

-- A JSON value, or `undefined`.
mutual
  pub data Value : Type 0 where
    undefined null : Value
    boolean : Bool → Value
    number : Number → Value
    text : String → Value
    array : Values → Value
    object : Fields → Value

  pub data Values : Type 0 where
    no_values : Values
    item : Value → Values → Values

  pub data Fields : Type 0 where
    no_fields : Fields
    entry : String → Value → Fields → Fields

-- `value.key` of a record; of any other value the checks have turned it away before.
abbrev pub lookup : Fields → String → Value
lookup no_fields k = undefined
lookup (entry j v members) k = let rest = lookup members k in if j == k then v else rest

abbrev pub field : Value → String → Value
field (object members) k = lookup members k
field _ k = undefined

abbrev pub is_record : Value → Bool
is_record (object members) = true
is_record _ = false

abbrev pub is_text : Value → Bool
is_text (text s) = true
is_text _ = false

abbrev pub is_boolean : Value → Bool
is_boolean (boolean b) = true
is_boolean _ = false

abbrev pub is_array : Value → Bool
is_array (array vs) = true
is_array _ = false

abbrev pub elements : Value → Values
elements (array vs) = vs
elements _ = no_values

-- the text of a value that is one, and the integer of a value that is one
abbrev pub text_of : Value → String
text_of (text s) = s
text_of _ = ""

abbrev pub int_of : Value → ℤ
int_of (number (integer n)) = n
int_of _ = pos 0

abbrev pub is_int : Value → Bool
is_int (number (integer n)) = true
is_int _ = false

abbrev pub date_of : Value → Option String
date_of (text s) = some s
date_of _ = none

-- `k in value` of a record
abbrev pub has_member : Fields → String → Bool
has_member no_fields k = false
has_member (entry j v members) k = j == k || has_member members k
