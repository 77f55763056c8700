-- ===== src/Trigger/Value.antt =====
-- A decoded JSON document, Go's `any` after `json.Unmarshal`. A number is the bit pattern of its
-- float64. What the standard library renders and matches is a parameter.
use ainsel.Prelude.{
  ℕ, List, [], ◌∷◌, Option, none, some, Bool, String, if◌then◌else◌, ◌==◌, string_eq,
}

mutual
  pub data Value : Type 0 where
    null : Value
    boolean : Bool → Value
    number : ℕ → Value
    text : String → Value
    array : Items → Value
    object : Fields → Value

  pub data Items : Type 0 where
    nil : Items
    cons : Value → Items → Items

  pub data Fields : Type 0 where
    end : Fields
    field : String → Value → Fields → Fields

unfoldable pub items : Items → List Value
items nil = []
items (cons v rest) = v ∷ items rest

-- `obj[k]`
unfoldable pub get_field : String → Fields → Option Value
get_field k end = none
get_field k (field j v fs) = if j == k then some v else get_field k fs

-- `obj[k] = v`
unfoldable pub set_field : String → Value → Fields → Fields
set_field k v end = field k v end
set_field k v (field j w fs) = if j == k then field k v fs else field j w (set_field k v fs)

-- `map[string]string` as a `map[string]any`.
unfoldable pub text_fields : List (String × String) → Fields
text_fields [] = end
text_fields ((k, v) ∷ rest) = field k (text v) (text_fields rest)

-- `fmt.Sprintf("%g", f)`, `fmt.Sprintf("%v", v)` of an array or an object,
-- `regexp.MatchString(pattern, s)` with `none` for an error, and the parser of `json.Unmarshal`
-- with `none` for a text that is not JSON.
pub record Runtime : Type 0 where
  pub format_float : ℕ → String
  pub format_value : Value → String
  pub regex_match : String → String → Option Bool
  pub parse_json : String → Option Value
