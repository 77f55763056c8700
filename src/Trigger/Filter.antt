-- ===== src/Trigger/Filter.antt =====
-- shared/api/filter.go.
pub mod Laws
use ainsel.Prelude.{
  ℕ, Bool, true, false, not, ◌&&◌, ◌||◌, List, [], ◌∷◌, Option, none, some, String, if◌then◌else◌,
  ◌==◌, string_eq, any, all,
}
use ainsel.Trigger.Text.{has_prefix, has_suffix, contains, split_dots}
use ainsel.Trigger.Value.{
  Value, Items, Fields, null, boolean, number, text, array, object, Runtime, items, get_field,
}

pub record Filter : Type 0 where
  pub field : String
  pub op : String
  pub value : String
  pub values : List String

-- The cases of the `switch f.Op` statements; `unknown` is their `default`.
pub data Op : Type 0 where
  eq neq prefix suffix has has_not within without regex unknown : Op

unfoldable pub op_of : String → Op
op_of s =
    if s == "eq"
    then eq
    else if s == "neq"
    then neq
    else if s == "prefix"
    then prefix
    else if s == "suffix"
    then suffix
    else if s == "contains"
    then has
    else if s == "not-contains" || s == "contains not"
    then has_not
    else if s == "in"
    then within
    else if s == "not-in" || s == "not in"
    then without
    else if s == "regex"
    then regex
    else unknown

-- `v == nil`
match_null : Op → Filter → Bool
match_null eq f = f.value == "" || f.value == "null"
match_null neq f = not (f.value == "") && not (f.value == "null")
match_null has f = false
match_null has_not f = true
match_null within f = false
match_null without f = true
match_null _ f = false

walk : Value → List String → Option Value
walk v [] = some v
walk (object fs) (part ∷ parts) = elim (get_field part fs) [ none ↦ none | some v ↦ walk v parts ]
walk _ (part ∷ parts) = none

unfoldable pub resolve_field : Fields → String → Option Value
unfolding walk
resolve_field payload path = walk (object payload) (split_dots path)

module _ (go : Runtime) where
  pub stringify : Value → String
  stringify (text s) = s
  stringify (boolean true) = "true"
  stringify (boolean false) = "false"
  stringify (number n) = go.format_float n
  stringify null = ""
  stringify (array xs) = go.format_value (array xs)
  stringify (object fs) = go.format_value (object fs)

  pub stringify_equal : Value → String → Bool
  unfolding stringify
  stringify_equal v target = stringify v == target

  listed : List String → String → Bool
  listed values s = any (λ v. s == v) values

  eq_single : List Value → String → Bool
  unfolding stringify_equal
  eq_single (v ∷ []) target = stringify_equal v target
  eq_single _ target = false

  match_array : Op → Filter → List Value → Bool
  unfolding stringify_equal stringify listed eq_single
  match_array has f vs = any (λ v. stringify_equal v f.value) vs
  match_array has_not f vs = all (λ v. not (stringify_equal v f.value)) vs
  match_array within f vs = any (λ v. listed f.values (stringify v)) vs
  match_array without f vs = all (λ v. not (listed f.values (stringify v))) vs
  match_array eq f vs = eq_single vs f.value
  match_array _ f vs = false

  match_regex : Option Bool → Bool
  match_regex none = false
  match_regex (some b) = b

  match_scalar : Op → Filter → String → Bool
  unfolding listed match_regex
  match_scalar eq f s = s == f.value
  match_scalar neq f s = not (s == f.value)
  match_scalar prefix f s = has_prefix s f.value
  match_scalar suffix f s = has_suffix s f.value
  match_scalar has f s = contains s f.value
  match_scalar has_not f s = not (contains s f.value)
  match_scalar within f s = listed f.values s
  match_scalar without f s = not (listed f.values s)
  match_scalar regex f s = match_regex (go.regex_match f.value s)
  match_scalar unknown f s = false

  match_value : Op → Filter → Value → Bool
  unfolding match_null match_array match_scalar
  match_value op f null = match_null op f
  match_value op f (array xs) = match_array op f (items xs)
  match_value op f (text s) = match_scalar op f s
  match_value op f (boolean true) = match_scalar op f "true"
  match_value op f (boolean false) = match_scalar op f "false"
  match_value op f (number n) = match_scalar op f (go.format_float n)
  match_value op f (object fs) = false

  unfoldable pub filter_match : Filter → Fields → Bool
  unfolding match_value
  filter_match f payload = elim (resolve_field payload f.field) [
    | none ↦ false
    | some v ↦ match_value (op_of f.op) f v
  ]

  unfoldable pub match_filters : List Filter → Fields → Bool
  match_filters [] payload = true
  match_filters (f ∷ fs) payload =
      let rest = match_filters fs payload in if not (filter_match f payload) then false else rest
