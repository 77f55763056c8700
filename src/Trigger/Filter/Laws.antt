-- ===== src/Trigger/Filter/Laws.antt =====
-- The negated operators of shared/api/filter.go, and conjunctions of filters.
use ainsel.Prelude.{
  ◌≡◌, refl, ◌↔◌, Bool, true, false, not, List, [], ◌∷◌, some, String, arith, any, all, All,
}
use ainsel.Trigger.Value.{Value, Fields, null, boolean, number, text, array, object, Runtime, items}
use ainsel.Trigger.Filter.{
  Filter, has, has_not, within, without, op_of, match_null, match_array, match_scalar, match_value,
  resolve_field, filter_match, match_filters,
}

all-not {ℓ} : {A : Type ℓ} (p : A → Bool) (xs : List A) → all (λ x. not (p x)) xs ≡ not (any p xs)
all-not p [] = refl
all-not p (x ∷ xs) = ground (arith, all-not p xs)

abbrev pub is_object : Value → Bool
is_object (object fs) = true
is_object _ = false

module _ (go : Runtime) where
  scalar-negated :
      (f : Filter) (s : String)
      → (match_scalar go has_not f s ≡ not (match_scalar go has f s))
        × (match_scalar go without f s ≡ not (match_scalar go within f s))
  unfolding match_scalar
  scalar-negated f s = (refl, refl)

  value-negated :
      (f : Filter) (v : Value)
      → is_object v ≡ false
      → (match_value go has_not f v ≡ not (match_value go has f v))
        × (match_value go without f v ≡ not (match_value go within f v))
  unfolding match_value match_null match_array
  value-negated f null h = (refl, refl)
  value-negated f (array xs) h = (all-not _ (items xs), all-not _ (items xs))
  value-negated f (text s) h = scalar-negated f s
  value-negated f (boolean true) h = scalar-negated f "true"
  value-negated f (boolean false) h = scalar-negated f "false"
  value-negated f (number n) h = scalar-negated f (go.format_float n)
  value-negated f (object fs) h = cc

  -- On a field that is present and is no object, be it null, an array or a scalar, "not-contains"
  -- and "not-in" are exactly the negations of "contains" and "in", in both spellings.
  pub filter_match-negated :
      (f : Filter) (payload : Fields) (v : Value)
      → resolve_field payload f.field ≡ some v
      → is_object v ≡ false
      → let with_op = λ (op : String). filter_match go (record f { op = op }) payload in
        (with_op "not-contains" ≡ not (with_op "contains"))
        × (with_op "contains not" ≡ not (with_op "contains"))
        × (with_op "not-in" ≡ not (with_op "in"))
        × (with_op "not in" ≡ not (with_op "in"))
  unfolding filter_match op_of
  filter_match-negated f payload v found h =
      let (negated, excluded) = value-negated f v h in
      rw (found, filter_match) (negated, negated, excluded, excluded)

  -- A list of filters matches exactly when each of them does.
  pub match_filters_iff :
      (fs : List Filter) (payload : Fields)
      → (match_filters go fs payload ≡ true) ↔ All (λ f. filter_match go f payload ≡ true) fs
  unfolding match_filters
  match_filters_iff [] payload = ground arith
  match_filters_iff (f ∷ fs) payload = ground (arith, match_filters_iff fs payload)
