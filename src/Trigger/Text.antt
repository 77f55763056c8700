-- ===== src/Trigger/Text.antt =====
-- The functions of Go's `strings` package that shared/api/filter.go and
-- services/hub/internal/trigger/index.go call, over texts of Unicode code points.
pub mod Laws
use Prim.Native.Char.{Char, code}
use Prim.Native.String
use text.Mathlib.Text.{starts_with}
use ainsel.Prelude.{
  ℕ, ◌≡◌, refl, Bool, true, false, ◌||◌, ◌&&◌, List, [], ◌∷◌, String, arith, if◌then◌else◌, ◌==◌,
  nat_eq, string_eq, ltb,
}

-- `strings.HasPrefix(s, t)`
abbrev pub has_prefix : String → String → Bool
has_prefix s t = starts_with s t

-- `strings.HasSuffix(s, t)`
unfoldable pub has_suffix : String → String → Bool
has_suffix String.[] t = t == ""
has_suffix (String.◌∷◌ c s) t = String.◌∷◌ c s == t || has_suffix s t

-- `strings.Contains(s, t)`
unfoldable pub contains : String → String → Bool
contains String.[] t = starts_with "" t
contains (String.◌∷◌ c s) t = starts_with (String.◌∷◌ c s) t || contains s t

abbrev push : String → Char → String
push s c = String.◌++◌ s (String.◌∷◌ c String.[])

split_from : String → String → List String
split_from part String.[] = part ∷ []
split_from part (String.◌∷◌ c s) =
    let closed = split_from "" s in
    let longer = split_from (push part c) s in if code c == b'.' then part ∷ closed else longer

-- `strings.Split(s, ".")`
unfoldable pub split_dots : String → List String
unfolding split_from
split_dots s = split_from "" s

-- `s < t`, which compares texts byte by byte; the order of UTF-8 is the order of code points.
unfoldable pub str_ltb : String → String → Bool
str_ltb String.[] String.[] = false
str_ltb String.[] (String.◌∷◌ d t) = true
str_ltb (String.◌∷◌ c s) String.[] = false
str_ltb (String.◌∷◌ c s) (String.◌∷◌ d t) =
    ltb (code c) (code d) || (code c == code d && str_ltb s t)

split_example : split_dots "headers.X-Event" ≡ "headers" ∷ "X-Event" ∷ []
unfolding split_dots
split_example = refl

suffix_example : has_suffix "X-Forgejo-Event" "-Event" ≡ true
unfolding has_suffix
suffix_example = refl

contains_example : contains "bug fix" "g f" ≡ true
unfolding contains
contains_example = refl
