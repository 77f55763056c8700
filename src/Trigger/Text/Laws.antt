-- ===== src/Trigger/Text/Laws.antt =====
-- The order of Go's strings is total.
use text.Mathlib.TextEquality.{Char-path}
use ainsel.Prelude.{◌≡◌, refl, ap₂, true, false, String, arith}
use ainsel.Trigger.Text.{str_ltb}

pub str_ltb_irrefl : (s : String) → str_ltb s s ≡ false
unfolding str_ltb
str_ltb_irrefl String.[] = refl
str_ltb_irrefl (String.◌∷◌ c s) = ground (arith, str_ltb_irrefl s)

-- Texts that neither precedes the other are equal.
pub str_ltb_tie : (s t : String) → str_ltb s t ≡ false → str_ltb t s ≡ false → s ≡ t
unfolding str_ltb
str_ltb_tie String.[] String.[] h k = refl
str_ltb_tie String.[] (String.◌∷◌ d t) h k = cc
str_ltb_tie (String.◌∷◌ c s) String.[] h k = cc
str_ltb_tie (String.◌∷◌ c s) (String.◌∷◌ d t) h k =
    ap₂ String.◌∷◌ (Char-path c d (ground arith)) (str_ltb_tie s t (ground arith) (ground arith))

pub str_ltb_asym : (s t : String) → str_ltb s t ≡ true → str_ltb t s ≡ false
unfolding str_ltb
str_ltb_asym String.[] String.[] h = refl
str_ltb_asym String.[] (String.◌∷◌ d t) h = refl
str_ltb_asym (String.◌∷◌ c s) String.[] h = ground arith
str_ltb_asym (String.◌∷◌ c s) (String.◌∷◌ d t) h = ground (arith, str_ltb_asym s t)

pub str_ltb_steps :
    (s t u : String) → str_ltb t s ≡ false → str_ltb u t ≡ false → str_ltb u s ≡ false
unfolding str_ltb
str_ltb_steps String.[] String.[] u h k = k
str_ltb_steps String.[] (String.◌∷◌ d t) String.[] h k = ground arith
str_ltb_steps String.[] (String.◌∷◌ d t) (String.◌∷◌ e u) h k = refl
str_ltb_steps (String.◌∷◌ c s) String.[] u h k = ground arith
str_ltb_steps (String.◌∷◌ c s) (String.◌∷◌ d t) String.[] h k = ground arith
str_ltb_steps (String.◌∷◌ c s) (String.◌∷◌ d t) (String.◌∷◌ e u) h k =
    ground (arith, str_ltb_steps s t u)
