-- ===== src/Prelude/Dict.antt =====
-- A Go map as an association list, with at most one entry for a key once built by `insert`.
pub mod Keys
use mathlib.Core.Bool.{Bool, true, false}
use mathlib.Core.List.{List, [], ◌∷◌, map}
use mathlib.Core.Option.{Option, none, some}
use mathlib.Core.Path.{◌≡◌, refl}
use native.Mathlib.Omega.{arith}
use ainsel.Prelude.Tests.{if◌then◌else◌}
use ainsel.Prelude.Equality.{Eq, ◌==◌}

module _ {ℓ κ} {K : Type ℓ} {V : Type κ} ⦃e : Eq K⦄ where
  -- `v, ok := m[k]`
  unfoldable pub lookup : K → List (K × V) → Option V
  lookup a [] = none
  lookup a ((b, v) ∷ rest) = if b == a then some v else lookup a rest

  -- `m[k] = v`
  unfoldable pub insert : K → V → List (K × V) → List (K × V)
  insert a v [] = (a, v) ∷ []
  insert a v ((b, old) ∷ rest) = if b == a then (a, v) ∷ rest else (b, old) ∷ insert a v rest

  -- `delete(m, k)`
  unfoldable pub delete : K → List (K × V) → List (K × V)
  delete a [] = []
  delete a ((b, old) ∷ rest) = if b == a then delete a rest else (b, old) ∷ delete a rest

  pub lookup-delete :
      (a b : K) (rest : List (K × V))
      → lookup b (delete a rest) ≡ (if a == b then none else lookup b rest)
  unfolding lookup delete
  lookup-delete a b [] = ground arith
  lookup-delete a b ((c, old) ∷ rest) =
      ground (arith, e.beq_iff a b, e.beq_iff c a, e.beq_iff c b, lookup-delete a b rest)

  pub lookup-insert :
      (a b : K) (v : V) (rest : List (K × V))
      → lookup b (insert a v rest) ≡ (if a == b then some v else lookup b rest)
  unfolding lookup insert
  lookup-insert a b v [] = refl
  lookup-insert a b v ((c, old) ∷ rest) =
      ground (arith, e.beq_iff a b, e.beq_iff c a, e.beq_iff c b, lookup-insert a b v rest)
