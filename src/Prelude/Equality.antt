-- ===== src/Prelude/Equality.antt =====
-- `==` for the types that the program compares, with what it decides.
use Prim.Native.Nat.{ℕ}
use Prim.Native.String.{String}
use mathlib.Core.Path.{◌≡◌, refl}
use mathlib.Core.HLevel.{hedberg}
use mathlib.Core.Logic.{◌↔◌, inl, inr}
use mathlib.Core.Bool.{Bool, true, false}
use text.Mathlib.Text.{◌==◌ as str_eq}
use text.Mathlib.TextEquality.{eq_iff}
use ainsel.Prelude.Tests.{nat_beq, nat_beq_iff, Bool-cases}

pub record Eq {κ} (K : Type κ) : Type κ where
  pub beq : K → K → Bool
  pub beq_iff : (j k : K) → (beq j k ≡ true) ↔ (j ≡ k)

instance abbrev pub string_eq : Eq String
string_eq = record { beq = str_eq; beq_iff = eq_iff }

infix 50 ◌==◌
abbrev pub ◌==◌ {κ} : {K : Type κ} ⦃d : Eq K⦄ → K → K → Bool
◌==◌ ⦃d⦄ = d.beq

instance abbrev pub nat_eq : Eq ℕ
nat_eq = record { beq = nat_beq; beq_iff = nat_beq_iff }

pub ==_refl {ℓ} : {A : Type ℓ} ⦃e : Eq A⦄ (a : A) → (a == a) ≡ true
==_refl ⦃e⦄ a = (e.beq_iff a a).1 refl

pub ==_false {ℓ} : {A : Type ℓ} ⦃e : Eq A⦄ (a b : A) → (a ≡ b → ⊥) → (a == b) ≡ false
==_false ⦃e⦄ a b d = elim (Bool-cases (e.beq a b)) [
  | inl same ↦ absurd (d ((e.beq_iff a b).0 same))
  | inr other ↦ other
]

Eq-discrete {ℓ} : {A : Type ℓ} (e : Eq A) → Discrete A
Eq-discrete e a b = elim (Bool-cases (e.beq a b)) [
  | inl same ↦ yes ((e.beq_iff a b).0 same)
  | inr other ↦ no (λ p. cc (other, (e.beq_iff a b).1 p))
]

pub String-set : IsSet String
String-set = hedberg (Eq-discrete string_eq)
