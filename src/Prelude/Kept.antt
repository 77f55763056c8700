-- ===== src/Prelude/Kept.antt =====
-- What `keep` keeps: a WHERE clause, or a Go loop with `continue`.
use Prim.Native.Nat.{◌≤◌, ◌<◌}
use mathlib.Core.Path.{◌≡◌, refl, subst}
use mathlib.Core.Logic.{inl, inr}
use mathlib.Core.Bool.{Bool, true, false, ◌||◌}
use mathlib.Core.Logic.Or
use mathlib.Core.List.{List, [], ◌∷◌, Mem, Mem-prop, mem-cons}
use native.Mathlib.Omega.{arith}
use ainsel.Prelude.Tests.{if◌then◌else◌, Bool-cases}
use ainsel.Prelude.Lists.{length, any, keep, Has}

module _ {A : Type 0} (p : A → Bool) where
  pub Has-keep : (xs : List A) {a : A} → Has a xs → p a ≡ true → Has a (keep p xs)
  Has-keep [] m h = absurd m
  Has-keep (x ∷ xs) (inl e) h = rw (e, h, if◌then◌else◌) (inl refl)
  Has-keep (x ∷ xs) (inr m) h = elim (Bool-cases (p x)) [
    | inl t ↦ rw (t, if◌then◌else◌) (inr (Has-keep xs m h))
    | inr f ↦ rw (f, if◌then◌else◌) (Has-keep xs m h)
  ]

  pub Has-keep_from : (xs : List A) {a : A} → Has a (keep p xs) → Has a xs × (p a ≡ true)
  Has-keep_from [] m = absurd m
  Has-keep_from (x ∷ xs) {a} m = elim (Bool-cases (p x)) [
    | inl t ↦
        kept_first t (λ m. Has-keep_from xs m)
          (subst (λ c. Has a (if c then x ∷ keep p xs else keep p xs)) t m)
    | inr f ↦
        let found =
          Has-keep_from xs (subst (λ c. Has a (if c then x ∷ keep p xs else keep p xs)) f m) in
        (inr found.0, found.1)
  ]
    where
      kept_first :
          p x ≡ true
          → (Has a (keep p xs) → Has a xs × (p a ≡ true))
          → Has a (x ∷ keep p xs)
          → Has a (x ∷ xs) × (p a ≡ true)
      kept_first t ih (inl e) = (inl e, subst (λ y. p y ≡ true) e t)
      kept_first t ih (inr m) = let found = ih m in (inr found.0, found.1)

-- A stronger test keeps no more, and fewer when it drops an element that the other keeps.
module _ {A : Type 0} (p q : A → Bool) (weaker : (x : A) → q x ≡ true → p x ≡ true) where
  pub length-keep_le : (xs : List A) → length (keep q xs) ≤ length (keep p xs)
  length-keep_le [] = omega arith
  length-keep_le (x ∷ xs) = ground (arith, weaker x, length-keep_le xs)

  pub length-keep_lt :
      (xs : List A) {a : A}
      → Has a xs
      → p a ≡ true
      → q a ≡ false
      → length (keep q xs) < length (keep p xs)
  length-keep_lt [] m h k = absurd m
  length-keep_lt (x ∷ xs) (inl e) h k =
      rw (e, h, k, if◌then◌else◌) (omega (arith, length-keep_le xs))
  length-keep_lt (x ∷ xs) (inr m) h k = ground (arith, weaker x, length-keep_lt xs m h k)

-- What a successful `any` found, and that it finds it.
module _ {A : Type 0} (p : A → Bool) where
  pub any_found : (xs : List A) → any p xs ≡ true → (a : A) × Has a xs × (p a ≡ true)
  any_found [] h = cc h
  any_found (x ∷ xs) h = elim (Bool-cases (p x)) [
    | inl t ↦ (x, inl refl, t)
    | inr f ↦
        let found = any_found xs (subst (λ c. (c || any p xs) ≡ true) f h) in
        (found.0, inr found.1, found.2)
  ]

  pub any_finds : (xs : List A) (a : A) → Has a xs → p a ≡ true → any p xs ≡ true
  any_finds [] a m h = absurd m
  any_finds (x ∷ xs) a (inl e) h = rw (e, h) refl
  any_finds (x ∷ xs) a (inr m) h = ground (arith, any_finds xs a m h)

pub length-keep : {A : Type 0} (p : A → Bool) (xs : List A) → length (keep p xs) ≤ length xs
length-keep p [] = omega arith
length-keep p (x ∷ xs) = ground (arith, length-keep p xs)

pub Mem-keep : {A : Type 0} (p : A → Bool) (xs : List A) {a : A} → Mem a (keep p xs) → Mem a xs
Mem-keep p [] m = m
Mem-keep p (x ∷ xs) {a} m = elim (Bool-cases (p x)) [
  | inl t ↦
      Or.elim Mem-prop
        (mem-cons.0 (subst (λ c. Mem a (if c then x ∷ keep p xs else keep p xs)) t m))
        (λ e. mem-cons.1 (Or.inl e)) (λ n. mem-cons.1 (Or.inr (Mem-keep p xs n)))
  | inr f ↦
      mem-cons.1
        (Or.inr (Mem-keep p xs (subst (λ c. Mem a (if c then x ∷ keep p xs else keep p xs)) f m)))
]
