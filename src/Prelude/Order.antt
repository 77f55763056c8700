-- ===== src/Prelude/Order.antt =====
-- Go's `sort.Slice`, as a parameter: a permutation of its input in which no later element is less
-- than an earlier one. Ties may come out in any order.
pub mod Insertion
use mathlib.Core.Path.{◌≡◌, refl, sym, ap₂}
use mathlib.Core.HLevel.{⊥_prop}
use mathlib.Core.Logic.{◌≢◌}
use mathlib.Core.Logic.Or
use mathlib.Core.Bool.{Bool, false, Bool-set}
use mathlib.Core.List.{
  List, [], ◌∷◌, Mem, Perm, Permᴰ, Pairwise, mem-cons, mem-cons_self, not-mem-nil,
}
use mathlib.Core.List.Pairwise
use mathlib.Core.List.Perm

module _ {ℓ} {A : Type ℓ} where
  abbrev pub IsSorted : (A → A → Bool) → List A → Type ℓ
  IsSorted less = Pairwise (λ a b. less b a ≡ false)

  pub record SortSlice (less : A → A → Bool) : Type ℓ where
    pub sort : List A → List A
    pub sort-perm : (l : List A) → Permᴰ (sort l) l
    pub sort-IsSorted : (l : List A) → IsSorted less (sort l)

  -- No two elements have the same key.
  abbrev pub IsKeyed {κ} : {K : Type κ} → (A → K) → List A → Type (ℓ ⊔ κ)
  IsKeyed key = Pairwise (λ a b. key a ≢ key b)

  pub key_unique {κ} :
      {K : Type κ} (key : A → K) (s : IsSet A) {l : List A} {a b : A}
      → IsKeyed key l
      → Mem a l
      → Mem b l
      → key a ≡ key b
      → a ≡ b
  key_unique key s {l = []} k ma mb e = absurd (not-mem-nil ma)
  key_unique key s {l = x ∷ l} {a} {b} (Pairwise.cons h k) ma mb e =
      Or.elim (s a b) (mem-cons.0 ma)
        (λ ax. Or.elim (s a b) (mem-cons.0 mb) (λ bx. cc) (λ bl. absurd (h b bl (cc))))
        (λ al.
          Or.elim (s a b) (mem-cons.0 mb) (λ bx. absurd (h a al (cc)))
            (λ bl. key_unique key s k al bl e))

  module _ (less : A → A → Bool) where
    -- The head of a sorted list is not preceded by any element of it.
    first_least :
        (irrefl : (a : A) → less a a ≡ false) {a x : A} {l : List A}
        → IsSorted less (x ∷ l)
        → Mem a (x ∷ l)
        → less a x ≡ false
    first_least irrefl {a} {x} (Pairwise.cons h _) m =
        Or.elim (Bool-set _ _) (mem-cons.0 m) (λ e. rw e (irrefl x)) (h a)

    -- Two sorted permutations are one list, if the order tells the elements apart.
    pub sorted_unique :
        (irrefl : (a : A) → less a a ≡ false) (l r : List A)
        → ((a b : A) → Mem a l → Mem b l → less a b ≡ false → less b a ≡ false → a ≡ b)
        → IsSorted less l
        → IsSorted less r
        → Perm l r
        → l ≡ r
    sorted_unique irrefl [] r tie sl sr p = Perm.nil-eq p
    sorted_unique irrefl (a ∷ l) [] tie sl sr p = Perm.eq-nil p
    sorted_unique irrefl (a ∷ l) (b ∷ r) tie sl sr p =
        let in_l = (Perm.mem_iff p).1 mem-cons_self in
        let in_r = (Perm.mem_iff p).0 mem-cons_self in
        let same =
          tie a b mem-cons_self in_l (first_least irrefl sr in_r) (first_least irrefl sl in_l) in
        let rest = Perm.cons_inv (Perm.trans p (Perm.cons' (sym same) Perm.rfl)) in
        ap₂ ◌∷◌ same (
          sorted_unique irrefl l r
            (λ x y mx my. tie x y (mem-cons.1 (Or.inr mx)) (mem-cons.1 (Or.inr my)))
            (Pairwise.of_cons sl) (Pairwise.of_cons sr) rest)
