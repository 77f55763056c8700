-- ===== src/Prelude/Order/Insertion.antt =====
-- An instance of the sort parameter: insertion sort, for an order whose "not less" is transitive.
use mathlib.Core.Path.{◌≡◌, refl}
use mathlib.Core.Logic.{inl, inr}
use mathlib.Core.Logic.Or
use mathlib.Core.Bool.{Bool, true, false, Bool-set}
use mathlib.Core.List.{List, [], ◌∷◌, Permᴰ, Pairwise, mem-cons, not-mem-nil}
use mathlib.Core.List.Perm
use mathlib.Core.List.Permᴰ
use ainsel.Prelude.Tests.{if◌then◌else◌, Bool-cases}
use ainsel.Prelude.Order.{IsSorted, SortSlice}

module _ {ℓ} {A : Type ℓ} (less : A → A → Bool) where
  abbrev insert_by : A → List A → List A
  insert_by x [] = x ∷ []
  insert_by x (y ∷ ys) = if less y x then y ∷ insert_by x ys else x ∷ y ∷ ys

  abbrev pub insertion_sort : List A → List A
  insertion_sort [] = []
  insertion_sort (x ∷ xs) = insert_by x (insertion_sort xs)

  insert_by-perm : (x : A) (ys : List A) → Permᴰ (insert_by x ys) (x ∷ ys)
  insert_by-perm x [] = Permᴰ.refl (x ∷ [])
  insert_by-perm x (y ∷ ys) = elim (Bool-cases (less y x)) [
    | inl later ↦
        rw (later, if◌then◌else◌)
          (Permᴰ.trans (Permᴰ.cons refl (insert_by-perm x ys)) (Permᴰ.swap refl refl))
    | inr here ↦ rw (here, if◌then◌else◌) (Permᴰ.refl (x ∷ y ∷ ys))
  ]

  pub insertion_sort-perm : (xs : List A) → Permᴰ (insertion_sort xs) xs
  insertion_sort-perm [] = Permᴰ.nil
  insertion_sort-perm (x ∷ xs) =
      Permᴰ.trans (insert_by-perm x (insertion_sort xs)) (Permᴰ.cons refl (insertion_sort-perm xs))

  module _ (asym : (a b : A) → less a b ≡ true → less b a ≡ false)
      (steps : (a b c : A) → less b a ≡ false → less c b ≡ false → less c a ≡ false) where
    insert_by-IsSorted : (x : A) (ys : List A) → IsSorted less ys → IsSorted less (insert_by x ys)
    insert_by-IsSorted x [] s = Pairwise.cons (λ z m. absurd (not-mem-nil m)) Pairwise.nil
    insert_by-IsSorted x (y ∷ ys) (Pairwise.cons h s) = elim (Bool-cases (less y x)) [
      | inl later ↦
          rw (later, if◌then◌else◌)
            (Pairwise.cons
              (λ z m.
                Or.elim (Bool-set _ _) (mem-cons.0 ((Perm.mem_iff ∣ insert_by-perm x ys ∣₁).0 m))
                  (λ e. rw e (asym y x later)) (λ n. h z n))
              (insert_by-IsSorted x ys s))
      | inr here ↦
          rw (here, if◌then◌else◌)
            (Pairwise.cons
              (λ z m.
                Or.elim (Bool-set _ _) (mem-cons.0 m) (λ e. rw e here)
                  (λ n. steps x y z here (h z n)))
              (Pairwise.cons h s))
    ]

    pub insertion_sort-IsSorted : (xs : List A) → IsSorted less (insertion_sort xs)
    insertion_sort-IsSorted [] = Pairwise.nil
    insertion_sort-IsSorted (x ∷ xs) =
        insert_by-IsSorted x (insertion_sort xs) (insertion_sort-IsSorted xs)

    abbrev pub sorter : SortSlice less
    sorter = record {
      sort = insertion_sort;
      sort-perm = insertion_sort-perm;
      sort-IsSorted = insertion_sort-IsSorted;
    }
