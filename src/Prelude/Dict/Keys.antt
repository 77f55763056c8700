-- ===== src/Prelude/Dict/Keys.antt =====
-- The keys of a dictionary stay distinct, and predicates on its entries are kept.
use mathlib.Core.HLevel.{⊥_prop}
use mathlib.Core.Logic.{◌≢◌, inl, inr}
use mathlib.Core.Logic.Or
use mathlib.Core.List.{List, [], ◌∷◌, Mem, Pairwise, mem-cons, not-mem-nil}
use mathlib.Core.Path.{ap, ◌∙◌}
use ainsel.Prelude.Tests.{Bool-cases}
use ainsel.Prelude.Equality.{Eq, ◌==◌}
use ainsel.Prelude.Lists.{All}
use ainsel.Prelude.Order.{IsKeyed}
use ainsel.Prelude.Dict.{insert, delete}

module _ {ℓ κ} {K : Type ℓ} {V : Type κ} ⦃e : Eq K⦄ where
  -- The key stands in no entry.
  abbrev Absent : K → List (K × V) → Type (ℓ ⊔ κ)
  Absent k m = (x : K × V) → Mem x m → k ≢ x.0

  insert-Absent :
      (k j : K) (v : V) (m : List (K × V)) → k ≢ j → Absent k m → Absent k (insert j v m)
  unfolding insert
  insert-Absent k j v [] other absent x h = λ same.
      Or.elim ⊥_prop (mem-cons.0 h) (λ p. other (same ∙ ap (λ (y : K × V). y.0) p))
        (λ n. not-mem-nil n)
  insert-Absent k j v ((i, w) ∷ m) other absent x h = elim (Bool-cases (i == j)) [
    | inl hit ↦ λ same.
        Or.elim ⊥_prop (mem-cons.0 (rw (hit, insert) at h))
          (λ p. other (same ∙ ap (λ (y : K × V). y.0) p))
          (λ n. absent x (mem-cons.1 (Or.inr n)) same)
    | inr miss ↦ λ same.
        Or.elim ⊥_prop (mem-cons.0 (rw (miss, insert) at h))
          (λ p. absent x (mem-cons.1 (Or.inl p)) same)
          (λ n. insert-Absent k j v m other (λ y q. absent y (mem-cons.1 (Or.inr q))) x n same)
  ]

  delete-Absent : (k j : K) (m : List (K × V)) → Absent k m → Absent k (delete j m)
  unfolding delete
  delete-Absent k j [] absent x h = absurd (not-mem-nil h)
  delete-Absent k j ((i, w) ∷ m) absent x h =
      let rest = delete-Absent k j m (λ y q. absent y (mem-cons.1 (Or.inr q))) x in
      elim (Bool-cases (i == j)) [
        | inl hit ↦ rest (rw (hit, delete) at h)
        | inr miss ↦ λ same.
            Or.elim ⊥_prop (mem-cons.0 (rw (miss, delete) at h))
              (λ p. absent x (mem-cons.1 (Or.inl p)) same) (λ n. rest n same)
      ]

  pub insert-IsKeyed :
      (k : K) (v : V) (m : List (K × V))
      → IsKeyed (λ (x : K × V). x.0) m
      → IsKeyed (λ (x : K × V). x.0) (insert k v m)
  unfolding insert
  insert-IsKeyed k v [] keyed = Pairwise.cons (λ x h. absurd (not-mem-nil h)) Pairwise.nil
  insert-IsKeyed k v ((i, w) ∷ m) (Pairwise.cons h keyed) = elim (Bool-cases (i == k)) [
    | inl hit ↦
        rw (hit, insert) (Pairwise.cons (λ x n same. h x n ((e.beq_iff i k).0 hit ∙ same)) keyed)
    | inr miss ↦
        rw (miss, insert)
          (Pairwise.cons (insert-Absent i k v m (λ p. cc (miss, (e.beq_iff i k).1 p)) h)
            (insert-IsKeyed k v m keyed))
  ]

  pub delete-IsKeyed :
      (k : K) (m : List (K × V))
      → IsKeyed (λ (x : K × V). x.0) m
      → IsKeyed (λ (x : K × V). x.0) (delete k m)
  unfolding delete
  delete-IsKeyed k [] keyed = keyed
  delete-IsKeyed k ((i, w) ∷ m) (Pairwise.cons h keyed) = elim (Bool-cases (i == k)) [
    | inl hit ↦ rw (hit, delete) (delete-IsKeyed k m keyed)
    | inr miss ↦
        rw (miss, delete) (Pairwise.cons (delete-Absent i k m h) (delete-IsKeyed k m keyed))
  ]

  module _ {μ} (P : K → V → Type μ) where
    abbrev pub Entries : List (K × V) → Type μ
    Entries = All (λ (x : K × V). P x.0 x.1)

    pub insert-All : (k : K) (v : V) (m : List (K × V)) → P k v → Entries m → Entries (insert k v m)
    unfolding insert
    insert-All k v [] p h = (p, tt)
    insert-All k v ((i, w) ∷ m) p h = elim (Bool-cases (i == k)) [
      | inl hit ↦ rw (hit, insert) (p, h.1)
      | inr miss ↦ rw (miss, insert) (h.0, insert-All k v m p h.1)
    ]

    pub delete-All : (k : K) (m : List (K × V)) → Entries m → Entries (delete k m)
    unfolding delete
    delete-All k [] h = h
    delete-All k ((i, w) ∷ m) h = elim (Bool-cases (i == k)) [
      | inl hit ↦ rw (hit, delete) (delete-All k m h.1)
      | inr miss ↦ rw (miss, delete) (h.0, delete-All k m h.1)
    ]
