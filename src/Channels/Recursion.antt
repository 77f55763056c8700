-- ===== src/Channels/Recursion.antt =====
-- SQL's `WITH RECURSIVE … UNION ALL`, which the queries of
-- services/hub/internal/channels/store.go use: the rows of a round are what the recursive term
-- makes of the rows of the round before. The number of rounds is a bound, with what makes it
-- enough.
use ainsel.Prelude.{
  ℕ, zero, suc, ◌<◌, ◌≡◌, refl, subst, inl, inr, ◌⊎◌, List, [], ◌∷◌, ◌++◌, arith, All, Has,
  Any-append_left, Any-append_right, Any-append, All-append, flat_map, Has-flat_map,
  Has-flat_map_from,
}

module _ {R : Type 0} (expand : R → List R) where
  -- The working table after some rounds.
  abbrev pub working_table : ℕ → List R → List R
  working_table zero rows = rows
  working_table (suc n) rows = working_table n (flat_map expand rows)

  -- The rows of all rounds.
  abbrev pub with_recursive : ℕ → List R → List R
  with_recursive zero rows = []
  with_recursive (suc n) rows = rows ++ with_recursive n (flat_map expand rows)

  -- What the recursive query stands for: the rows that some rounds make of the first ones.
  pub data Derived (start : List R) : R → Type 0 where
    given : {r : R} → Has r start → Derived start r
    next : {w r : R} → Derived start w → Has r (expand w) → Derived start r

  Derived-round : {start : List R} {r : R} → Derived (flat_map expand start) r → Derived start r
  Derived-round {start} {r} (given m) =
      let found = Has-flat_map_from expand start r m in next (given found.1) found.2
  Derived-round (next d m) = next (Derived-round d) m

  pub with_recursive-IsDerived :
      (n : ℕ) (rows : List R) {r : R} → Has r (with_recursive n rows) → Derived rows r
  with_recursive-IsDerived zero rows m = absurd m
  with_recursive-IsDerived (suc n) rows {r} m =
      elim (Any-append (λ y. y ≡ r) rows (with_recursive n (flat_map expand rows)) m) [
        | inl here ↦ given here
        | inr later ↦ Derived-round (with_recursive-IsDerived n (flat_map expand rows) later)
      ]

  pub start_in : (n : ℕ) (rows : List R) (r : R) → Has r rows → Has r (with_recursive (suc n) rows)
  start_in n rows r m = Any-append_left (λ y. y ≡ r) rows _ m

  -- The successor of a row is a row, or is left for a round that the bound does not allow.
  next_in :
      (n : ℕ) (rows : List R) (w r : R)
      → Has w (with_recursive n rows)
      → Has r (expand w)
      → Has r (with_recursive n rows) ⊎ Has r (working_table n rows)
  next_in zero rows w r m k = absurd m
  next_in (suc n) rows w r m k =
      elim (Any-append (λ y. y ≡ w) rows (with_recursive n (flat_map expand rows)) m) [
        | inl here ↦ from_first n (Has-flat_map expand rows w r here k)
        | inr later ↦ from_later (next_in n (flat_map expand rows) w r later k)
      ]
    where
      from_later :
          Has r (with_recursive n (flat_map expand rows))
            ⊎ Has r (working_table n (flat_map expand rows))
          → Has r (rows ++ with_recursive n (flat_map expand rows))
            ⊎ Has r (working_table n (flat_map expand rows))
      from_later (inl h) = inl (Any-append_right (λ y. y ≡ r) rows _ h)
      from_later (inr h) = inr h

      from_first :
          (n : ℕ)
          → Has r (flat_map expand rows)
          → Has r (rows ++ with_recursive n (flat_map expand rows))
            ⊎ Has r (working_table n (flat_map expand rows))
      from_first zero h = inr h
      from_first (suc n) h =
          inl (Any-append_right (λ y. y ≡ r) rows _ (Any-append_left (λ y. y ≡ r) _ _ h))

  -- Where a measure falls in every step, as many rounds as it says end the query.
  module _ (measure : R → ℕ) (falls : (w : R) → All (λ r. measure r < measure w) (expand w)) where
    expanded_below :
        (n : ℕ) (rows : List R)
        → All (λ r. measure r < suc n) rows
        → All (λ r. measure r < n) (flat_map expand rows)
    expanded_below n [] h = tt
    expanded_below n (w ∷ rows) h =
        All-append (λ r. measure r < n) (expand w) _ (below_each (expand w) (falls w))
          (expanded_below n rows h.1)
      where
        below_each :
            (rs : List R) → All (λ r. measure r < measure w) rs → All (λ r. measure r < n) rs
        below_each [] k = tt
        below_each (r ∷ rs) k = (omega (arith, k.0, h.0), below_each rs k.1)

    pub working_table-ends :
        (n : ℕ) (rows : List R) → All (λ r. measure r < n) rows → working_table n rows ≡ []
    working_table-ends zero [] h = refl
    working_table-ends zero (r ∷ rows) h = absurd (omega (arith, h.0))
    working_table-ends (suc n) rows h =
        working_table-ends n (flat_map expand rows) (expanded_below n rows h)

    pub with_recursive-IsComplete :
        (n : ℕ) (rows : List R)
        → All (λ r. measure r < suc n) rows
        → {r : R} → Derived rows r
        → Has r (with_recursive (suc n) rows)
    with_recursive-IsComplete n rows h (given m) = start_in n rows _ m
    with_recursive-IsComplete n rows h (next {w} {r} d m) =
        elim (next_in (suc n) rows w r (with_recursive-IsComplete n rows h d) m) [
          | inl found ↦ found
          | inr left ↦ absurd (subst (Has r) (working_table-ends (suc n) rows h) left)
        ]
