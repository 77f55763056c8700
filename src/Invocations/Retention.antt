-- ===== src/Invocations/Retention.antt =====
-- What the `MemoryStore` of services/hub/internal/invocations/store.go retains.
use ainsel.Prelude.{
  ℕ, zero, suc, ◌+◌, ◌-◌, ◌≤◌, ◌≡◌, refl, sym, ap, ◌∙◌, inl, inr, List, [], ◌∷◌, ◌++◌, Option, none,
  some, String, if◌then◌else◌, string_eq, leb, arith, Bool-cases, length, drop, length-append,
}
use ainsel.Prelude.Int.{ℤ, pos, negsuc}
use ainsel.Prelude.Dict.{lookup, delete}
use ainsel.Prelude.Time.{Instant}
use ainsel.Invocations.{
  Invocation, MemoryStore, capacity_of, new_memory_store, evict, add, completed_fields,
  record_invocation, complete, complete_found, len, or_else,
}

drop_nil {ℓ} : {A : Type ℓ} (n : ℕ) → drop {A = A} n [] ≡ []
drop_nil zero = refl
drop_nil (suc n) = refl

length-drop {ℓ} : {A : Type ℓ} (n : ℕ) (xs : List A) → length (drop n xs) ≡ length xs - n
length-drop zero xs = omega arith
length-drop (suc n) [] = omega arith
length-drop (suc n) (x ∷ xs) = omega (arith, length-drop n xs)

drop-drop {ℓ} : {A : Type ℓ} (m n : ℕ) (xs : List A) → drop m (drop n xs) ≡ drop (n + m) xs
drop-drop m zero xs = ap (λ (k : ℕ). drop k xs) (omega arith)
drop-drop m (suc n) [] = drop_nil m ∙ sym (drop_nil (suc n + m))
drop-drop m (suc n) (x ∷ xs) =
    let next : suc n + m ≡ suc (n + m) = omega arith in rw next (drop-drop m n xs)

drop-append {ℓ} :
    {A : Type ℓ} (n : ℕ) (xs ys : List A) → n ≤ length xs → drop n (xs ++ ys) ≡ drop n xs ++ ys
drop-append zero xs ys h = refl
drop-append (suc n) [] ys h = absurd (omega (arith, h))
drop-append (suc n) (x ∷ xs) ys h = drop-append n xs ys (omega (arith, h))

-- The loop drops exactly the oldest ids that are too many, and leaves room for one.
evict_lem :
    (capacity : ℕ) (order : List String) (by_id : List (String × Invocation))
    → 1 ≤ capacity
    → (evict capacity order by_id).0 ≡ drop (suc (length order) - capacity) order
unfolding evict
evict_lem capacity [] by_id h = sym (drop_nil (1 - capacity))
evict_lem capacity (x ∷ order) by_id h = elim (Bool-cases (leb capacity (suc (length order)))) [
  | inl full ↦
      let less : suc (suc (length order)) - capacity ≡ suc (suc (length order) - capacity) =
        ground arith in
      rw (full, if◌then◌else◌, less) (evict_lem capacity order (delete x by_id) h)
  | inr room ↦
      let none_over : suc (suc (length order)) - capacity ≡ 0 = ground arith in
      rw (room, if◌then◌else◌, none_over) refl
]

capacity_of_positive : (capacity : ℤ) → 1 ≤ capacity_of capacity
unfolding capacity_of
capacity_of_positive (pos n) = ground arith
capacity_of_positive (negsuc n) = omega arith

-- A call that changes the store.
pub data Call : Type 0 where
  records : String → Instant → Invocation → Call
  completes : Instant → String → String → String → Instant → Call

unfoldable pub apply_call : MemoryStore → Call → MemoryStore
apply_call s (records generated now inv) = (record_invocation s generated now inv).0
apply_call s (completes now id status message ended) = (complete s now id status message ended).0

-- The calls, most recent first.
unfoldable pub run : ℤ → List Call → MemoryStore
run capacity [] = new_memory_store capacity
run capacity (c ∷ cs) = apply_call (run capacity cs) c

-- The ids that were recorded, oldest first.
unfoldable pub recorded : List Call → List String
recorded [] = []
recorded (records generated now inv ∷ cs) = recorded cs ++ or_else generated inv.id ∷ []
recorded (completes now id status message ended ∷ cs) = recorded cs

complete_found-capacity :
    (s : MemoryStore) (id status message : String) (ended : Instant) (o : Option Invocation)
    → (complete_found s id status message ended o).0.capacity ≡ s.capacity
unfolding complete_found
complete_found-capacity s id status message ended none = refl
complete_found-capacity s id status message ended (some rec) = refl

complete_found-order :
    (s : MemoryStore) (id status message : String) (ended : Instant) (o : Option Invocation)
    → (complete_found s id status message ended o).0.order ≡ s.order
unfolding complete_found
complete_found-order s id status message ended none = refl
complete_found-order s id status message ended (some rec) = refl

appended :
    (capacity : ℕ) (xs : List String) (id : String)
    → 1 ≤ capacity
    → drop
          (suc (length (drop (length xs - capacity) xs)) - capacity)
          (drop (length xs - capacity) xs)
        ++ id ∷ []
      ≡ drop (length (xs ++ id ∷ []) - capacity) (xs ++ id ∷ [])
appended capacity xs id h =
    let over = length xs - capacity in
    let dropped : over + (suc (length (drop over xs)) - capacity)
        ≡ length (xs ++ id ∷ []) - capacity =
      omega (arith, length-drop over xs, length-append xs (id ∷ []), h) in
    let fits : length (xs ++ id ∷ []) - capacity ≤ length xs =
      omega (arith, length-append xs (id ∷ []), h) in
    ap (λ (l : List String). l ++ id ∷ [])
      (drop-drop (suc (length (drop over xs)) - capacity) over xs
        ∙ ap (λ (n : ℕ). drop n xs) dropped)
    ∙ sym (drop-append (length (xs ++ id ∷ []) - capacity) xs (id ∷ []) fits)

capacity-run : (capacity : ℤ) (cs : List Call) → (run capacity cs).capacity ≡ capacity_of capacity
unfolding run apply_call new_memory_store record_invocation add complete
capacity-run capacity [] = refl
capacity-run capacity (records generated now inv ∷ cs) = capacity-run capacity cs
capacity-run capacity (completes now id status message ended ∷ cs) =
    complete_found-capacity (run capacity cs) id status message _
      (lookup id (run capacity cs).by_id)
    ∙ capacity-run capacity cs

-- The order after any calls has the ids recorded last, as many as the capacity allows
-- (all of them, if they are fewer), oldest first; completing an invocation changes none of it. The
-- capacity is the one asked for, or 1000 where that is not positive.
pub order-run :
    (capacity : ℤ) (cs : List Call)
    → (run capacity cs).order ≡ drop (length (recorded cs) - capacity_of capacity) (recorded cs)
unfolding run recorded apply_call new_memory_store record_invocation add complete completed_fields
order-run capacity [] = sym (drop_nil _)
order-run capacity (completes now id status message ended ∷ cs) =
    complete_found-order (run capacity cs) id status message _ (lookup id (run capacity cs).by_id)
    ∙ order-run capacity cs
order-run capacity (records generated now inv ∷ cs) =
    ap (λ (l : List String). l ++ or_else generated inv.id ∷ [])
      (evict_lem (run capacity cs).capacity (run capacity cs).order (run capacity cs).by_id
        (rw (capacity-run capacity cs) (capacity_of_positive capacity)))
    ∙ rw (capacity-run capacity cs, order-run capacity cs)
        (appended (capacity_of capacity) (recorded cs) (or_else generated inv.id)
          (capacity_of_positive capacity))

-- The store never holds more than its capacity.
pub len-run : (capacity : ℤ) (cs : List Call) → len (run capacity cs) ≤ capacity_of capacity
unfolding len
len-run capacity cs =
    rw (order-run capacity cs)
      (omega (arith, length-drop (length (recorded cs) - capacity_of capacity) (recorded cs)))
