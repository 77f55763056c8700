-- ===== src/Invocations/Retained.antt =====
-- What can be read from the `MemoryStore` of services/hub/internal/invocations/store.go: the
-- invocations recorded last.
use mathlib.Core.Option.{none-ne-some}
use ainsel.Prelude.{
  ℕ, zero, suc, ◌-◌, ◌≡◌, refl, sym, subst, ◌↔◌, inl, inr, List, [], ◌∷◌, ◌++◌, Option, none, some,
  String, if◌then◌else◌, ◌==◌, string_eq, leb, Bool-cases, Has, Any-append, Any-append_left,
  Any-append_right, length, drop,
}
use ainsel.Prelude.Int.{ℤ}
use ainsel.Prelude.Dict.{lookup, insert, delete, lookup-insert, lookup-delete}
use ainsel.Prelude.Time.{Instant}
use ainsel.Invocations.{
  Invocation, MemoryStore, capacity_of, new_memory_store, evict, add, completed_fields, finish,
  record_invocation, complete, complete_found, or_else, get,
}
use ainsel.Invocations.Retention.{Call, records, completes, apply_call, run, recorded, order-run}

-- No id twice.
unfoldable IsDistinct : List String → Type 0
IsDistinct [] = Unit
IsDistinct (x ∷ xs) = (Has x xs → ⊥) × IsDistinct xs

-- No id is recorded twice, as for ids that the store draws at random.
unfoldable pub AllNew : List Call → Type 0
AllNew [] = Unit
AllNew (records generated now inv ∷ cs) =
    (Has (or_else generated inv.id) (recorded cs) → ⊥) × AllNew cs
AllNew (completes now id status message ended ∷ cs) = AllNew cs

drop-IsDistinct : (n : ℕ) (xs : List String) → IsDistinct xs → IsDistinct (drop n xs)
unfolding IsDistinct
drop-IsDistinct zero xs h = h
drop-IsDistinct (suc n) [] h = h
drop-IsDistinct (suc n) (x ∷ xs) h = drop-IsDistinct n xs h.1

append-IsDistinct :
    (xs : List String) (x : String) → IsDistinct xs → (Has x xs → ⊥) → IsDistinct (xs ++ x ∷ [])
unfolding IsDistinct
append-IsDistinct [] x h new = ((λ m. m), tt)
append-IsDistinct (y ∷ xs) x h new = (
  λ m. elim (Any-append (λ z. z ≡ y) xs (x ∷ []) m) [
    | inl before ↦ h.0 before
    | inr (inl same) ↦ new (inl (sym same))
    | inr (inr none_) ↦ absurd none_
  ],
  append-IsDistinct xs x h.1 (λ m. new (inr m)),
)

recorded-IsDistinct : (cs : List Call) → AllNew cs → IsDistinct (recorded cs)
unfolding AllNew recorded IsDistinct
recorded-IsDistinct [] h = tt
recorded-IsDistinct (records generated now inv ∷ cs) h =
    append-IsDistinct (recorded cs) (or_else generated inv.id) (recorded-IsDistinct cs h.1) h.0
recorded-IsDistinct (completes now id status message ended ∷ cs) h = recorded-IsDistinct cs h

-- The map has a record for exactly the ids of the order.
abbrev IsAgreed : List String → List (String × Invocation) → Type 0
IsAgreed order by_id =
    (id : String) → ((rec : Invocation) × (lookup id by_id ≡ some rec)) ↔ Has id order

delete-IsAgreed :
    (x : String) (order : List String) (by_id : List (String × Invocation))
    → (Has x order → ⊥)
    → IsAgreed (x ∷ order) by_id
    → IsAgreed order (delete x by_id)
delete-IsAgreed x order by_id new agreed id = elim (Bool-cases (x == id)) [
  | inl e ↦
      rw (lookup-delete, e, if◌then◌else◌)
        (
          λ (rec, h). absurd (none-ne-some _ h),
          λ m. absurd (new (subst (λ y. Has y order) (sym ((string_eq.beq_iff x id).0 e)) m)),
        )
  | inr e ↦
      rw (lookup-delete, e, if◌then◌else◌)
        (
          λ h. elim ((agreed id).0 h) [
            | inl same ↦ absurd (cc (e, (string_eq.beq_iff x id).1 same))
            | inr m ↦ m
          ],
          λ m. (agreed id).1 (inr m),
        )
]

evict-IsAgreed :
    (capacity : ℕ) (order : List String) (by_id : List (String × Invocation))
    → IsDistinct order
    → IsAgreed order by_id
    → IsAgreed (evict capacity order by_id).0 (evict capacity order by_id).1
unfolding evict IsDistinct
evict-IsAgreed capacity [] by_id h agreed = agreed
evict-IsAgreed capacity (x ∷ order) by_id h agreed =
    elim (Bool-cases (leb capacity (suc (length order)))) [
      | inl full ↦
          rw (full, if◌then◌else◌)
            (evict-IsAgreed capacity order (delete x by_id) h.1
              (delete-IsAgreed x order by_id h.0 agreed))
      | inr room ↦ rw (room, if◌then◌else◌) agreed
    ]

insert-IsAgreed :
    (id : String) (inv : Invocation) (order : List String) (by_id : List (String × Invocation))
    → IsAgreed order by_id
    → IsAgreed (order ++ id ∷ []) (insert id inv by_id)
insert-IsAgreed id inv order by_id agreed j = elim (Bool-cases (id == j)) [
  | inl e ↦
      rw (lookup-insert, e, if◌then◌else◌)
        (
          λ h. Any-append_right (λ z. z ≡ j) order (id ∷ []) (inl ((string_eq.beq_iff id j).0 e)),
          λ m. (inv, refl),
        )
  | inr e ↦
      rw (lookup-insert, e, if◌then◌else◌)
        (
          λ h. Any-append_left (λ z. z ≡ j) order (id ∷ []) ((agreed j).0 h),
          λ m. elim (Any-append (λ z. z ≡ j) order (id ∷ []) m) [
            | inl before ↦ (agreed j).1 before
            | inr (inl same) ↦ absurd (cc (e, (string_eq.beq_iff id j).1 same))
            | inr (inr none_) ↦ absurd none_
          ],
        )
]

complete_found-IsAgreed :
    (s : MemoryStore) (id status message : String) (ended : Instant) (o : Option Invocation)
    → lookup id s.by_id ≡ o
    → IsAgreed s.order s.by_id
    → IsAgreed
        (complete_found s id status message ended o).0.order
        (complete_found s id status message ended o).0.by_id
unfolding complete_found
complete_found-IsAgreed s id status message ended none held agreed j = agreed j
complete_found-IsAgreed s id status message ended (some rec) held agreed j =
    elim (Bool-cases (id == j)) [
      | inl e ↦
          rw (lookup-insert, e, if◌then◌else◌)
            (
              λ h. (agreed j).0 (rec, rw⁻¹ ((string_eq.beq_iff id j).0 e) held),
              λ m. (finish status message ended rec, refl),
            )
      | inr e ↦ rw (lookup-insert, e, if◌then◌else◌) (agreed j)
    ]

run-IsAgreed :
    (capacity : ℤ) (cs : List Call)
    → AllNew cs
    → IsAgreed (run capacity cs).order (run capacity cs).by_id
unfolding run apply_call AllNew new_memory_store record_invocation add complete lookup
run-IsAgreed capacity [] h = λ id. (λ (rec, e). absurd (none-ne-some _ e), λ m. absurd m)
run-IsAgreed capacity (completes now id status message ended ∷ cs) h =
    complete_found-IsAgreed (run capacity cs) id status message _
      (lookup id (run capacity cs).by_id) refl (run-IsAgreed capacity cs h)
run-IsAgreed capacity (records generated now inv ∷ cs) h =
    let s = run capacity cs in
    insert-IsAgreed (completed_fields generated now inv).id (completed_fields generated now inv) _ _
      (evict-IsAgreed s.capacity s.order s.by_id
        (rw (order-run capacity cs) (
          drop-IsDistinct (length (recorded cs) - capacity_of capacity) (recorded cs)
            (recorded-IsDistinct cs h.1)))
        (run-IsAgreed capacity cs h.1))

-- Where no id is recorded twice, the store after any calls has the ids recorded last, as many as the
-- capacity allows (all of them, if they are fewer), oldest first, and `Get` finds a record for
-- these ids and for no others; completing an invocation changes none of it. The capacity is the one
-- asked for, or 1000 where that is not positive.
pub get-run :
    (capacity : ℤ) (cs : List Call)
    → AllNew cs
    → ((run capacity cs).order ≡ drop (length (recorded cs) - capacity_of capacity) (recorded cs))
      × ((id : String)
          → ((rec : Invocation) × (get (run capacity cs) id ≡ some rec))
            ↔ Has id (drop (length (recorded cs) - capacity_of capacity) (recorded cs)))
unfolding get
get-run capacity cs h = (
  order-run capacity cs,
  λ id.
      subst
        (λ (order : List String).
          ((rec : Invocation) × (lookup id (run capacity cs).by_id ≡ some rec)) ↔ Has id order)
        (order-run capacity cs) (run-IsAgreed capacity cs h id),
)
