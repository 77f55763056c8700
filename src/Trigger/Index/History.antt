-- ===== src/Trigger/Index/History.antt =====
-- The index of services/hub/internal/trigger/index.go against the calls that built it.
use ainsel.Prelude.{
  ◌≡◌, refl, List, [], ◌∷◌, Option, none, some, String, if◌then◌else◌, ◌==◌, string_eq, All,
}
use ainsel.Prelude.Dict.{lookup, lookup-insert, lookup-delete}
use ainsel.Prelude.Dict.Keys.{insert-IsKeyed, delete-IsKeyed, insert-All, delete-All}
use mathlib.Core.List.{Pairwise}
use ainsel.Prelude.Order.{IsKeyed}
use ainsel.Trigger.Index.{Trigger, Index, new_index, update, delete_trigger}

pub data Call : Type 0 where
  updates : Trigger → Call
  deletes : String → Call

unfoldable pub apply_call : Index → Call → Index
apply_call idx (updates t) = update idx t
apply_call idx (deletes id) = delete_trigger idx id

-- The calls, most recent first.
unfoldable pub run : List Call → Index
run [] = new_index
run (c ∷ cs) = apply_call (run cs) c

-- What a reader of the calls expects to find under an id: the most recent call about it decides.
unfoldable pub expected : String → List Call → Option Trigger
expected id [] = none
expected id (updates t ∷ cs) = if t.id == id then some t else expected id cs
expected id (deletes k ∷ cs) = if k == id then none else expected id cs

-- After any sequence of `Update` and `Delete` calls the index holds under each id exactly the
-- trigger of the last `Update` with that id, unless a `Delete` of the id came after it.
pub lookup-run : (id : String) (cs : List Call) → lookup id (run cs) ≡ expected id cs
unfolding run expected apply_call update delete_trigger
lookup-run id [] = unfold lookup in refl
lookup-run id (updates t ∷ cs) = rw (lookup-insert, lookup-run id cs)
lookup-run id (deletes k ∷ cs) = rw (lookup-delete, lookup-run id cs)

-- What a Go map of triggers under their ids guarantees: no key twice, each trigger under its id.
pub record IsIndex (idx : Index) : Type 0 where
  pub keyed : IsKeyed (λ (e : String × Trigger). e.0) idx
  pub stored : All (λ (e : String × Trigger). e.1.id ≡ e.0) idx

apply_call-IsIndex : (c : Call) {idx : Index} → IsIndex idx → IsIndex (apply_call idx c)
unfolding apply_call update delete_trigger
apply_call-IsIndex (updates t) {idx} v = record {
  keyed = insert-IsKeyed t.id t idx v.keyed;
  stored = insert-All (λ (k : String) (u : Trigger). u.id ≡ k) t.id t idx refl v.stored;
}
apply_call-IsIndex (deletes k) {idx} v = record {
  keyed = delete-IsKeyed k idx v.keyed;
  stored = delete-All (λ (k : String) (u : Trigger). u.id ≡ k) k idx v.stored;
}

-- Every index that `Update` and `Delete` calls build holds each id once, with its own trigger.
pub run-IsIndex : (cs : List Call) → IsIndex (run cs)
unfolding run
run-IsIndex [] = record { keyed = Pairwise.nil; stored = tt }
run-IsIndex (c ∷ cs) = apply_call-IsIndex c (run-IsIndex cs)
