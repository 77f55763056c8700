-- ===== src/Invocations/Tests.antt =====
-- The theorems about the invocation store at concrete calls.
use ainsel.Invocations.{
  get, status_failure, or_else, completed_fields, new_memory_store, complete_found, complete, evict,
  add, record_invocation, Invocation, ListOptions, newer, list_with_total, capacity_of,
}
use ainsel.Prelude.Dict.{insert, lookup}
use ainsel.Invocations.Lifecycle.{IsOutcome, record_invocation-complete}
use ainsel.Invocations.Retention.{apply_call, Call, records, completes, run, recorded}
use ainsel.Invocations.Retained.{AllNew, get-run}
use ainsel.Prelude.{
  some, string_eq, true, false, String, ℕ, ◌-◌, ◌==◌, ◌≡◌, ◌≢◌, ◌↔◌, refl, inl, inr, Has, List, [],
  ◌∷◌, none, length, drop, arith,
}
use ainsel.Prelude.Int.{pos}
use ainsel.Prelude.Order.{SortSlice}
use ainsel.Prelude.Order.Insertion.{sorter}
use ainsel.Invocations.Listing.{IsListing, list_with_total-IsListing}

newer_asym : (a b : Invocation) → newer a b ≡ true → newer b a ≡ false
unfolding newer
newer_asym a b h = ground arith

newer_steps : (a b c : Invocation) → newer b a ≡ false → newer c b ≡ false → newer c a ≡ false
unfolding newer
newer_steps a b c h k = ground arith

abbrev by_time : SortSlice newer
by_time = sorter newer newer_asym newer_steps

abbrev started : String → ℕ → Invocation
started id t = record {
  id = id;
  agent_name = "reviewer";
  trigger_name = "on-push";
  event_id = "evt";
  connector = "forge";
  start_time = t;
  end_time = none;
  duration_ms = none;
  status = "";
  error = "";
}

abbrev three_calls : List Call
three_calls =
    records "inv-3" 30 (started "" 0)
    ∷ completes 25 "b" "success" "" 25
    ∷ records "inv-2" 20 (started "b" 20)
    ∷ records "inv-1" 10 (started "a" 10)
    ∷ []

abbrev kept_ids : List String
kept_ids = drop (length (recorded three_calls) - capacity_of (pos 2)) (recorded three_calls)

differ : (s t : String) → (s == t) ≡ false → s ≡ t → ⊥
differ s t h e = cc (h, (string_eq.beq_iff s t).1 e)

absent_b : Has {A = String} "b" ("a" ∷ []) → ⊥
absent_b (inl e) = differ "a" "b" refl e
absent_b (inr m) = m

absent_third : Has {A = String} "inv-3" ("a" ∷ "b" ∷ []) → ⊥
absent_third (inl e) = differ "a" "inv-3" refl e
absent_third (inr (inl e)) = differ "b" "inv-3" refl e
absent_third (inr (inr m)) = m

all_new : AllNew three_calls
unfolding AllNew recorded or_else
all_new = (absent_third, (absent_b, ((λ m. m), tt)))

get-run_example :
    ((run (pos 2) three_calls).order ≡ kept_ids)
    × ((id : String)
        → ((rec : Invocation) × (get (run (pos 2) three_calls) id ≡ some rec)) ↔ Has id kept_ids)
get-run_example = get-run (pos 2) three_calls all_new

two_kept : (run (pos 2) three_calls).order ≡ "b" ∷ "inv-3" ∷ []
unfolding run apply_call record_invocation add evict complete complete_found lookup insert
    new_memory_store capacity_of completed_fields or_else
two_kept = refl

abbrev finished_ones : ListOptions
finished_ones = record {
  agent_name = "reviewer";
  agent_names = [];
  status = "success";
  trigger_name = "";
  event_id = "";
  since = 0;
  until = 0;
  limit = pos 1;
}

list_with_total-IsListing_example :
    IsListing finished_ones
      (run (pos 2) three_calls)
      (list_with_total by_time (run (pos 2) three_calls) finished_ones).0
      (list_with_total by_time (run (pos 2) three_calls) finished_ones).1
list_with_total-IsListing_example =
    list_with_total-IsListing by_time (run (pos 2) three_calls) finished_ones

record_invocation-complete_example :
    let (store, made) = record_invocation (run (pos 2) three_calls) "inv-4" 40 (started "" 0) in
    let done = complete store 50 made.id status_failure "enqueue task failed" 0 in
    (done.1 ≡ true)
    × ((rec : Invocation) × (get done.0 made.id ≡ some rec)
        × IsOutcome (started "" 0) "inv-4" 40 50 status_failure "enqueue task failed" 0 rec)
    × ((j : String) → made.id ≢ j → get done.0 j ≡ get store j)
record_invocation-complete_example =
    record_invocation-complete (run (pos 2) three_calls) "inv-4" 40 50 (started "" 0) status_failure
      "enqueue task failed" 0
