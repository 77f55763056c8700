-- ===== src/Trigger/Tests.antt =====
-- The theorems about triggers and routing at a concrete event.
use ainsel.Trigger.Value.{
  text_fields, set_field, Value, Fields, null, text, object, end, field, Runtime, get_field,
}
use ainsel.Trigger.Text.{has_suffix, split_dots}
use ainsel.Trigger.Index.{
  canonical_event_type, update, Trigger, Event, MatchResult, Index, index_match,
  build_filter_payload, to_result,
}
use ainsel.Prelude.Dict.{insert, lookup}
use ainsel.Trigger.Index.History.{
  apply_call, Call, updates, deletes, run, expected, lookup-run, run-IsIndex, IsIndex,
}
use mathlib.Core.List.{Permᴰ}
use mathlib.Core.Option
use ainsel.Prelude.{
  ◌≡◌, ◌≢◌, ◌↔◌, refl, Bool, true, false, not, List, [], ◌∷◌, Option, none, some, String, Any, Has,
  ◌==◌, string_eq,
}
use ainsel.Prelude.Order.{SortSlice}
use ainsel.Prelude.Order.Insertion.{sorter}
use ainsel.Trigger.Text.Laws.{str_ltb_asym, str_ltb_steps}
use ainsel.Trigger.Filter.{Filter, resolve_field, filter_match}
use ainsel.Trigger.Filter.Laws.{filter_match-negated}
use ainsel.Trigger.Index.Matching.{Wakes, IsNullBody, index_match_iff, index_match_panics_iff}
use ainsel.Trigger.Dedup.{name_less, deduplicate_by_agent}
use ainsel.Trigger.Dedup.Laws.{IsDeduplicated, deduplicate_by_agent-IsDeduplicated}
use ainsel.Trigger.Dedup.Determinism.{routing_deterministic}

name_less_asym : (a b : MatchResult) → name_less a b ≡ true → name_less b a ≡ false
unfolding name_less
name_less_asym a b h = str_ltb_asym a.trigger_name b.trigger_name h

name_less_steps :
    (a b c : MatchResult) → name_less b a ≡ false → name_less c b ≡ false → name_less c a ≡ false
unfolding name_less
name_less_steps a b c h k = str_ltb_steps a.trigger_name b.trigger_name c.trigger_name h k

abbrev by_name : SortSlice name_less
by_name = sorter name_less name_less_asym name_less_steps

-- A runtime that parses one body, `null`, and any other to an empty object.
abbrev tiny : Runtime
tiny = record {
  format_float = λ n. "1";
  format_value = λ v. "map[]";
  regex_match = λ p s. some false;
  parse_json = λ s. if_null (s == "null");
}
  where
    if_null : Bool → Option Value
    if_null true = some null
    if_null false = some (object end)

abbrev on_push : Filter
on_push = record { field = "action"; op = "in"; value = ""; values = "push" ∷ [] }

abbrev trigger : String → String → List Filter → Trigger
trigger id agent filters = record {
  id = id;
  display_name = id;
  agent_ref = agent;
  connector_ref = "forge";
  filters = filters;
  agent_valid = true;
  connector_valid = true;
  created_at = 1;
  updated_at = 1;
}

abbrev event : String → Event
event body = record {
  id = "evt";
  version = "1";
  connector = "forge";
  timestamp = 1;
  headers = ("X-Event", "push") ∷ [];
  payload = body;
  raw = "";
}

abbrev payload : Fields
payload = field "action" (text "push") end

filter_match-negated_example :
    let with_op = λ (op : String). filter_match tiny (record on_push { op = op }) payload in
    (with_op "not-contains" ≡ not (with_op "contains"))
    × (with_op "contains not" ≡ not (with_op "contains"))
    × (with_op "not-in" ≡ not (with_op "in"))
    × (with_op "not in" ≡ not (with_op "in"))
unfolding resolve_field split_dots get_field
filter_match-negated_example = filter_match-negated tiny on_push payload (text "push") refl refl

abbrev match_of : String → String → MatchResult
match_of name agent = record { trigger_name = name; agent_ref = agent }

abbrev two_triggers : Index
two_triggers = ("a", trigger "a" "reviewer" []) ∷ ("b", trigger "b" "reviewer" []) ∷ []

abbrev swapped : Index
swapped = ("b", trigger "b" "reviewer" []) ∷ ("a", trigger "a" "reviewer" []) ∷ []

abbrev history : List Call
history =
    updates (trigger "a" "reviewer" []) ∷ updates (trigger "b" "reviewer" []) ∷ deletes "c" ∷ []

lookup-run_example : lookup "a" (run history) ≡ expected "a" history
lookup-run_example = lookup-run "a" history

abbrev woken : Fields
woken =
    field "headers" (object (field "X-Event" (text "push") end)) (field "type" (text "push") end)

deduplicate_by_agent-IsDeduplicated_example :
    IsDeduplicated
      (match_of "b" "x" ∷ match_of "a" "x" ∷ [])
      (deduplicate_by_agent by_name (match_of "b" "x" ∷ match_of "a" "x" ∷ []))
deduplicate_by_agent-IsDeduplicated_example =
    deduplicate_by_agent-IsDeduplicated by_name (match_of "b" "x" ∷ match_of "a" "x" ∷ [])

two_triggers-IsIndex :
    IsIndex (run (updates (trigger "a" "reviewer" []) ∷ updates (trigger "b" "reviewer" []) ∷ []))
two_triggers-IsIndex = run-IsIndex _

routing_deterministic_example :
    Option.map (deduplicate_by_agent by_name) (index_match tiny swapped (event ""))
    ≡ Option.map (deduplicate_by_agent by_name) (index_match tiny two_triggers (event ""))
unfolding run apply_call update insert
routing_deterministic_example =
    routing_deterministic tiny by_name by_name swapped two_triggers (event "") two_triggers-IsIndex
      (Permᴰ.swap refl refl)

index_match_panics_iff_example :
    (index_match tiny two_triggers (event "null") ≡ none)
    ↔ (IsNullBody tiny (event "null") × ((event "null").headers ≢ []))
index_match_panics_iff_example = index_match_panics_iff tiny two_triggers (event "null")

index_match_iff_example :
    Has (match_of "a" "reviewer") (match_of "a" "reviewer" ∷ match_of "b" "reviewer" ∷ [])
    ↔ Any
        (λ (e : String × Trigger).
          Wakes tiny woken (event "") e.1 × (to_result e.1 ≡ match_of "a" "reviewer"))
        two_triggers
unfolding index_match build_filter_payload canonical_event_type has_suffix set_field text_fields
index_match_iff_example =
    index_match_iff tiny two_triggers (event "") woken
      (match_of "a" "reviewer" ∷ match_of "b" "reviewer" ∷ []) (match_of "a" "reviewer") refl refl
