-- ===== src/Trigger/Index.antt =====
-- services/hub/internal/trigger/index.go, but for DeduplicateByAgent. A Go map is an association
-- list in the order in which `range` visits it; the mutex and the log lines are left out.
pub mod Matching
pub mod History
pub mod Rearranged
use ainsel.Prelude.{
  ℕ, Bool, true, false, not, ◌&&◌, List, [], ◌∷◌, Option, none, some, String, if◌then◌else◌, ◌==◌,
  string_eq, map,
}
use ainsel.Prelude.Dict.{lookup, insert, delete}
use ainsel.Prelude.Time.{Instant}
use ainsel.Trigger.Text.{has_suffix}
use ainsel.Trigger.Value.{Value, Fields, null, object, text, end, set_field, text_fields, Runtime}
use ainsel.Trigger.Filter.{Filter, match_filters}

-- services/hub/internal/triggers/types.go
pub record Trigger : Type 0 where
  pub id : String
  pub display_name : String
  pub agent_ref : String
  pub connector_ref : String
  pub filters : List Filter
  pub agent_valid : Bool
  pub connector_valid : Bool
  pub created_at : Instant
  pub updated_at : Instant

-- shared/api/event.go
pub record Event : Type 0 where
  pub id : String
  pub version : String
  pub connector : String
  pub timestamp : Instant
  pub headers : List (String × String)
  pub payload : String
  pub raw : String

pub record MatchResult : Type 0 where
  pub trigger_name : String
  pub agent_ref : String

abbrev pub Index : Type 0
Index = List (String × Trigger)

abbrev pub new_index : Index
new_index = []

unfoldable pub update : Index → Trigger → Index
update idx t = insert t.id copy idx
  where
    copy : Trigger
    copy = record {
      id = t.id;
      display_name = t.display_name;
      agent_ref = t.agent_ref;
      connector_ref = t.connector_ref;
      filters = t.filters;
      agent_valid = t.agent_valid;
      connector_valid = t.connector_valid;
      created_at = t.created_at;
      updated_at = t.updated_at;
    }

unfoldable pub delete_trigger : Index → String → Index
delete_trigger idx id = delete id idx

unfoldable pub keys : Index → List String
keys [] = []
keys ((k, _) ∷ idx) = k ∷ keys idx

pub is_valid : Trigger → Bool
is_valid t = t.agent_valid && t.connector_valid

-- The first header that ends in "-Event" and is not empty.
event_header : List (String × String) → Option String
event_header [] = none
event_header ((h, v) ∷ rest) =
    if has_suffix h "-Event" && not (v == "") then some v else event_header rest

or_empty : Option String → String
or_empty none = ""
or_empty (some v) = v

type_or : List (String × String) → Option String → String
unfolding or_empty
type_or headers none = or_empty (lookup "type" headers)
type_or headers (some v) = v

-- The headers in one order; Go visits its map in an order of its own, so that of several headers
-- that end in "-Event" any may come first there.
unfoldable pub canonical_event_type : List (String × String) → String
unfolding event_header type_or
canonical_event_type headers = type_or headers (event_header headers)

-- The variable `payload` after `json.Unmarshal`, which sets a map to nil for the document `null`
-- and leaves it alone for a document that is no object, or no JSON.
pub data Payload : Type 0 where
  nil_map : Payload
  entries : Fields → Payload

unmarshal : Option Value → Payload
unmarshal none = entries end
unmarshal (some (object fs)) = entries fs
unmarshal (some null) = nil_map
unmarshal (some _) = entries end

add_type : String → Fields → Fields
add_type t fs = if not (t == "") then set_field "type" (text t) fs else fs

-- The two assignments into the map; on a nil map they panic, which is `none`.
add_headers : List (String × String) → Payload → Option Fields
unfolding add_type
add_headers [] nil_map = some end
add_headers [] (entries fs) = some fs
add_headers (h ∷ hs) nil_map = none
add_headers (h ∷ hs) (entries fs) =
    let headers = h ∷ hs in
    some (
      add_type (canonical_event_type headers)
        (set_field "headers" (object (text_fields headers)) fs))

unfoldable pub build_filter_payload : Runtime → Event → Option Fields
unfolding unmarshal add_headers
build_filter_payload go evt =
    add_headers evt.headers
      (if evt.payload == "" then entries end else unmarshal (go.parse_json evt.payload))

no_filters : List Filter → Bool
no_filters [] = true
no_filters (f ∷ fs) = false

-- The body of the loop of `Match`: whether the trigger is added to the results.
accepts : Runtime → Fields → Event → Trigger → Bool
unfolding is_valid no_filters
accepts go payload evt t =
    if not (is_valid t)
    then false
    else if not (t.connector_ref == evt.connector)
    then false
    else if not (no_filters t.filters) && not (match_filters go t.filters payload)
    then false
    else true

abbrev pub to_result : Trigger → MatchResult
to_result t = record { trigger_name = t.id; agent_ref = t.agent_ref }

matches_in : Runtime → Fields → Event → Index → List MatchResult
unfolding accepts
matches_in go payload evt [] = []
matches_in go payload evt ((_, t) ∷ rest) =
    if accepts go payload evt t
    then to_result t ∷ matches_in go payload evt rest
    else matches_in go payload evt rest

match_payload : Runtime → Event → Index → Option Fields → Option (List MatchResult)
unfolding matches_in
match_payload go evt idx none = none
match_payload go evt idx (some payload) = some (matches_in go payload evt idx)

-- `none` is the panic of `buildFilterPayload`.
unfoldable pub index_match : Runtime → Index → Event → Option (List MatchResult)
unfolding match_payload
index_match go idx evt = match_payload go evt idx (build_filter_payload go evt)
