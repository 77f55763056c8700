-- ===== src/Channels/Views.antt =====
-- services/hub/internal/channels/service.go: the edges of the channels, as the console shows them,
-- and the changes that a user may make; `ReachingInto` and `ListBridges` of store.go. The trigger
-- registry's list, the order of the texts and `strings.TrimSpace` are parameters.
pub mod Reaching
pub mod Degrees
mod Tests
use Prim.Native.String.{◌++◌ as ◌appended◌}
use ainsel.Prelude.{
  ℕ, suc, Bool, true, false, not, ◌&&◌, ◌||◌, List, [], ◌∷◌, ◌++◌, Option, none, some, String,
  if◌then◌else◌, ◌==◌, nat_eq, string_eq, ltb, map, keep, any,
}
use ainsel.Prelude.Dict.{lookup, insert}
use ainsel.Prelude.Order.{SortSlice}
use ainsel.Prelude.Time.{Instant}
use ainsel.Trigger.Index.{Trigger}
use ainsel.Channels.Rows.{
  Kind, kind_connector, kind_agent, kind_custom, Channel, ref_of, Bridge, default_description,
}
use ainsel.Channels.Graph.{PathRow, backwards, path_search}
use ainsel.Channels.{
  Store, Error, bad_argument, Result, ok, err, has_id, touches, ensure, create, update,
}

-- The database's order of texts, and the queries and the `sort.Slice` that sort by it.
abbrev pub bridge_less : (String → String → Bool) → Bridge → Bridge → Bool
bridge_less text_less a b =
    ltb a.created_at b.created_at || a.created_at == b.created_at && text_less a.id b.id

pub record Ordering : Type 0 where
  pub text_less : String → String → Bool
  pub sort_ids : SortSlice text_less
  pub sort_bridges : SortSlice (bridge_less text_less)
  pub sort_triggers : SortSlice (λ (s t : Trigger). text_less s.id t.id)

-- `SELECT DISTINCT`
abbrev pub distinct : List String → List String
distinct [] = []
distinct (x ∷ xs) = x ∷ keep (λ y. not (y == x)) (distinct xs)

-- The query starts from the channel's row, of which the primary key allows one.
unfoldable pub reaching_into : Ordering → Store → String → List String
reaching_into db s id =
    if any (has_id id) s.channels
    then db.sort_ids.sort
        (distinct (map (λ (w : PathRow). w.id) (path_search backwards s.bridges id)))
    else []

unfoldable pub list_bridges : Ordering → Store → String → List Bridge
list_bridges db s id = db.sort_bridges.sort (keep (λ b. id == "" || touches id b) s.bridges)

unfoldable pub bridges_into : Ordering → Store → String → List Bridge
bridges_into db s id = keep (λ (b : Bridge). b.to_channel == id) (list_bridges db s id)

pub record Subscription : Type 0 where
  pub source : String
  pub ref_id : String
  pub name : String
  pub from_channel : String
  pub to_channel : String
  pub from_ref : String
  pub to_ref : String

abbrev pub source_trigger : String
source_trigger = "trigger"

abbrev pub source_bridge : String
source_bridge = "bridge"

unfoldable pub entity_key : Kind → String → String
entity_key kind ref = kind appended ("#" appended ref)

unfoldable pub by_entity : List Channel → List (String × String) → List (String × String)
by_entity [] m = m
by_entity (c ∷ cs) m =
    by_entity cs (if ref_of c == "" then m else insert (entity_key c.kind (ref_of c)) c.id m)

unfoldable pub or_blank : Option String → String
or_blank none = ""
or_blank (some id) = id

-- `byEntity[key]`, where a missing entry is the empty string.
unfoldable pub id_of : String → List (String × String) → String
id_of key m = or_blank (lookup key m)

unfoldable pub first_non_empty : String → String → String
first_non_empty a b = if a == "" then b else a

unfoldable pub of_trigger : List (String × String) → Trigger → Subscription
of_trigger ids t = record {
  source = source_trigger;
  ref_id = t.id;
  name = first_non_empty t.display_name t.id;
  from_channel = id_of (entity_key kind_connector t.connector_ref) ids;
  to_channel = id_of (entity_key kind_agent t.agent_ref) ids;
  from_ref = t.connector_ref;
  to_ref = t.agent_ref;
}

unfoldable pub of_bridge : Bridge → Subscription
of_bridge b = record {
  source = source_bridge;
  ref_id = b.id;
  name = b.name;
  from_channel = b.from_channel;
  to_channel = b.to_channel;
  from_ref = "";
  to_ref = "";
}

-- `Subscriptions`, without the trigger registry if it is none.
unfoldable pub subscriptions : Ordering → Store → Option (List Trigger) → List Subscription
subscriptions db s none = map of_bridge (list_bridges db s "")
subscriptions db s (some triggers) =
    map (of_trigger (by_entity s.channels [])) (db.sort_triggers.sort triggers)
    ++ map of_bridge (list_bridges db s "")

unfoldable pub or_zero : Option ℕ → ℕ
or_zero none = 0
or_zero (some n) = n

-- `m[id]`, where a missing entry is 0.
unfoldable pub count_at : String → List (String × ℕ) → ℕ
count_at id m = or_zero (lookup id m)

-- `m[id]++`
unfoldable pub bump : String → List (String × ℕ) → List (String × ℕ)
bump id m = insert id (suc (count_at id m)) m

pub record EdgeCounts : Type 0 where
  pub all_edges : List (String × ℕ)
  pub bridge_edges : List (String × ℕ)

-- The body of the inner loop of `degrees`.
unfoldable pub count_end : String → EdgeCounts → String → EdgeCounts
count_end source d id = if id == "" then d else record {
  all_edges = bump id d.all_edges;
  bridge_edges = if source == source_bridge then bump id d.bridge_edges else d.bridge_edges;
}

unfoldable pub count_ends : List Subscription → EdgeCounts → EdgeCounts
count_ends [] d = d
count_ends (sub ∷ subs) d =
    count_ends subs (count_end sub.source (count_end sub.source d sub.from_channel) sub.to_channel)

unfoldable pub degrees : List Subscription → EdgeCounts
degrees subs = count_ends subs (record { all_edges = []; bridge_edges = [] })

-- The edges of `Get`: an edge into the channel is not listed as going out of it.
unfoldable pub incoming : String → List Subscription → List Subscription
incoming id = keep (λ sub. sub.to_channel == id)

unfoldable pub outgoing : String → List Subscription → List Subscription
outgoing id = keep (λ sub. not (sub.to_channel == id) && sub.from_channel == id)

unfoldable pub create_custom :
    (String → String) → Store → Instant → String → String → String → Store × Result Channel
create_custom trim_space s now id name description =
    if trim_space name == "" then (s, err bad_argument) else create s now id name description

unfoldable pub is_blank_name : (String → String) → Option String → Bool
is_blank_name trim_space none = false
is_blank_name trim_space (some name) = trim_space name == ""

unfoldable pub update_custom :
    (String → String)
    → Store
    → Instant
    → String
    → Option String
    → Option String
    → Store × Result Channel
update_custom trim_space s now id name description =
    if is_blank_name trim_space name
    then (s, err bad_argument)
    else update s now id name description

-- The id of the channel that an event is born in, which is provisioned on first sight.
unfoldable pub id_result : Store × Result Channel → Store × Result String
id_result (s, ok c) = (s, ok c.id)
id_result (s, err e) = (s, err e)

unfoldable pub connector_channel_for : Store → Instant → String → String → Store × Result String
connector_channel_for s now id label =
    id_result
      (ensure s now id kind_connector label label (default_description kind_connector label))

unfoldable pub inbox_channel_for : Store → Instant → String → String → Store × Result String
inbox_channel_for s now id name =
    id_result (ensure s now id kind_agent name name (default_description kind_agent name))
