-- ===== src/Channels/Walk.antt =====
-- `Walk` and `Deliveries` of services/hub/internal/channels/store.go, and `Deliveries` of
-- service.go: the inboxes into which the bridges carry an event. The order of `ORDER BY` is a
-- parameter: any sort of the rows by depth and id, for some order of the texts.
pub mod Depth
pub mod Found
pub mod Inboxes
use ainsel.Prelude.{
  ℕ, zero, suc, ◌+◌, Bool, true, false, not, ◌&&◌, ◌||◌, ◌≡◌, List, [], ◌∷◌, ◌++◌, Option, String,
  if◌then◌else◌, ◌==◌, nat_eq, string_eq, ltb, keep, map, flat_map, any,
}
use ainsel.Prelude.Order.{SortSlice}
use ainsel.Channels.Rows.{Kind, kind_agent, Channel, ref_of, Bridge, Delivery}
use ainsel.Channels.Recursion.{with_recursive}
use ainsel.Channels.Graph.{on_path}
use ainsel.Channels.{Store, has_id}

abbrev pub max_walk_depth : ℕ
max_walk_depth = 8

-- A row of the query, with the path that its last SELECT leaves out.
pub record WalkRow : Type 0 where
  pub channel_id : String
  pub kind : Kind
  pub entity_ref : String
  pub depth : ℕ
  pub path : List String
  pub bridge_id : String
  pub bridge_name : String

abbrev pub first_row : Channel → WalkRow
first_row c = record {
  channel_id = c.id;
  kind = c.kind;
  entity_ref = ref_of c;
  depth = 0;
  path = c.id ∷ [];
  bridge_id = "";
  bridge_name = "";
}

abbrev pub next_row : WalkRow → Bridge → Channel → WalkRow
next_row w b c = record {
  channel_id = b.to_channel;
  kind = c.kind;
  entity_ref = ref_of c;
  depth = suc w.depth;
  path = w.path ++ b.to_channel ∷ [];
  bridge_id = b.id;
  bridge_name = b.name;
}

abbrev pub goes_on : WalkRow → Bridge → Bool
goes_on w b =
    b.from_channel == w.channel_id
    && not (on_path w.path b.to_channel)
    && ltb w.depth max_walk_depth

-- The recursive term, with its two joins.
abbrev pub bridge_rows : Store → WalkRow → Bridge → List WalkRow
bridge_rows s w b = map (next_row w b) (keep (has_id b.to_channel) s.channels)

abbrev pub walk_rows : Store → WalkRow → List WalkRow
walk_rows s w = flat_map (bridge_rows s w) (keep (goes_on w) s.bridges)

abbrev pub first_rows : Store → String → List WalkRow
first_rows s from = map first_row (keep (has_id from) s.channels)

-- No row is deeper than the bound, so that one round more ends the query.
abbrev pub all_rows : Store → String → List WalkRow
all_rows s from = with_recursive (walk_rows s) (suc max_walk_depth) (first_rows s from)

-- `ORDER BY depth, id`
abbrev pub row_less : (String → String → Bool) → WalkRow → WalkRow → Bool
row_less text_less v w =
    ltb v.depth w.depth || v.depth == w.depth && text_less v.channel_id w.channel_id

-- How the database compares texts, and sorts by it.
pub record Collation : Type 0 where
  pub text_less : String → String → Bool
  pub sort_rows : SortSlice (row_less text_less)

abbrev pub is_below : WalkRow → Bool
is_below w = ltb 0 w.depth

unfoldable pub walk : Collation → Store → String → List WalkRow
walk db s from = db.sort_rows.sort (keep is_below (all_rows s from))

abbrev pub is_inbox_row : WalkRow → Bool
is_inbox_row w = w.kind == kind_agent && not (w.entity_ref == "")

abbrev pub delivery_of : WalkRow → Delivery
delivery_of w = record {
  agent_channel = w.channel_id;
  agent_name = w.entity_ref;
  bridge_id = w.bridge_id;
  bridge_name = w.bridge_name;
}

-- The loop of `Deliveries`. `seen` has the inboxes that were taken.
abbrev pub first_hits : List String → List WalkRow → List Delivery
first_hits seen [] = []
first_hits seen (w ∷ ws) = elim (is_inbox_row w && not (on_path seen w.channel_id)) [
  | true ↦ delivery_of w ∷ first_hits (w.channel_id ∷ seen) ws
  | false ↦ first_hits seen ws
]

unfoldable pub store_deliveries : Collation → Store → String → List Delivery
store_deliveries db s from = first_hits [] (walk db s from)

abbrev pub is_new : List String → Delivery → Bool
is_new delivered d = not (any (λ name. name == d.agent_name) delivered)

-- `Deliveries` of the service.
unfoldable pub deliveries : Collation → Store → String → List String → List Delivery
deliveries db s birth_channel delivered =
    if birth_channel == ""
    then []
    else keep (is_new delivered) (store_deliveries db s birth_channel)
