-- ===== src/Channels/Tests.antt =====
-- The channel graph on a connector, two groups and an agent, and on two groups without a bridge.
use ainsel.Channels.Bridges.{}
use ainsel.Channels.Rows.{valid}
use ainsel.Prelude.{
  Bool, ◌≡◌, ◌≢◌, ◌↔◌, refl, subst, true, false, List, [], ◌∷◌, none, some, String, Has, ◌==◌,
  string_eq, inl, inr, arith,
}
use ainsel.Prelude.Order.{IsKeyed}
use ainsel.Prelude.Order.Insertion.{sorter}
use ainsel.Trigger.Text.{str_ltb}
use ainsel.Trigger.Text.Laws.{str_ltb_asym, str_ltb_steps}
use ainsel.Channels.Rows.{
  Channel, Bridge, Delivery, ref_of, valid, default_description, unless_empty,
}
use ainsel.Channels.Recursion.{working_table}
use ainsel.Channels.Graph.{forwards, path_rows, start_row, reaches, Leads}
use ainsel.Channels.Graph.Reachable.{path_search-ends, reaches_iff}
use ainsel.Channels.Graph.Acyclic.{IsAcyclic}
use ainsel.Channels.Walk.{Collation, WalkRow, row_less, deliveries, is_new}
use ainsel.Channels.Walk.Depth.{LeadsIn}
use ainsel.Channels.Walk.Inboxes.Exact.{IsTransfer, deliveries-IsTransfer, deliveries-IsComplete}
use ainsel.Channels.Invariant.{IsSound, IsSound-HasEnds}
use ainsel.Channels.Calls.{Call, ensures, creates, bridges, apply_change, changed, changed-IsSound}
use ainsel.Channels.Bridging.Race.{interleaved_bridges-cycle}
use ainsel.Channels.Provisioning.{ensure-get_by_entity, ensure-unnamed}
use ainsel.Channels.{
  Store, ok, find, or_not_found, get, is_ref, is_entity, get_by_entity, refresh, insert_channel,
  entity_row, upsert_found, upsert, ensure, create, has_id, is_custom,
}
use ainsel.Channels.Bridges.{
  get_bridge, check_pair, check_to, check_from, check_bridge, clashes, insert_bridge, new_bridge,
  after_check, create_bridge,
}

pub ==_no : (s t : String) → (s == t) ≡ false → s ≡ t → ⊥
==_no s t h e = cc (h, (string_eq.beq_iff s t).1 e)

abbrev pub text_less : String → String → Bool
text_less s t = str_ltb s t

pub row_asym : (a b : WalkRow) → row_less text_less a b ≡ true → row_less text_less b a ≡ false
row_asym a b h =
    ground
      (arith, str_ltb_asym a.channel_id b.channel_id, str_ltb_asym b.channel_id a.channel_id, h)

pub row_steps :
    (a b c : WalkRow)
    → row_less text_less b a ≡ false
    → row_less text_less c b ≡ false
    → row_less text_less c a ≡ false
row_steps a b c h k = ground (arith, str_ltb_steps a.channel_id b.channel_id c.channel_id, h, k)

abbrev pub db : Collation
db = record { text_less = text_less; sort_rows = sorter (row_less text_less) row_asym row_steps }

abbrev calls : List Call
calls =
    bridges 6 "b2" "g1" "a1" ""
    ∷ bridges 5 "b1" "c1" "g1" "in"
    ∷ creates 4 "g2" "two" ""
    ∷ creates 3 "g1" "one" ""
    ∷ ensures 2 "a1" "agent" "reviewer" "" ""
    ∷ ensures 1 "c1" "connector" "forge" "" ""
    ∷ []

abbrev pub source : Channel
source = record {
  id = "c1";
  kind = "connector";
  name = "forge";
  description = "Where forge events arrive";
  entity_ref = some "forge";
  orphaned = false;
  created_at = 1;
  updated_at = 1;
}

abbrev pub inbox : Channel
inbox = record {
  id = "a1";
  kind = "agent";
  name = "reviewer";
  description = "The inbox agent reviewer drains";
  entity_ref = some "reviewer";
  orphaned = false;
  created_at = 2;
  updated_at = 2;
}

abbrev pub group_one : Channel
group_one = record {
  id = "g1";
  kind = "custom";
  name = "one";
  description = "Grouping channel for one";
  entity_ref = none;
  orphaned = false;
  created_at = 3;
  updated_at = 3;
}

abbrev pub group_two : Channel
group_two = record {
  id = "g2";
  kind = "custom";
  name = "two";
  description = "Grouping channel for two";
  entity_ref = none;
  orphaned = false;
  created_at = 4;
  updated_at = 4;
}

abbrev pub into_group : Bridge
into_group = record {
  id = "b1";
  name = "in";
  from_channel = "c1";
  to_channel = "g1";
  created_at = 5;
  updated_at = 5;
}

abbrev pub into_inbox : Bridge
into_inbox = record {
  id = "b2";
  name = "one → reviewer";
  from_channel = "g1";
  to_channel = "a1";
  created_at = 6;
  updated_at = 6;
}

abbrev pub store : Store
store = record {
  channels = source ∷ inbox ∷ group_one ∷ group_two ∷ [];
  bridges = into_group ∷ into_inbox ∷ [];
}

changed-calls : changed calls ≡ store
unfolding changed apply_change create_bridge after_check check_bridge check_from get or_not_found
    find create insert_channel ensure valid upsert upsert_found is_entity entity_row reaches
    default_description unless_empty check_pair check_to clashes get_bridge has_id insert_bridge
    is_custom is_ref new_bridge refresh
changed-calls = refl

pub store-IsSound : IsSound store
store-IsSound = subst IsSound changed-calls (changed-IsSound calls)

changed-IsSound_example : IsSound (changed calls)
changed-IsSound_example = changed-IsSound calls

deliveries-IsTransfer_example :
    ((d : Delivery)
      → Has d (deliveries db store "c1" [])
      → IsTransfer store "c1" d × (is_new [] d ≡ true))
    × IsKeyed (λ (d : Delivery). d.agent_channel) (deliveries db store "c1" [])
deliveries-IsTransfer_example =
    deliveries-IsTransfer db store "c1" [] (IsSound-HasEnds store store-IsSound) store-IsSound.keys

deliveries-IsComplete_example :
    (d : Delivery) × Has d (deliveries db store "c1" [])
    × (d.agent_channel ≡ "a1")
    × (d.agent_name ≡ "reviewer")
unfolding ref_of
deliveries-IsComplete_example =
    deliveries-IsComplete db store "c1" [] inbox 2 (IsSound-HasEnds store store-IsSound)
      store-IsSound.keys (λ e. ==_no "c1" "" refl e) (inr (inl refl)) refl
      (λ e. ==_no "reviewer" "" refl e) refl (λ e. ==_no "a1" "c1" refl e) (omega arith)
      (LeadsIn.step (LeadsIn.step LeadsIn.here (into_group, inl refl, refl, refl))
        (into_inbox, inr (inl refl), refl, refl))

reaches_iff_example :
    (reaches store.bridges "c1" "a1" ≡ true)
    ↔ (Leads forwards store.bridges "c1" "a1" × ◌≢◌ {A = String} "a1" "c1")
reaches_iff_example = reaches_iff store.bridges "c1" "a1"

path_search-ends_example :
    working_table (path_rows forwards (into_group ∷ into_inbox ∷ [])) 3 (start_row "c1" ∷ []) ≡ []
path_search-ends_example = path_search-ends forwards (into_group ∷ into_inbox ∷ []) "c1"

ensure-get_by_entity_example :
    get_by_entity (ensure store 7 "x" "agent" "reviewer" "" "").0 "agent" "reviewer"
    ≡ ok (record inbox { updated_at = 7 })
unfolding ensure valid upsert upsert_found find is_entity is_ref refresh unless_empty entity_row
    default_description
ensure-get_by_entity_example =
    ensure-get_by_entity store 7 "x" "agent" "reviewer" "" "" (record inbox { updated_at = 7 }) refl

abbrev labelled : Store
labelled = record { channels = record inbox { name = "The reviewer" } ∷ []; bridges = [] }

ensure-unnamed_example :
    (d : Channel) × ((ensure labelled 7 "x" "agent" "reviewer" "" "").1 ≡ ok d)
    × (d.name ≡ "reviewer")
    × (d.id ≡ "a1")
unfolding valid find is_entity is_ref
ensure-unnamed_example =
    ensure-unnamed labelled 7 "x" "agent" "reviewer" "" (record inbox { name = "The reviewer" })
      refl (λ e. ==_no "agent" "custom" refl e) (λ e. ==_no "reviewer" "" refl e) refl

interleaved_bridges-cycle_example :
    IsAcyclic
      (after_check
        (after_check store 7 "p" "g1" "g2" (check_bridge store "g1" "g2" "")).0
        7
        "q"
        "g2"
        "g1"
        (check_bridge store "g2" "g1" "")).0.bridges
    → ⊥
unfolding check_bridge check_from get or_not_found find has_id check_to check_pair is_custom reaches
interleaved_bridges-cycle_example =
    interleaved_bridges-cycle store 7 "p" "q" "g1" "g2" "" "" "one → two" "two → one" refl refl refl
      refl (λ e. ==_no "p" "q" refl e)
