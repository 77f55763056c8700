-- ===== src/Router/Tests.antt =====
-- The router on one event, two triggers and one agent.
use ainsel.Trigger.Index.{build_filter_payload, Trigger, MatchResult, index_match}
use ainsel.Prelude.{◌≡◌, refl, true, false, List, [], ◌∷◌, none, some, String, Has}
use ainsel.Prelude.Order.Insertion.{sorter}
use ainsel.Trigger.Text.Laws.{str_ltb_asym, str_ltb_steps}
use ainsel.Trigger.Value.{object, end}
use ainsel.Trigger.Dedup.{name_less}
use ainsel.Queue.{has_event}
use ainsel.Queue.Rows.{EventRow}
use ainsel.Queue.Deliveries.{IsDelivered}
use ainsel.Router.{Router, Hub, handle_event, shared_event}
use ainsel.Router.Handling.{KeepsTasks, IsRouted, handle_event-delivers}

name_asym : (a b : MatchResult) → name_less a b ≡ true → name_less b a ≡ false
unfolding name_less
name_asym a b h = str_ltb_asym a.trigger_name b.trigger_name h

name_steps :
    (a b c : MatchResult) → name_less b a ≡ false → name_less c b ≡ false → name_less c a ≡ false
unfolding name_less
name_steps a b c h k = str_ltb_steps a.trigger_name b.trigger_name c.trigger_name h k

abbrev trigger : String → Trigger
trigger id = record {
  id = id;
  display_name = id;
  agent_ref = "reviewer";
  connector_ref = "forge";
  filters = [];
  agent_valid = true;
  connector_valid = true;
  created_at = 1;
  updated_at = 1;
}

abbrev router : Router
router = record {
  go = record {
    format_float = λ n. "1";
    format_value = λ v. "map[]";
    regex_match = λ p s. some false;
    parse_json = λ s. some (object end);
  };
  sort = sorter name_less name_asym name_steps;
  index = ("b", trigger "b") ∷ ("a", trigger "a") ∷ [];
  transfers = none;
  decode_headers = λ s. ("type", s) ∷ [];
  encode_headers = λ h. "{}";
  new_id = λ a. "inv-1";
  failure_text = "enqueue task failed";
}

abbrev push : EventRow
push = record {
  id = "evt";
  connector = "forge";
  channel_id = none;
  headers = "push";
  payload = "{}";
  raw = "";
  received_at = 10;
  routed_at = none;
}

abbrev hub : Hub
hub = record {
  queue = record { events = push ∷ []; tasks = []; next_id = 1; observed = []; notified = [] };
  invocations = none;
  activity = [];
}

abbrev both : List MatchResult
both =
    record { trigger_name = "b"; agent_ref = "reviewer" }
    ∷ record { trigger_name = "a"; agent_ref = "reviewer" }
    ∷ []

handle_event-delivers_example :
    (after : Hub) × (handle_event router 20 push hub ≡ some after)
    × ((m : MatchResult) → Has m both → IsDelivered after.queue "evt" m.agent_ref)
    × IsRouted after.queue 20 "evt"
unfolding has_event KeepsTasks index_match shared_event build_filter_payload
handle_event-delivers_example =
    handle_event-delivers router 20 push hub {results = both} refl tt refl
