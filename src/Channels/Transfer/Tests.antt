-- ===== src/Channels/Transfer/Tests.antt =====
-- An event of a connector without triggers, and an inbox two bridges away.
use ainsel.Prelude.{◌≡◌, refl, true, false, [], ◌∷◌, none, some, inl, inr, arith}
use ainsel.Prelude.Order.Insertion.{sorter}
use ainsel.Trigger.Index.{MatchResult, build_filter_payload, index_match}
use ainsel.Trigger.Text.Laws.{str_ltb_asym, str_ltb_steps}
use ainsel.Trigger.Value.{object, end}
use ainsel.Trigger.Dedup.{name_less}
use ainsel.Queue.{has_event}
use ainsel.Queue.Rows.{EventRow}
use ainsel.Queue.Deliveries.{IsDelivered}
use ainsel.Router.{Router, Hub, handle_event, shared_event}
use ainsel.Channels.Rows.{Delivery, ref_of}
use ainsel.Channels.Tests.{db, inbox, into_group, into_inbox, store, store-IsSound, ==_no}
use ainsel.Channels.Walk.Depth.{LeadsIn}
use ainsel.Channels.Transfer.{Transfer, or_blank, birth_channel, apply}
use ainsel.Channels.Transfer.Wakes.{IsInReach, handle_event-reaches}

name_asym : (a b : MatchResult) → name_less a b ≡ true → name_less b a ≡ false
unfolding name_less
name_asym a b h = str_ltb_asym a.trigger_name b.trigger_name h

name_steps :
    (a b c : MatchResult) → name_less b a ≡ false → name_less c b ≡ false → name_less c a ≡ false
unfolding name_less
name_steps a b c h k = str_ltb_steps a.trigger_name b.trigger_name c.trigger_name h k

abbrev transfer : Transfer
transfer = record {
  db = db;
  store = store;
  encode_headers = λ h. "{}";
  new_id = λ a. "inv-2";
  failure_text = "bridge transfer failed";
}

abbrev router : Router
router = record {
  go = record {
    format_float = λ n. "1";
    format_value = λ v. "map[]";
    regex_match = λ p s. some false;
    parse_json = λ s. some (object end);
  };
  sort = sorter name_less name_asym name_steps;
  index = [];
  transfers = some (apply transfer 20);
  decode_headers = λ s. ("type", s) ∷ [];
  encode_headers = λ h. "{}";
  new_id = λ a. "inv-1";
  failure_text = "enqueue task failed";
}

abbrev push : EventRow
push = record {
  id = "evt";
  connector = "forge";
  channel_id = some "c1";
  headers = "push";
  payload = "{}";
  raw = "";
  received_at = 10;
  routed_at = none;
}

abbrev hub : Hub
hub = record {
  queue = record { events = push ∷ []; tasks = []; next_id = 1; observed = []; notified = [] };
  invocations = none;
  activity = [];
}

inbox-IsInReach : IsInReach transfer "c1" inbox
unfolding ref_of
inbox-IsInReach = record {
  stored = inr (inl refl);
  kind = refl;
  named = λ e. ==_no "reviewer" "" refl e;
  other = λ e. ==_no "a1" "c1" refl e;
  bridges = 2;
  bounded = omega arith;
  leads =
      LeadsIn.step (LeadsIn.step LeadsIn.here (into_group, inl refl, refl, refl))
        (into_inbox, inr (inl refl), refl, refl);
}

handle_event-reaches_example :
    (after : Hub) × (handle_event router 20 push hub ≡ some after)
    × IsDelivered after.queue "evt" "reviewer"
unfolding has_event index_match shared_event build_filter_payload birth_channel or_blank ref_of
handle_event-reaches_example =
    handle_event-reaches router transfer 20 push hub inbox {results = []} refl store-IsSound
      (λ e. ==_no "c1" "" refl e) inbox-IsInReach refl refl

abbrev delivery : Delivery
delivery = record {
  agent_channel = "a1";
  agent_name = "reviewer";
  bridge_id = "b2";
  bridge_name = "one → reviewer";
}
