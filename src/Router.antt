-- ===== src/Router.antt =====
-- services/hub/internal/router/router.go: how a stored event becomes tasks. The hub's broadcaster is
-- the list of the activity entries that it was given, newest first. The channel graph's transfer,
-- the codec of the headers and the random ids are parameters; a panic in `Match` is `none`.
pub mod Delivery
pub mod Handling
mod Tests
use mathlib.Core.Option
use ainsel.Prelude.{
  ℕ, Bool, true, false, ◌&&◌, List, [], ◌∷◌, ◌++◌, Option, none, some, String, if◌then◌else◌, ◌==◌,
  string_eq,
}
use ainsel.Prelude.Dict.{insert}
use ainsel.Prelude.Order.{SortSlice}
use ainsel.Prelude.Time.{Instant}
use ainsel.Trigger.Value.{Runtime}
use ainsel.Trigger.Index.{Event, MatchResult, Index, index_match, canonical_event_type}
use ainsel.Trigger.Dedup.{name_less, deduplicate_by_agent}
use ainsel.Queue.{Queue, Outcome, done, foreign_key, enqueue_task, mark_routed, fetch_unrouted}
use ainsel.Queue.Rows.{EventRow, NewTask}
use ainsel.Invocations.{Invocation, MemoryStore, record_invocation, complete, status_failure}

abbrev pub Headers : Type 0
Headers = List (String × String)

-- `types.MatchResult`, as an activity entry shows it.
pub record EntryMatch : Type 0 where
  pub trigger : String
  pub agent : String

pub record Activity : Type 0 where
  pub connector : String
  pub status : String
  pub matches : List EntryMatch
  pub payload : String

pub record Hub : Type 0 where
  pub queue : Queue
  pub invocations : Option MemoryStore
  pub activity : List Activity

-- A transfer's result, and whether it carries an error.
pub record TransferResult : Type 0 where
  pub agent_name : String
  pub bridge_id : String
  pub bridge_name : String
  pub invocation_id : String
  pub failed : Bool

-- What `Apply` is given besides the event: its headers and the agents that received it. It may
-- change the hub; `none` is its error.
abbrev pub Transferer : Type 0
Transferer = Hub → EventRow → Headers → List String → Hub × Option (List TransferResult)

pub record Router : Type 0 where
  pub go : Runtime
  pub sort : SortSlice name_less
  pub index : Index
  pub transfers : Option Transferer
  pub decode_headers : String → Headers
  pub encode_headers : Headers → String
  pub new_id : String → String
  pub failure_text : String

abbrev header_trigger_name : String
header_trigger_name = "X-Trigger-Name"

abbrev header_invocation_id : String
header_invocation_id = "X-Invocation-ID"

-- The invocation that is recorded before the task is enqueued.
unfoldable pub new_invocation : EventRow → MatchResult → Invocation
new_invocation evt m = record {
  id = "";
  agent_name = m.agent_ref;
  trigger_name = m.trigger_name;
  event_id = evt.id;
  connector = evt.connector;
  start_time = 0;
  end_time = none;
  duration_ms = none;
  status = "";
  error = "";
}

-- The store after `Record`, and the new id; without a store the id is empty.
unfoldable pub start_invocation :
    Option MemoryStore → String → Instant → Invocation → Option MemoryStore × String
start_invocation none generated now inv = (none, "")
start_invocation (some s) generated now inv =
    let r = record_invocation s generated now inv in (some r.0, r.1.id)

unfoldable pub fail_invocation : Option MemoryStore → Instant → String → String → Option MemoryStore
fail_invocation none now id message = none
fail_invocation (some s) now id message =
    if id == "" then some s else some (complete s now id status_failure message 0).0

unfoldable pub unless_blank : String → String → Headers → Headers
unless_blank key value headers = if value == "" then headers else insert key value headers

unfoldable pub task_headers : Headers → MatchResult → String → Headers
task_headers headers m inv_id = unless_blank header_invocation_id inv_id (
    insert header_trigger_name m.trigger_name
      (unless_blank "type" (canonical_event_type headers) headers))

unfoldable pub task_of : Router → EventRow → Headers → MatchResult → String → NewTask
task_of r evt headers m inv_id = record {
  event_id = evt.id;
  agent_name = m.agent_ref;
  trigger_name = m.trigger_name;
  invocation_id = inv_id;
  headers = r.encode_headers (task_headers headers m inv_id);
  payload = evt.payload;
}

-- What the loop of `routeViaTriggers` has gathered.
pub record Routed : Type 0 where
  pub hub : Hub
  pub matches : List EntryMatch
  pub delivered : List String
  pub all_enqueued : Bool

unfoldable pub after_enqueue :
    Router → Instant → Routed → MatchResult → Option MemoryStore × String → Queue × Outcome → Routed
after_enqueue r now so_far m (store, inv_id) (queue, done) = record {
  hub = record so_far.hub { queue = queue; invocations = store };
  matches = so_far.matches ++ record { trigger = m.trigger_name; agent = m.agent_ref } ∷ [];
  delivered = so_far.delivered ++ m.agent_ref ∷ [];
  all_enqueued = so_far.all_enqueued;
}
after_enqueue r now so_far m (store, inv_id) (queue, foreign_key) = record {
  hub = record so_far.hub {
    queue = queue;
    invocations = fail_invocation store now inv_id r.failure_text;
  };
  matches = so_far.matches ++ record { trigger = m.trigger_name; agent = m.agent_ref } ∷ [];
  delivered = so_far.delivered;
  all_enqueued = false;
}

-- The body of the loop.
unfoldable pub route_match : Router → Instant → EventRow → Headers → Routed → MatchResult → Routed
route_match r now evt headers so_far m =
    let started =
      start_invocation so_far.hub.invocations (r.new_id m.agent_ref) now (new_invocation evt m) in
    after_enqueue r now so_far m started
      (enqueue_task so_far.hub.queue now (task_of r evt headers m started.1))

unfoldable pub route_each :
    Router → Instant → EventRow → Headers → List MatchResult → Routed → Routed
route_each r now evt headers [] so_far = so_far
route_each r now evt headers (m ∷ ms) so_far =
    route_each r now evt headers ms (route_match r now evt headers so_far m)

unfoldable pub route_via_triggers :
    Router → Instant → EventRow → Headers → List MatchResult → Hub → Routed
route_via_triggers r now evt headers matches hub =
    route_each r now evt headers matches
      (record { hub = hub; matches = []; delivered = []; all_enqueued = true })

unfoldable pub transferred : List TransferResult → List EntryMatch
transferred [] = []
transferred (t ∷ ts) =
    if t.failed
    then transferred ts
    else record { trigger = t.bridge_name; agent = t.agent_name } ∷ transferred ts

unfoldable pub after_transfer : Hub × Option (List TransferResult) → Hub × (List EntryMatch × Bool)
after_transfer (hub, none) = (hub, ([], false))
after_transfer (hub, some results) = (hub, (transferred results, true))

-- `evt.ChannelID == ""` for an event without a channel
unfoldable pub has_channel : Option String → Bool
has_channel none = false
has_channel (some c) = if c == "" then false else true

unfoldable pub route_via_bridges :
    Option Transferer → EventRow → Headers → List String → Hub → Hub × (List EntryMatch × Bool)
route_via_bridges none evt headers delivered hub = (hub, ([], true))
route_via_bridges (some apply) evt headers delivered hub =
    let moved = after_transfer (apply hub evt headers delivered) in
    if has_channel evt.channel_id then moved else (hub, ([], true))

unfoldable pub entry_status : List EntryMatch → Bool → String
entry_status [] ok = "unmatched"
entry_status (m ∷ ms) ok = if ok then "matched" else "error"

-- The activity entry and `MarkRouted`, which end the handling on either branch.
unfoldable pub conclude : Instant → EventRow → Hub → List EntryMatch → Bool → Hub
conclude now evt hub matches ok = record hub {
  queue = mark_routed hub.queue now evt.id;
  activity =
      record {
        connector = evt.connector;
        status = entry_status matches ok;
        matches = matches;
        payload = evt.payload;
      }
      ∷ hub.activity;
}

unfoldable pub shared_event : Router → Instant → EventRow → Event
shared_event r now evt = record {
  id = evt.id;
  version = "1";
  connector = evt.connector;
  timestamp = now;
  headers = r.decode_headers evt.headers;
  payload = evt.payload;
  raw = evt.raw;
}

unfoldable pub handle_matches : Router → Instant → EventRow → Hub → List MatchResult → Hub
handle_matches r now evt hub results =
    let headers = r.decode_headers evt.headers in
    let by_triggers =
      route_via_triggers r now evt headers (deduplicate_by_agent r.sort results) hub in
    let by_bridges =
      route_via_bridges r.transfers evt headers by_triggers.delivered by_triggers.hub in
    conclude now evt by_bridges.0 (by_triggers.matches ++ by_bridges.1.0)
      (by_triggers.all_enqueued && by_bridges.1.1)

unfoldable pub handle_event : Router → Instant → EventRow → Hub → Option Hub
handle_event r now evt hub =
    Option.map (handle_matches r now evt hub) (index_match r.go r.index (shared_event r now evt))

-- `poll`: ten events at most; a panic ends it.
unfoldable pub handle_each : Router → Instant → List EventRow → Hub → Option Hub
handle_each r now [] hub = some hub
handle_each r now (e ∷ es) hub = elim (handle_event r now e hub) [
  | none ↦ none
  | some next ↦ handle_each r now es next
]

unfoldable pub poll : Router → Instant → Hub → Option Hub
poll r now hub = handle_each r now (fetch_unrouted hub.queue 10) hub
