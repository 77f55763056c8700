-- ===== src/Channels/Transfer.antt =====
-- services/hub/internal/channels/transfer.go: `Apply` carries one event over the bridges into the
-- inboxes that they reach. The random ids, the codec of the headers and the text of an error are
-- parameters; the tables of the channels are those at the time of the call.
pub mod Keeps
pub mod Wakes
mod Tests
use ainsel.Prelude.{
  Bool, true, false, List, [], ◌∷◌, ◌++◌, Option, none, some, String, if◌then◌else◌, ◌==◌,
  string_eq,
}
use ainsel.Prelude.Dict.{insert}
use ainsel.Prelude.Time.{Instant}
use ainsel.Trigger.Index.{canonical_event_type}
use ainsel.Queue.{Queue, Outcome, done, foreign_key, enqueue_task}
use ainsel.Queue.Rows.{EventRow, NewTask}
use ainsel.Invocations.{Invocation, MemoryStore}
use ainsel.Router.{
  Hub, Headers, TransferResult, Transferer, start_invocation, fail_invocation, unless_blank,
}
use ainsel.Channels.Rows.{Delivery}
use ainsel.Channels.{Store}
use ainsel.Channels.Walk.{Collation, deliveries}

abbrev header_trigger_name : String
header_trigger_name = "X-Trigger-Name"

abbrev header_invocation_id : String
header_invocation_id = "X-Invocation-ID"

abbrev header_channel_bridge : String
header_channel_bridge = "X-Channel-Bridge"

abbrev header_channel_id : String
header_channel_id = "X-Channel-ID"

abbrev header_origin_channel : String
header_origin_channel = "X-Channel-Origin"

pub record Transfer : Type 0 where
  pub db : Collation
  pub store : Store
  pub encode_headers : Headers → String
  pub new_id : String → String
  pub failure_text : String

-- `evt.ChannelID`, where NULL is the empty string.
unfoldable pub or_blank : Option String → String
or_blank none = ""
or_blank (some c) = c

unfoldable pub birth_channel : EventRow → String
birth_channel evt = or_blank evt.channel_id

unfoldable pub transfer_headers : Headers → String → Delivery → String → Headers
transfer_headers headers birth d inv_id = unless_blank header_invocation_id inv_id (
    insert header_channel_bridge d.bridge_id (
      insert header_origin_channel birth (
        insert header_channel_id d.agent_channel (
          insert header_trigger_name d.bridge_name
            (unless_blank "type" (canonical_event_type headers) headers)))))

unfoldable pub transfer_invocation : EventRow → Delivery → Invocation
transfer_invocation evt d = record {
  id = "";
  agent_name = d.agent_name;
  trigger_name = d.bridge_name;
  event_id = evt.id;
  connector = evt.connector;
  start_time = 0;
  end_time = none;
  duration_ms = none;
  status = "";
  error = "";
}

unfoldable pub transfer_task : Transfer → EventRow → Headers → Delivery → String → NewTask
transfer_task t evt headers d inv_id = record {
  event_id = evt.id;
  agent_name = d.agent_name;
  trigger_name = d.bridge_name;
  invocation_id = inv_id;
  headers = t.encode_headers (transfer_headers headers (birth_channel evt) d inv_id);
  payload = evt.payload;
}

unfoldable pub after_transferred :
    Transfer
    → Instant
    → Hub
    → Delivery
    → Option MemoryStore × String
    → Queue × Outcome
    → Hub × TransferResult
after_transferred t now hub d (store, inv_id) (queue, done) = (
  record hub { queue = queue; invocations = store },
  record {
    agent_name = d.agent_name;
    bridge_id = d.bridge_id;
    bridge_name = d.bridge_name;
    invocation_id = inv_id;
    failed = false;
  },
)
after_transferred t now hub d (store, inv_id) (queue, foreign_key) = (
  record hub { queue = queue; invocations = fail_invocation store now inv_id t.failure_text },
  record {
    agent_name = d.agent_name;
    bridge_id = d.bridge_id;
    bridge_name = d.bridge_name;
    invocation_id = inv_id;
    failed = true;
  },
)

-- The body of the loop of `Apply`.
unfoldable pub transfer_one :
    Transfer → Instant → EventRow → Headers → Hub → Delivery → Hub × TransferResult
transfer_one t now evt headers hub d =
    let started =
      start_invocation hub.invocations (t.new_id d.agent_name) now (transfer_invocation evt d) in
    after_transferred t now hub d started
      (enqueue_task hub.queue now (transfer_task t evt headers d started.1))

unfoldable pub transfer_each :
    Transfer → Instant → EventRow → Headers → List Delivery → Hub → Hub × List TransferResult
transfer_each t now evt headers [] hub = (hub, [])
transfer_each t now evt headers (d ∷ ds) hub =
    let one = transfer_one t now evt headers hub d in
    let rest = transfer_each t now evt headers ds one.0 in (rest.0, one.1 ∷ rest.1)

unfoldable pub apply_each :
    Transfer → Instant → EventRow → Headers → List String → Hub → Hub × List TransferResult
apply_each t now evt headers delivered hub =
    transfer_each t now evt headers (deliveries t.db t.store (birth_channel evt) delivered) hub

-- `Apply`, as the router calls it. The headers of a task are texts, which always marshal.
unfoldable pub apply : Transfer → Instant → Transferer
apply t now hub evt headers delivered =
    if birth_channel evt == ""
    then (hub, some [])
    else (let moved = apply_each t now evt headers delivered hub in (moved.0, some moved.1))
