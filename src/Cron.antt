-- ===== src/Cron.antt =====
-- services/hub/internal/cron/emitter.go: prompts that are fired on a schedule. Parsing a schedule and
-- its next run after a time (shared/api/cron), the inbox resolver, the transfer, the codecs, the
-- random ids and the text of an error are parameters; the ticker's times are arguments.
pub mod Publishing
pub mod Firing
pub mod Carried
pub mod Schedule
mod Tests
use ainsel.Prelude.{
  ℕ, Bool, true, false, not, ◌&&◌, ◌||◌, List, [], ◌∷◌, Option, none, some, String, if◌then◌else◌,
  ◌==◌, string_eq, leb, map, keep,
}
use ainsel.Prelude.Dict.{lookup, insert, delete}
use ainsel.Prelude.Time.{Instant, is_zero_time}
use ainsel.Queue.{Queue, Outcome, done, foreign_key, insert_event, mark_routed, enqueue_task}
use ainsel.Queue.Rows.{EventRow, NewEvent, NewTask}
use ainsel.Invocations.{Invocation, MemoryStore}
use ainsel.Router.{Hub, Headers, Transferer, start_invocation, fail_invocation, unless_blank}

abbrev pub connector_name : String
connector_name = "cron"

abbrev header_trigger_name : String
header_trigger_name = "X-Trigger-Name"

abbrev header_invocation_id : String
header_invocation_id = "X-Invocation-ID"

-- The cron triggers of services/hub/internal/triggers/types.go, as far as the emitter reads them.
pub record CronTrigger : Type 0 where
  pub id : String
  pub agent_ref : String
  pub prompt : String
  pub schedule : String
  pub enabled : Bool

module _ (Schedule : Type 0) where
  pub record Entry : Type 0 where
    pub id : String
    pub agent_ref : String
    pub prompt : String
    pub schedule : Schedule
    pub enabled : Bool
    pub last_fired : Instant
    pub next_run : Instant

  -- The schedules, and what the emitter is wired with; the random ids of a run, by the trigger and
  -- the time of the tick; and which statement of a run the database refuses, by the run's event: the
  -- insertion of the event (as for a channel that is gone), its stamp, the insertion of the task, and
  -- the notification of the agent, which comes after the task is stored.
  pub record Wiring : Type 0 where
    pub parse : String → Option Schedule
    pub next : Schedule → Instant → Instant
    pub inbox_of : Option (String → Option String)
    pub transfer : Option Transferer
    pub encode_data : String → String → String
    pub encode_headers : Headers → String
    pub new_event_id : String → Instant → String
    pub new_id : String → Instant → String
    pub insert_fails : NewEvent → Bool
    pub mark_fails : String → Bool
    pub enqueue_fails : NewTask → Bool
    pub notify_fails : String → String → Bool
    pub failure_text : String

  unfoldable pub entry_of : CronTrigger → Schedule → Instant → Instant → Entry
  entry_of ct schedule last_fired next_run = record {
    id = ct.id;
    agent_ref = ct.agent_ref;
    prompt = ct.prompt;
    schedule = schedule;
    enabled = ct.enabled;
    last_fired = last_fired;
    next_run = next_run;
  }

  -- A known trigger keeps the time at which it fired last; a new one starts at the present.
  unfoldable pub last_of : Option Entry → Instant → Instant
  last_of none now = now
  last_of (some prev) now = prev.last_fired

  unfoldable pub upsert_parsed :
      Wiring
      → Instant
      → CronTrigger
      → Option Schedule
      → List (String × Entry)
      → List (String × Entry)
  upsert_parsed w now ct none entries = delete ct.id entries
  upsert_parsed w now ct (some schedule) entries =
      let last_fired = last_of (lookup ct.id entries) now in
      insert ct.id (entry_of ct schedule last_fired (w.next schedule last_fired)) entries

  -- `Upsert` of a trigger that is not nil.
  unfoldable pub upsert_trigger :
      Wiring → Instant → CronTrigger → List (String × Entry) → List (String × Entry)
  upsert_trigger w now ct entries = upsert_parsed w now ct (w.parse ct.schedule) entries

  unfoldable pub is_due_entry : Wiring → Instant → Entry → Bool
  is_due_entry w now en =
      let next = w.next en.schedule en.last_fired in
      en.enabled && not (is_zero_time next) && leb next now

  unfoldable pub cron_row : Wiring → Instant → String → Entry → Option String → EventRow
  cron_row w now event_id en birth = record {
    id = event_id;
    connector = connector_name;
    channel_id = birth;
    headers = w.encode_headers (("type", connector_name) ∷ []);
    payload = w.encode_data en.id en.prompt;
    raw = w.encode_data en.id en.prompt;
    received_at = now;
    routed_at = some now;
  }

  unfoldable pub resolve_inbox : Option (String → Option String) → String → String
  resolve_inbox none agent = ""
  resolve_inbox (some resolve) agent = elim (resolve agent) [ none ↦ "" | some id ↦ id ]

  unfoldable pub cron_event : Wiring → String → Entry → String → NewEvent
  cron_event w event_id en birth = record {
    id = event_id;
    connector = connector_name;
    channel_id = birth;
    headers = w.encode_headers (("type", connector_name) ∷ []);
    payload = w.encode_data en.id en.prompt;
    raw = w.encode_data en.id en.prompt;
  }

  unfoldable pub cron_task : Wiring → String → Entry → String → NewTask
  cron_task w event_id en inv_id = record {
    event_id = event_id;
    agent_name = en.agent_ref;
    trigger_name = en.id;
    invocation_id = inv_id;
    headers = w.encode_headers (
        unless_blank header_invocation_id inv_id
          (insert header_trigger_name en.id (("type", connector_name) ∷ [])));
    payload = w.encode_data en.id en.prompt;
  }

  -- Its error is only logged.
  unfoldable pub transfer_from_inbox : Option Transferer → EventRow → String → String → Hub → Hub
  transfer_from_inbox none row birth agent hub = hub
  transfer_from_inbox (some apply) row birth agent hub =
      let moved = (apply hub row (("type", connector_name) ∷ []) (agent ∷ [])).0 in
      if birth == "" then hub else moved

  -- `if err != nil { return err }`
  unfoldable pub stop_if : Bool → Hub → Hub × Bool → Hub × Bool
  stop_if true hub rest = (hub, false)
  stop_if false hub rest = rest

  unfoldable pub after_enqueued :
      Wiring → Hub → EventRow → String → String → Queue × Outcome → Hub × Bool
  after_enqueued w hub row birth agent (queue, done) =
      stop_if (w.notify_fails row.id agent) (record hub { queue = queue })
        (transfer_from_inbox w.transfer row birth agent (record hub { queue = queue }), true)
  after_enqueued w hub row birth agent (queue, foreign_key) = (record hub { queue = queue }, false)

  -- `publish`, and whether it returned no error.
  unfoldable pub publish : Wiring → Instant → Hub → String → Entry → String → Hub × Bool
  publish w now hub event_id en inv_id =
      let birth = resolve_inbox w.inbox_of en.agent_ref in
      let event = cron_event w event_id en birth in
      let task = cron_task w event_id en inv_id in
      let stored = insert_event hub.queue now event in
      let marked = mark_routed stored now event_id in
      stop_if (w.insert_fails event) hub (
        stop_if (w.mark_fails event_id) (record hub { queue = stored })
          (stop_if (w.enqueue_fails task) (record hub { queue = marked })
            (after_enqueued w hub (cron_row w now event_id en (some birth)) birth en.agent_ref
              (enqueue_task marked now task))))

  -- The emitter's entries and the hub it works on.
  pub record Emitter : Type 0 where
    pub entries : List (String × Entry)
    pub hub : Hub

  unfoldable pub advance_found :
      Wiring → String → Instant → Option Entry → List (String × Entry) → List (String × Entry)
  advance_found w id fire_time none entries = entries
  advance_found w id fire_time (some cur) entries =
      insert id (record cur { last_fired = fire_time; next_run = w.next cur.schedule fire_time })
        entries

  -- The entry that is stored by now gets the new times; it may have been replaced or deleted.
  unfoldable pub advance : Wiring → String → Instant → List (String × Entry) → List (String × Entry)
  advance w id fire_time entries = advance_found w id fire_time (lookup id entries) entries

  unfoldable pub cron_invocation : String → Entry → Invocation
  cron_invocation event_id en = record {
    id = "";
    agent_name = en.agent_ref;
    trigger_name = en.id;
    event_id = event_id;
    connector = connector_name;
    start_time = 0;
    end_time = none;
    duration_ms = none;
    status = "";
    error = "";
  }

  unfoldable pub after_publish :
      Wiring → Instant → List (String × Entry) → String → Instant → String → Hub × Bool → Emitter
  after_publish w now entries id fire_time inv_id (hub, true) = record {
    entries = advance w id fire_time entries;
    hub = hub;
  }
  after_publish w now entries id fire_time inv_id (hub, false) = record {
    entries = entries;
    hub = record hub { invocations = fail_invocation hub.invocations now inv_id w.failure_text };
  }

  unfoldable pub fire_at : Wiring → Instant → Entry → Instant → Emitter → Emitter
  fire_at w now en fire_time e =
      let event_id = w.new_event_id en.id now in
      let started =
        start_invocation e.hub.invocations (w.new_id en.id now) now (cron_invocation event_id en) in
      after_publish w now e.entries en.id fire_time started.1
        (publish w now (record e.hub { invocations = started.0 }) event_id en started.1)

  unfoldable pub fire_entry : Wiring → Instant → Entry → Emitter → Emitter
  fire_entry w now en e =
      let fire_time = w.next en.schedule en.last_fired in
      if is_zero_time fire_time then e else fire_at w now en fire_time e

  unfoldable pub fire_each : Wiring → Instant → List Entry → Emitter → Emitter
  fire_each w now [] e = e
  fire_each w now (en ∷ ens) e = fire_each w now ens (fire_entry w now en e)

  -- `tick`: the due entries, then each of them fired, in any order.
  unfoldable pub tick : Wiring → Instant → Emitter → Emitter
  tick w now e =
      fire_each w now (keep (is_due_entry w now) (map (λ (p : String × Entry). p.1) e.entries)) e
