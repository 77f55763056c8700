-- ===== src/Queue.antt =====
-- services/hub/internal/eventqueue/store.go: the tables `events` and `agent_tasks`, and what each
-- SQL statement of the store does to them. A statement is one atomic step at a time `now`; rows
-- locked by another transaction (SKIP LOCKED) and connection errors are left out. Where ORDER BY
-- leaves a tie, the row that was inserted first is taken.
pub mod Rows
pub mod Invariant
pub mod Preserved
pub mod Calls
pub mod Claims
pub mod Deliveries
pub mod Arrivals
pub mod Counts
pub mod Signals
pub mod Redelivery
mod Tests
use ainsel.Prelude.{
  ℕ, suc, ◌+◌, Bool, true, false, ◌&&◌, List, [], ◌∷◌, ◌++◌, Option, none, some, String,
  if◌then◌else◌, ◌==◌, nat_eq, string_eq, ltb, leb, any, keep, take, map,
}
use ainsel.Prelude.Dict.{lookup, insert}
use ainsel.Prelude.Time.{Instant}
use Rows.{
  Status, pending, claimed, completed, failed, EventRow, TaskRow, NewTask, NewEvent, alter,
  count_rows, is_pending, is_claimed,
}

-- The database, the sequence behind `agent_tasks.id`, and what left the store: the agents that the
-- queue observer was called with and those that a `pg_notify` named, both newest first.
pub record Queue : Type 0 where
  pub events : List EventRow
  pub tasks : List TaskRow
  pub next_id : ℕ
  pub observed : List String
  pub notified : List String

-- The result of a statement: its value, or the refusal of a foreign key.
pub data Outcome : Type 0 where
  done : Outcome
  foreign_key : Outcome

-- `observe`: an empty name is dropped.
pub observe : Queue → String → Queue
observe q agent = if agent == "" then q else record q { observed = agent ∷ q.observed }

-- `max_attempts INT NOT NULL DEFAULT 10` of the table.
abbrev pub default_max_attempts : ℕ
default_max_attempts = 10

unfoldable pub has_event : String → List EventRow → Bool
has_event id events = any (λ (e : EventRow). e.id == id) events

pub insert_event : Queue → Instant → NewEvent → Queue
unfolding has_event
insert_event q now evt =
    if has_event evt.id q.events then q else record q { events = q.events ++ row ∷ [] }
  where
    row : EventRow
    row = record {
      id = evt.id;
      connector = evt.connector;
      channel_id = if evt.channel_id == "" then none else some evt.channel_id;
      headers = evt.headers;
      payload = evt.payload;
      raw = evt.raw;
      received_at = now;
      routed_at = none;
    }

is_unrouted : Option Instant → Bool
is_unrouted none = true
is_unrouted (some t) = false

-- `ORDER BY received_at ASC`
by_received : EventRow → List EventRow → List EventRow
by_received e [] = e ∷ []
by_received e (d ∷ ds) =
    if leb e.received_at d.received_at then e ∷ d ∷ ds else d ∷ by_received e ds

sort_received : List EventRow → List EventRow
unfolding by_received
sort_received [] = []
sort_received (e ∷ es) = by_received e (sort_received es)

pub fetch_unrouted : Queue → ℕ → List EventRow
unfolding is_unrouted sort_received
fetch_unrouted q limit =
    take limit (sort_received (keep (λ (e : EventRow). is_unrouted e.routed_at) q.events))

unfoldable pub mark_routed : Queue → Instant → String → Queue
mark_routed q now id = record q {
  events =
      map (λ (e : EventRow). if e.id == id then record e { routed_at = some now } else e) q.events;
}

pub same_delivery : NewTask → TaskRow → Bool
same_delivery task t = t.event_id == task.event_id && t.agent_name == task.agent_name

new_row : ℕ → Instant → NewTask → TaskRow
new_row id now task = record {
  id = id;
  event_id = task.event_id;
  agent_name = task.agent_name;
  trigger_name = task.trigger_name;
  invocation_id = task.invocation_id;
  headers = task.headers;
  payload = task.payload;
  status = pending;
  attempts = 0;
  max_attempts = default_max_attempts;
  retry_after = none;
  claimed_at = none;
  completed_at = none;
  error = "";
  created_at = now;
}

pub notify_agent : Queue → String → Queue
notify_agent q agent = record q { notified = agent ∷ q.notified }

-- The statement of `EnqueueTask`. The sequence moves on a conflict too.
pub store_task : Queue → Instant → NewTask → Queue
unfolding same_delivery new_row
store_task q now task =
    if any (same_delivery task) q.tasks
    then record q { next_id = suc q.next_id }
    else record q { tasks = q.tasks ++ new_row q.next_id now task ∷ []; next_id = suc q.next_id }

pub enqueue_task : Queue → Instant → NewTask → Queue × Outcome
unfolding store_task observe notify_agent has_event
enqueue_task q now task =
    if has_event task.event_id q.events
    then (notify_agent (observe (store_task q now task) task.agent_name) task.agent_name, done)
    else (record q { next_id = suc q.next_id }, foreign_key)

is_due : Option Instant → Instant → Bool
is_due none now = true
is_due (some t) now = leb t now

-- The WHERE clause of the subquery of `ClaimTask`.
pub is_ready : Instant → String → TaskRow → Bool
unfolding is_pending is_due
is_ready now agent t = t.agent_name == agent && is_pending t.status && is_due t.retry_after now

older : TaskRow → Option TaskRow → TaskRow
older t none = t
older t (some u) = if leb t.created_at u.created_at then t else u

-- `ORDER BY created_at ASC … LIMIT 1`
pub oldest_ready : Instant → String → List TaskRow → Option TaskRow
unfolding older is_ready
oldest_ready now agent [] = none
oldest_ready now agent (t ∷ ts) =
    let rest = oldest_ready now agent ts in
    if is_ready now agent t then some (older t rest) else rest

pub claim_row : Instant → TaskRow → TaskRow
claim_row now t = record t { status = claimed; claimed_at = some now; attempts = suc t.attempts }

with_id : ℕ → TaskRow → Bool
with_id id t = t.id == id

claim_found : Queue → Instant → String → Option TaskRow → Queue × Option TaskRow
unfolding claim_row with_id observe
claim_found q now agent none = (q, none)
claim_found q now agent (some t) = (
  observe (record q { tasks = alter (with_id t.id) (claim_row now) q.tasks }) agent,
  some (claim_row now t),
)

pub claim_task : Queue → Instant → String → Queue × Option TaskRow
unfolding claim_found
claim_task q now agent = claim_found q now agent (oldest_ready now agent q.tasks)

-- `RETURNING agent_name`, or the empty string where no row has the id.
pub agent_of : ℕ → List TaskRow → String
unfolding with_id
agent_of id [] = ""
agent_of id (t ∷ ts) = if with_id id t then t.agent_name else agent_of id ts

pub ack_row : Instant → TaskRow → TaskRow
ack_row now t = record t { status = completed; completed_at = some now }

pub ack_task : Queue → Instant → ℕ → Queue
unfolding ack_row with_id agent_of observe
ack_task q now id =
    observe (record q { tasks = alter (with_id id) (ack_row now) q.tasks }) (agent_of id q.tasks)

-- `CASE WHEN attempts >= max_attempts THEN 'failed' ELSE 'pending' END`
give_back : TaskRow → Status
give_back t = if leb t.max_attempts t.attempts then failed else pending

pub nak_row : Instant → ℕ → String → TaskRow → TaskRow
unfolding give_back
nak_row now delay message t = record t {
  status = give_back t;
  retry_after = some (now + delay);
  error = message;
}

pub nak_task : Queue → Instant → ℕ → ℕ → String → Queue
unfolding nak_row with_id agent_of observe
nak_task q now id delay message =
    let tasks = alter (with_id id) (nak_row now delay message) q.tasks in
    observe (record q { tasks = tasks }) (agent_of id tasks)

pub get_task : Queue → ℕ → String → Option TaskRow
unfolding with_id
get_task q id agent = find q.tasks
  where
    find : List TaskRow → Option TaskRow
    find [] = none
    find (t ∷ ts) = if with_id id t && t.agent_name == agent then some t else find ts

before : Option Instant → Instant → ℕ → Bool
before none now timeout = false
before (some t) now timeout = ltb (t + timeout) now

-- The WHERE clause of `ReapStaleClaims`.
pub is_stale : Instant → ℕ → TaskRow → Bool
unfolding is_claimed before
is_stale now timeout t = is_claimed t.status && before t.claimed_at now timeout

abbrev thirty_seconds : ℕ
thirty_seconds = 30000000000

reap_row : Instant → TaskRow → TaskRow
unfolding nak_row
reap_row now t = nak_row now thirty_seconds "claim timeout: agent did not ack/nak within deadline" t

-- The loop over the reaped rows: each agent is observed once.
pub observe_each : List (String × Bool) → List TaskRow → Queue → Queue
unfolding observe
observe_each seen [] q = q
observe_each seen (t ∷ ts) q = elim (lookup t.agent_name seen) [
  | none ↦ observe_each (insert t.agent_name true seen) ts (observe q t.agent_name)
  | some _ ↦ observe_each seen ts q
]

pub reap_stale_claims : Queue → Instant → ℕ → Queue × List TaskRow
unfolding is_stale reap_row observe_each
reap_stale_claims q now timeout =
    let reaped = map (reap_row now) (keep (is_stale now timeout) q.tasks) in
    (
      observe_each [] reaped
          (record q { tasks = alter (is_stale now timeout) (reap_row now) q.tasks }),
      reaped,
    )

pub record QueueDepth : Type 0 where
  pub pending : ℕ
  pub active : ℕ

pub queue_counts : Queue → String → QueueDepth
unfolding is_pending is_claimed
queue_counts q agent = record {
  pending = count_rows (λ (t : TaskRow). t.agent_name == agent && is_pending t.status) q.tasks;
  active = count_rows (λ (t : TaskRow). t.agent_name == agent && is_claimed t.status) q.tasks;
}
