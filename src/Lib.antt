-- ===== src/Lib.antt =====
-- A verification library for ainsel, a hub that routes events to AI agents on Kubernetes.
--
-- The parts and how they interact. A connector's event is stored
-- (services/hub/internal/eventqueue). The router (services/hub/internal/router) matches it against
-- the triggers (services/hub/internal/trigger, with the filter language of shared/api/filter.go),
-- keeps one match for each agent, and enqueues a task per agent; then it carries the event over
-- the bridges of the channel graph (services/hub/internal/channels) into further inboxes.
-- Scheduled prompts (services/hub/internal/cron) are stored, enqueued and carried over the bridges
-- in the same way. An agent's pod claims a task, and acknowledges it or gives it back; claims that
-- are not answered are reaped. Each change of the queue is observed by the publisher
-- (services/hub/internal/queuesignal), which writes the counts onto the Agent's status; from them
-- the operator (operators/agent/internal/controller/scaling.go) decides how many pods the agent
-- gets. The hub's API guards its resources with services/hub/internal/authz, lists the invocations
-- of services/hub/internal/invocations, and pages its lists with
-- services/hub/internal/api/pagination.go.
--
-- The files and the code.
--   Prelude: the library names that are shared, Go's int32 and int64 arithmetic (Int), time.Time and
--     time.Duration (Time), maps as association lists (Dict), and sort.Slice as a parameter (Order;
--     Order/Insertion is one sort that meets it).
--   Queue: eventqueue/store.go. A Queue is the two tables, the sequence behind the task ids, and the
--     calls that left the store. insert_event, fetch_unrouted, mark_routed, enqueue_task, claim_task,
--     ack_task, nak_task, get_task, reap_stale_claims and queue_counts are the methods of those names.
--     Rows has the columns, Invariant what a sound queue is, Preserved and Calls that every call keeps
--     it, Counts and Signals the reports to the observer, Deliveries and Arrivals the rows stored.
--   Trigger: Filter is shared/api/filter.go; Index and Dedup are trigger/index.go (index_match is
--     Match, build_filter_payload is buildFilterPayload, deduplicate_by_agent is DeduplicateByAgent);
--     Text and Value are Go's strings and the decoded JSON that they work on.
--   Router: router/router.go. handle_event, route_via_triggers, route_via_bridges and poll are
--     handleEvent, routeViaTriggers, routeViaBridges and poll; the channel transfer is a parameter,
--     which Channels/Transfer fills.
--   Channels: channels/store.go, types.go, service.go, transfer.go and reconcile.go. A Store is
--     the two tables; ensure, create, get, get_by_entity, update, delete, mark_orphans and, in
--     Bridges, create_bridge, get_bridge and delete_bridge are the methods of those names. Recursion
--     is WITH RECURSIVE; Graph has the query of Reaches, Walk those of Walk and Deliveries; Invariant
--     and Calls are about every sequence of calls, Bridging about CreateBridge (Race: two calls at
--     once), Provisioning about Ensure; Transfer is Apply, Wakes the router together with it;
--     Reconcile is reconcile.go, and Views the edges and changes of service.go.
--   Cron: cron/emitter.go. upsert_trigger, tick, fire_entry and publish are Upsert, tick, fireEntry
--     and publish; the schedules are a parameter, and so is which statement of a run the database
--     refuses. Schedule is Next of shared/api/cron/schedule.go, with what it calls of package time as
--     a parameter; its loop over days has as fuel the nanoseconds up to its limit of five years.
--   Publisher: queuesignal.go. mark_all, publish_round and publish_one are markAll, publishRound and
--     publishOne; Report has the signal, its patch and QueueScaledAgents.
--   Scaling: scaling.go. resolve_replicas is resolveReplicas; by_signal has its steps 3 to 6.
--   Access: authz. Roles, Cache (UserRoles as its two steps on the cache) and the checks.
--   Invocations: the MemoryStore of invocations/store.go.
--   Paging: pagination.go.
--   The modules called Tests run the definitions and apply each result to a concrete case.
--
-- Choices. Definitions are by structural recursion. The recursive queries have a number of rounds:
-- one more than there are bridges for Reaches, whose paths enter no channel twice, and nine for
-- Walk, which stops at depth eight; no path goes on for more rounds than that. Counts on a status
-- are signed integers, and int32 and int64 sums wrap where the code's do. An SQL statement is one
-- step at a given time. The order in which Go's map of triggers is visited, the ties of sort.Slice,
-- the clock, random ids, the Kubernetes client, JSON parsing, number formatting and regular expressions
-- are parameters; an event's headers and the publisher's maps are visited in one order.
--
-- Not modelled: log lines, metrics, mutexes (each locked section is one step), errors of the database
-- but for the constraints that a call answers for and for the runs of Cron (so that the queries and
-- insertions of the router and of the transfer succeed, and insert_event takes its channel as
-- stored), WaitForTask, the parsing of a cron expression, and the reporting queries of the
-- store with the counts and timelines of the channels that read them, the HTTP handlers, the
-- Kubernetes reconcilers but for the replica decision, and the user interface.
pub mod Access
pub mod Channels
pub mod Cron
pub mod Invocations
pub mod Paging
pub mod Prelude
pub mod Publisher
pub mod Queue
pub mod Router
pub mod Scaling
pub mod Trigger
