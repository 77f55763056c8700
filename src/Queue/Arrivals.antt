-- ===== src/Queue/Arrivals.antt =====
-- The rows that `InsertEvent`, `MarkRouted` and `EnqueueTask` of
-- services/hub/internal/eventqueue/store.go leave for an event that is new.
use ainsel.Prelude.{
  ◌≡◌, refl, inl, inr, true, false, String, [], ◌∷◌, ◌++◌, none, some, String, if◌then◌else◌, ◌==◌,
  string_eq, any, Has, Has-map, Any-append_left, Any-append_right, Bool-cases, ==_refl,
}
use ainsel.Prelude.Time.{Instant}
use ainsel.Queue.{
  Queue, done, has_event, same_delivery, new_row, notify_agent, store_task, insert_event,
  mark_routed, enqueue_task,
}
use ainsel.Queue.Rows.{EventRow, NewEvent, TaskRow, NewTask}
use ainsel.Queue.Preserved.{observe-tasks}
use ainsel.Queue.Deliveries.{IsDelivered, found_delivery, enqueue_task-events}

-- A stored task with this event, agent, trigger and payload.
pub record IsTask (q : Queue) (event agent trigger payload : String) : Type 0 where
  pub task : TaskRow
  pub stored : Has task q.tasks
  pub event_id : task.event_id ≡ event
  pub agent_name : task.agent_name ≡ agent
  pub trigger_name : task.trigger_name ≡ trigger
  pub content : task.payload ≡ payload

-- A stored event with this payload that is stamped as routed.
pub record IsEvent (q : Queue) (now : Instant) (event payload : String) : Type 0 where
  pub row : EventRow
  pub stored : Has row q.events
  pub id : row.id ≡ event
  pub content : row.payload ≡ payload
  pub routed : row.routed_at ≡ some now

pub insert_event-IsEvent :
    (q : Queue) (now : Instant) (evt : NewEvent)
    → has_event evt.id q.events ≡ false
    → IsEvent (mark_routed (insert_event q now evt) now evt.id) now evt.id evt.payload
unfolding insert_event mark_routed
insert_event-IsEvent q now evt fresh =
    let row : EventRow = record {
      id = evt.id;
      connector = evt.connector;
      channel_id = if evt.channel_id == "" then none else some evt.channel_id;
      headers = evt.headers;
      payload = evt.payload;
      raw = evt.raw;
      received_at = now;
      routed_at = none;
    } in
    rw (fresh, if◌then◌else◌)
      (record {
        row = if row.id == evt.id then record row { routed_at = some now } else row;
        stored =
            Has-map
              (λ (e : EventRow). if e.id == evt.id then record e { routed_at = some now } else e)
              (q.events ++ row ∷ []) row
              (Any-append_right (λ e. e ≡ row) q.events (row ∷ []) (inl refl));
        id = rw (==_refl evt.id, if◌then◌else◌) refl;
        content = rw (==_refl evt.id, if◌then◌else◌) refl;
        routed = rw (==_refl evt.id, if◌then◌else◌) refl;
      })

pub insert_event-tasks :
    (q : Queue) (now : Instant) (evt : NewEvent) → (insert_event q now evt).tasks ≡ q.tasks
unfolding insert_event
insert_event-tasks q now evt = elim (Bool-cases (has_event evt.id q.events)) [
  | inl e ↦ rw (e, if◌then◌else◌) refl
  | inr e ↦ rw (e, if◌then◌else◌) refl
]

-- A task of a stored event that has none for the agent yet is stored.
pub enqueue_task-IsTask :
    (q : Queue) (now : Instant) (task : NewTask)
    → has_event task.event_id q.events ≡ true
    → (IsDelivered q task.event_id task.agent_name → ⊥)
    → ((enqueue_task q now task).1 ≡ done)
      × IsTask
          (enqueue_task q now task).0
          task.event_id
          task.agent_name
          task.trigger_name
          task.payload
unfolding enqueue_task notify_agent store_task new_row
enqueue_task-IsTask q now task known new = elim (Bool-cases (any (same_delivery task) q.tasks)) [
  | inl old ↦ absurd (new (found_delivery task q.tasks old))
  | inr e ↦
      rw (known, if◌then◌else◌)
        (
          refl,
          record {
            task = new_row q.next_id now task;
            stored =
                rw (observe-tasks (store_task q now task) task.agent_name, e, if◌then◌else◌)
                  (Any-append_right (λ t. t ≡ new_row q.next_id now task) q.tasks _ (inl refl));
            event_id = refl;
            agent_name = refl;
            trigger_name = refl;
            content = refl;
          },
        )
]

pub enqueue_task-IsEvent :
    (q : Queue) (now at : Instant) (task : NewTask) (event payload : String)
    → IsEvent q at event payload
    → IsEvent (enqueue_task q now task).0 at event payload
enqueue_task-IsEvent q now at task event payload v = record {
  row = v.row;
  stored = rw (enqueue_task-events q now task) v.stored;
  id = v.id;
  content = v.content;
  routed = v.routed;
}

-- A task row stays as it is while others are enqueued.
pub enqueue_task-Has :
    (q : Queue) (now : Instant) (task : NewTask) (row : TaskRow)
    → Has row q.tasks
    → Has row (enqueue_task q now task).0.tasks
unfolding enqueue_task notify_agent store_task
enqueue_task-Has q now task row m = elim (Bool-cases (has_event task.event_id q.events)) [
  | inr gone ↦ rw (gone, if◌then◌else◌) m
  | inl known ↦ elim (Bool-cases (any (same_delivery task) q.tasks)) [
    | inl old ↦
        rw
          (
            known,
            if◌then◌else◌,
            observe-tasks (store_task q now task) task.agent_name,
            old,
            if◌then◌else◌,
          )
          m
    | inr new ↦
        rw
          (
            known,
            if◌then◌else◌,
            observe-tasks (store_task q now task) task.agent_name,
            new,
            if◌then◌else◌,
          )
          (Any-append_left (λ t. t ≡ row) q.tasks (new_row q.next_id now task ∷ []) m)
  ]
]
