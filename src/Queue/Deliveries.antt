-- ===== src/Queue/Deliveries.antt =====
-- What `EnqueueTask` of services/hub/internal/eventqueue/store.go leaves in the table.
use ainsel.Prelude.{
  ◌≡◌, refl, inl, inr, true, List, [], ◌∷◌, ◌++◌, String, if◌then◌else◌, ◌==◌, string_eq, any, Any,
  arith, Bool-cases, map, some,
}
use ainsel.Prelude.Time.{Instant}
use ainsel.Queue.Rows.{EventRow, NewEvent, TaskRow, NewTask}
use ainsel.Queue.{
  Queue, done, observe, notify_agent, has_event, same_delivery, new_row, store_task, enqueue_task,
  insert_event, mark_routed,
}
use ainsel.Queue.Preserved.{observe-tasks}

-- The event has a task for the agent.
abbrev pub IsDelivered : Queue → String → String → Type 0
IsDelivered q event agent = Any (λ t. (t.event_id ≡ event) × (t.agent_name ≡ agent)) q.tasks

module _ (event agent : String) where
  abbrev IsTaskOf : TaskRow → Type 0
  IsTaskOf t = (t.event_id ≡ event) × (t.agent_name ≡ agent)

  append-Any : (ts : List TaskRow) (u : TaskRow) → Any IsTaskOf ts → Any IsTaskOf (ts ++ u ∷ [])
  append-Any [] u h = absurd h
  append-Any (t ∷ ts) u (inl h) = inl h
  append-Any (t ∷ ts) u (inr h) = inr (append-Any ts u h)

  append_last : (ts : List TaskRow) (u : TaskRow) → IsTaskOf u → Any IsTaskOf (ts ++ u ∷ [])
  append_last [] u h = inl h
  append_last (t ∷ ts) u h = inr (append_last ts u h)

  store_task-keeps :
      (q : Queue) (now : Instant) (task : NewTask)
      → IsDelivered q event agent
      → IsDelivered (store_task q now task) event agent
  unfolding store_task
  store_task-keeps q now task h = elim (Bool-cases (any (same_delivery task) q.tasks)) [
    | inl e ↦ rw (e, if◌then◌else◌) h
    | inr e ↦ rw (e, if◌then◌else◌) (append-Any q.tasks (new_row q.next_id now task) h)
  ]

  -- A refused or repeated delivery takes no other away.
  pub enqueue_task-keeps :
      (q : Queue) (now : Instant) (task : NewTask)
      → IsDelivered q event agent
      → IsDelivered (enqueue_task q now task).0 event agent
  unfolding enqueue_task notify_agent
  enqueue_task-keeps q now task h = elim (Bool-cases (has_event task.event_id q.events)) [
    | inl e ↦
        rw (e, if◌then◌else◌, observe-tasks (store_task q now task) task.agent_name)
          (store_task-keeps q now task h)
    | inr e ↦ rw (e, if◌then◌else◌) h
  ]

pub found_delivery :
    (task : NewTask) (ts : List TaskRow)
    → any (same_delivery task) ts ≡ true
    → Any (λ t. (t.event_id ≡ task.event_id) × (t.agent_name ≡ task.agent_name)) ts
unfolding same_delivery
found_delivery task [] e = absurd (ground arith)
found_delivery task (t ∷ ts) e = elim (Bool-cases (t.event_id == task.event_id)) [
  | inl a ↦ elim (Bool-cases (t.agent_name == task.agent_name)) [
    | inl b ↦ inl ((string_eq.beq_iff _ _).0 a, (string_eq.beq_iff _ _).0 b)
    | inr b ↦ inr (found_delivery task ts (ground arith))
  ]
  | inr a ↦ inr (found_delivery task ts (ground arith))
]

store_task-IsDelivered :
    (q : Queue) (now : Instant) (task : NewTask)
    → IsDelivered (store_task q now task) task.event_id task.agent_name
unfolding store_task new_row
store_task-IsDelivered q now task = elim (Bool-cases (any (same_delivery task) q.tasks)) [
  | inl e ↦ rw (e, if◌then◌else◌) (found_delivery task q.tasks e)
  | inr e ↦
      rw (e, if◌then◌else◌)
        (append_last task.event_id task.agent_name q.tasks (new_row q.next_id now task)
          (refl, refl))
]

-- Enqueuing a task of a stored event succeeds, and the event has a task for the agent afterwards.
pub enqueue_task-IsDelivered :
    (q : Queue) (now : Instant) (task : NewTask)
    → has_event task.event_id q.events ≡ true
    → ((enqueue_task q now task).1 ≡ done)
      × IsDelivered (enqueue_task q now task).0 task.event_id task.agent_name
unfolding enqueue_task notify_agent
enqueue_task-IsDelivered q now task h =
    rw (h, if◌then◌else◌)
      (
        refl,
        rw (observe-tasks (store_task q now task) task.agent_name)
            (store_task-IsDelivered q now task),
      )

observe-events : (q : Queue) (agent : String) → (observe q agent).events ≡ q.events
unfolding observe
observe-events q agent = ground arith

pub enqueue_task-events :
    (q : Queue) (now : Instant) (task : NewTask) → (enqueue_task q now task).0.events ≡ q.events
unfolding enqueue_task notify_agent store_task
enqueue_task-events q now task = elim (Bool-cases (has_event task.event_id q.events)) [
  | inl e ↦
      rw (e, if◌then◌else◌, observe-events (store_task q now task) task.agent_name) (ground arith)
  | inr e ↦ rw (e, if◌then◌else◌) refl
]

has_event-append :
    (id : String) (es : List EventRow) (e : EventRow)
    → e.id ≡ id
    → has_event id (es ++ e ∷ []) ≡ true
unfolding has_event
has_event-append id [] e same = ground (arith, (string_eq.beq_iff e.id id).1 same)
has_event-append id (d ∷ es) e same = ground (arith, has_event-append id es e same)

-- A stored event is found, whether it was stored before or not.
pub insert_event-has_event :
    (q : Queue) (now : Instant) (evt : NewEvent)
    → has_event evt.id (insert_event q now evt).events ≡ true
unfolding insert_event
insert_event-has_event q now evt = elim (Bool-cases (has_event evt.id q.events)) [
  | inl known ↦ rw (known, if◌then◌else◌) known
  | inr new ↦ rw (new, if◌then◌else◌) (has_event-append evt.id q.events _ refl)
]

marked_has :
    (now : Instant) (id x : String) (es : List EventRow)
    → has_event x es ≡ true
    → has_event x
        (map (λ (e : EventRow). if e.id == id then record e { routed_at = some now } else e) es)
      ≡ true
unfolding has_event
marked_has now id x [] h = h
marked_has now id x (e ∷ es) h = elim (Bool-cases (e.id == id)) [
  | inl hit ↦ rw (hit, if◌then◌else◌) (ground (arith, h, marked_has now id x es))
  | inr miss ↦ rw (miss, if◌then◌else◌) (ground (arith, h, marked_has now id x es))
]

pub mark_routed-has_event :
    (q : Queue) (now : Instant) (id x : String)
    → has_event x q.events ≡ true
    → has_event x (mark_routed q now id).events ≡ true
unfolding mark_routed
mark_routed-has_event q now id x h = marked_has now id x q.events h
