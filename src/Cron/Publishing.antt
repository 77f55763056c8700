-- ===== src/Cron/Publishing.antt =====
-- `publish` of services/hub/internal/cron/emitter.go: what it stores, and what an error leaves.
use ainsel.Prelude.{
  Bool, ◌||◌, ◌≡◌, refl, inl, inr, true, false, List, Option, none, some, String, if◌then◌else◌,
  ◌==◌, string_eq, Has, arith, Bool-cases,
}
use ainsel.Prelude.Time.{Instant}
use ainsel.Queue.{
  Queue, Outcome, done, foreign_key, has_event, insert_event, mark_routed, enqueue_task,
}
use ainsel.Queue.Rows.{EventRow, TaskRow}
use ainsel.Queue.Arrivals.{
  IsTask, IsEvent, insert_event-IsEvent, insert_event-tasks, enqueue_task-IsTask,
  enqueue_task-IsEvent,
}
use ainsel.Queue.Deliveries.{IsDelivered, insert_event-has_event, mark_routed-has_event}
use ainsel.Router.{Hub, Headers, Transferer}
use ainsel.Cron.{
  Entry, Wiring, resolve_inbox, cron_event, cron_task, cron_row, transfer_from_inbox, stop_if,
  after_enqueued, publish,
}

-- A transfer takes no event and no task away and changes none.
unfoldable pub KeepsRows : Option Transferer → Type 0
KeepsRows none = Unit
KeepsRows (some apply) =
    (hub : Hub) (evt : EventRow) (headers : Headers) (delivered : List String)
    → ((t : TaskRow)
        → Has t hub.queue.tasks
        → Has t (apply hub evt headers delivered).0.queue.tasks)
      × ((e : EventRow)
          → Has e hub.queue.events
          → Has e (apply hub evt headers delivered).0.queue.events)

module _ (Schedule : Type 0) where
  transfer_from_inbox-keeps :
      (t : Option Transferer) (row : EventRow) (birth agent : String) (hub : Hub)
      → KeepsRows t
      → ((x : TaskRow)
          → Has x hub.queue.tasks
          → Has x (transfer_from_inbox Schedule t row birth agent hub).queue.tasks)
        × ((x : EventRow)
            → Has x hub.queue.events
            → Has x (transfer_from_inbox Schedule t row birth agent hub).queue.events)
  unfolding transfer_from_inbox KeepsRows
  transfer_from_inbox-keeps none row birth agent hub k = (λ x m. m, λ x m. m)
  transfer_from_inbox-keeps (some apply) row birth agent hub k = elim (Bool-cases (birth == "")) [
    | inl blank ↦ rw (blank, if◌then◌else◌) (λ x m. m, λ x m. m)
    | inr born ↦ rw (born, if◌then◌else◌) (k hub row _ _)
  ]

  module _ (w : Wiring Schedule) (now : Instant) where
    -- Some statement of the run is refused.
    abbrev pub fails : String → Entry Schedule → String → Bool
    fails event_id en inv_id =
        w.insert_fails
          (cron_event Schedule w event_id en (resolve_inbox Schedule w.inbox_of en.agent_ref))
        || w.mark_fails event_id
        || w.enqueue_fails (cron_task Schedule w event_id en inv_id)
        || w.notify_fails event_id en.agent_ref

    after_enqueued-stores :
        (hub : Hub) (row : EventRow) (birth agent event trigger payload body : String)
        (r : Queue × Outcome)
        → KeepsRows w.transfer
        → w.notify_fails row.id agent ≡ false
        → r.1 ≡ done
        → IsTask r.0 event agent trigger payload
        → IsEvent r.0 now event body
        → ((after_enqueued Schedule w hub row birth agent r).1 ≡ true)
          × IsTask
              (after_enqueued Schedule w hub row birth agent r).0.queue
              event
              agent
              trigger
              payload
          × IsEvent (after_enqueued Schedule w hub row birth agent r).0.queue now event body
    unfolding after_enqueued stop_if
    after_enqueued-stores hub row birth agent event trigger payload body (queue, done) keeps calm e
          t v =
        let (tasks, events) =
          transfer_from_inbox-keeps w.transfer row birth agent (record hub { queue = queue })
            keeps in
        rw (calm, stop_if)
          (
            refl,
            record {
              task = t.task;
              stored = tasks t.task t.stored;
              event_id = t.event_id;
              agent_name = t.agent_name;
              trigger_name = t.trigger_name;
              content = t.content;
            },
            record {
              row = v.row;
              stored = events v.row v.stored;
              id = v.id;
              content = v.content;
              routed = v.routed;
            },
          )
    after_enqueued-stores hub row birth agent event trigger payload body (queue, foreign_key) keeps
          calm e t v =
        cc e

    after_enqueued-refused :
        (hub : Hub) (row : EventRow) (birth agent : String) (r : Queue × Outcome)
        → w.notify_fails row.id agent ≡ true
        → ((after_enqueued Schedule w hub row birth agent r).1 ≡ false)
          × ((after_enqueued Schedule w hub row birth agent r).0.invocations ≡ hub.invocations)
    unfolding after_enqueued stop_if
    after_enqueued-refused hub row birth agent (queue, done) e = rw (e, stop_if) (refl, refl)
    after_enqueued-refused hub row birth agent (queue, foreign_key) e = (refl, refl)

    stop_if-refused :
        (b : Bool) (stopped hub : Hub) (rest : Hub × Bool)
        → stopped.invocations ≡ hub.invocations
        → (b ≡ false → (rest.1 ≡ false) × (rest.0.invocations ≡ hub.invocations))
        → ((stop_if Schedule b stopped rest).1 ≡ false)
          × ((stop_if Schedule b stopped rest).0.invocations ≡ hub.invocations)
    unfolding stop_if
    stop_if-refused true stopped hub rest same f = (refl, same)
    stop_if-refused false stopped hub rest same f = f refl

    last_of_four :
        (a b c d : Bool) → (a || b || c || d) ≡ true → a ≡ false → b ≡ false → c ≡ false → d ≡ true
    last_of_four a b c d h ea eb ec = ground arith

    -- A refused statement ends the run with an error, and no invocation is touched.
    pub publish-refused :
        (hub : Hub) (event_id : String) (en : Entry Schedule) (inv_id : String)
        → fails event_id en inv_id ≡ true
        → ((publish Schedule w now hub event_id en inv_id).1 ≡ false)
          × ((publish Schedule w now hub event_id en inv_id).0.invocations ≡ hub.invocations)
    unfolding publish cron_row
    publish-refused hub event_id en inv_id h = stop_if-refused _ hub hub _ refl (λ a.
        stop_if-refused _ _ hub _ refl (λ b.
          stop_if-refused _ _ hub _ refl
            (λ c. after_enqueued-refused hub _ _ en.agent_ref _ (last_of_four _ _ _ _ h a b c))))

    -- A run whose statements all pass returns no error, and its event and task are stored.
    pub publish-stores :
        (hub : Hub) (event_id : String) (en : Entry Schedule) (inv_id : String)
        → KeepsRows w.transfer
        → fails event_id en inv_id ≡ false
        → has_event event_id hub.queue.events ≡ false
        → (IsDelivered hub.queue event_id en.agent_ref → ⊥)
        → ((publish Schedule w now hub event_id en inv_id).1 ≡ true)
          × IsTask
              (publish Schedule w now hub event_id en inv_id).0.queue
              event_id
              en.agent_ref
              en.id
              (w.encode_data en.id en.prompt)
          × IsEvent
              (publish Schedule w now hub event_id en inv_id).0.queue
              now
              event_id
              (w.encode_data en.id en.prompt)
    unfolding publish stop_if cron_row cron_event cron_task mark_routed
    publish-stores hub event_id en inv_id keeps calm fresh new =
        let birth = resolve_inbox Schedule w.inbox_of en.agent_ref in
        let event = cron_event Schedule w event_id en birth in
        let task = cron_task Schedule w event_id en inv_id in
        let stored = insert_event hub.queue now event in
        let marked = mark_routed stored now event_id in
        let (a, b, c, d) =
          none_of_four (w.insert_fails event) (w.mark_fails event_id) (w.enqueue_fails task)
            (w.notify_fails event_id en.agent_ref) calm in
        let (fine, queued) =
          enqueue_task-IsTask marked now task
            (mark_routed-has_event stored now event_id event_id
              (insert_event-has_event hub.queue now event))
            (λ old. new (rw (insert_event-tasks hub.queue now event) at old)) in
        let seen = insert_event-IsEvent hub.queue now event fresh in
        rw (a, stop_if, b, stop_if, c, stop_if)
          (after_enqueued-stores hub _ birth en.agent_ref event_id en.id _ _
            (enqueue_task marked now task) keeps d fine queued
            (enqueue_task-IsEvent marked now now task event_id _ seen))
      where
        none_of_four :
            (a b c d : Bool)
            → (a || b || c || d) ≡ false
            → (a ≡ false) × (b ≡ false) × (c ≡ false) × (d ≡ false)
        none_of_four a b c d h = (ground arith, ground arith, ground arith, ground arith)
