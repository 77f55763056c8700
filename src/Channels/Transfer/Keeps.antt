-- ===== src/Channels/Transfer/Keeps.antt =====
-- What `Apply` of services/hub/internal/channels/transfer.go does to the task queue.
use ainsel.Prelude.{
  ◌≡◌, refl, ap₂, subst, inl, inr, true, false, List, [], ◌∷◌, Option, some, String, if◌then◌else◌,
  ◌==◌, string_eq, map, Has, Bool-cases,
}
use ainsel.Prelude.Time.{Instant}
use ainsel.Queue.{Queue, Outcome, done, foreign_key, has_event, enqueue_task}
use ainsel.Queue.Rows.{EventRow, NewTask}
use ainsel.Queue.Deliveries.{
  IsDelivered, enqueue_task-keeps, enqueue_task-IsDelivered, enqueue_task-events,
}
use ainsel.Invocations.{MemoryStore}
use ainsel.Router.{Hub, Headers, TransferResult, start_invocation}
use ainsel.Router.Handling.{KeepsTasks}
use ainsel.Channels.Rows.{Delivery}
use ainsel.Channels.Walk.{deliveries}
use ainsel.Channels.Transfer.{
  Transfer, birth_channel, transfer_invocation, transfer_task, after_transferred, transfer_one,
  transfer_each, apply_each, apply,
}

module _ (t : Transfer) (now : Instant) where
  after_transferred-queue :
      (hub : Hub) (d : Delivery) (started : Option MemoryStore × String) (r : Queue × Outcome)
      → (after_transferred t now hub d started r).0.queue ≡ r.0
  unfolding after_transferred
  after_transferred-queue hub d (store, inv_id) (queue, done) = refl
  after_transferred-queue hub d (store, inv_id) (queue, foreign_key) = refl

  after_transferred-result :
      (hub : Hub) (d : Delivery) (started : Option MemoryStore × String) (r : Queue × Outcome)
      → r.1 ≡ done
      → ((after_transferred t now hub d started r).1.failed ≡ false)
        × ((after_transferred t now hub d started r).1.agent_name ≡ d.agent_name)
  unfolding after_transferred
  after_transferred-result hub d (store, inv_id) (queue, done) e = (refl, refl)
  after_transferred-result hub d (store, inv_id) (queue, foreign_key) e = cc e

  module _ (evt : EventRow) (headers : Headers) where
    abbrev pub task_for : Hub → Delivery → NewTask
    task_for hub d =
        transfer_task t evt headers d
          (start_invocation hub.invocations (t.new_id d.agent_name) now
            (transfer_invocation evt d)).1

    pub transfer_one-queue :
        (hub : Hub) (d : Delivery)
        → (transfer_one t now evt headers hub d).0.queue
          ≡ (enqueue_task hub.queue now (task_for hub d)).0
    unfolding transfer_one
    transfer_one-queue hub d =
        after_transferred-queue hub d
          (start_invocation hub.invocations (t.new_id d.agent_name) now (transfer_invocation evt d))
          (enqueue_task hub.queue now (task_for hub d))

    transfer_each-keeps :
        (ds : List Delivery) (hub : Hub) (event agent : String)
        → IsDelivered hub.queue event agent
        → IsDelivered (transfer_each t now evt headers ds hub).0.queue event agent
    unfolding transfer_each
    transfer_each-keeps [] hub event agent h = h
    transfer_each-keeps (d ∷ ds) hub event agent h =
        transfer_each-keeps ds (transfer_one t now evt headers hub d).0 event agent (
          rw (transfer_one-queue hub d)
            (enqueue_task-keeps event agent hub.queue now (task_for hub d) h))

    transfer_one-IsDelivered :
        (hub : Hub) (d : Delivery)
        → has_event evt.id hub.queue.events ≡ true
        → IsDelivered (transfer_one t now evt headers hub d).0.queue evt.id d.agent_name
    unfolding transfer_task
    transfer_one-IsDelivered hub d known =
        rw (transfer_one-queue hub d)
          (enqueue_task-IsDelivered hub.queue now (task_for hub d) known).1

    transfer_one-events :
        (hub : Hub) (d : Delivery)
        → has_event evt.id hub.queue.events ≡ true
        → has_event evt.id (transfer_one t now evt headers hub d).0.queue.events ≡ true
    transfer_one-events hub d known =
        rw (transfer_one-queue hub d, enqueue_task-events hub.queue now (task_for hub d)) known

    -- Each delivery of a stored event leaves a task for its agent.
    pub transfer_each-IsDelivered :
        (ds : List Delivery) (hub : Hub) (d : Delivery)
        → has_event evt.id hub.queue.events ≡ true
        → Has d ds
        → IsDelivered (transfer_each t now evt headers ds hub).0.queue evt.id d.agent_name
    unfolding transfer_each
    transfer_each-IsDelivered [] hub d known m = absurd m
    transfer_each-IsDelivered (c ∷ ds) hub d known (inl e) =
        transfer_each-keeps ds (transfer_one t now evt headers hub c).0 evt.id d.agent_name (
          subst
            (λ (x : Delivery).
              IsDelivered (transfer_one t now evt headers hub c).0.queue evt.id x.agent_name)
            e (transfer_one-IsDelivered hub c known))
    transfer_each-IsDelivered (c ∷ ds) hub d known (inr m) =
        transfer_each-IsDelivered ds (transfer_one t now evt headers hub c).0 d
          (transfer_one-events hub c known) m

    -- A stored event's transfer has one result for each delivery, in order, and none of them failed.
    pub transfer_each-results :
        (ds : List Delivery) (hub : Hub)
        → has_event evt.id hub.queue.events ≡ true
        → (map (λ (r : TransferResult). r.failed) (transfer_each t now evt headers ds hub).1
            ≡ map (λ (d : Delivery). false) ds)
          × (map (λ (r : TransferResult). r.agent_name) (transfer_each t now evt headers ds hub).1
              ≡ map (λ (d : Delivery). d.agent_name) ds)
    unfolding transfer_each transfer_one transfer_task
    transfer_each-results [] hub known = (refl, refl)
    transfer_each-results (d ∷ ds) hub known =
        let rest =
          transfer_each-results ds (transfer_one t now evt headers hub d).0
            (transfer_one-events hub d known) in
        let first =
          after_transferred-result hub d
            (start_invocation hub.invocations (t.new_id d.agent_name) now
              (transfer_invocation evt d))
            (enqueue_task hub.queue now (task_for hub d))
            (enqueue_task-IsDelivered hub.queue now (task_for hub d) known).0 in
        (ap₂ ◌∷◌ first.0 rest.0, ap₂ ◌∷◌ first.1 rest.1)

  -- The transfer takes no task away, whatever the event and the hub.
  pub apply-KeepsTasks : KeepsTasks (some (apply t now))
  unfolding KeepsTasks apply apply_each
  apply-KeepsTasks hub evt headers delivered event agent h =
      elim (Bool-cases (birth_channel evt == "")) [
        | inl blank ↦ rw (blank, if◌then◌else◌) h
        | inr born ↦
            rw (born, if◌then◌else◌)
              (transfer_each-keeps evt headers
                (deliveries t.db t.store (birth_channel evt) delivered) hub event agent h)
      ]
