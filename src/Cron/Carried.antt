-- ===== src/Cron/Carried.antt =====
-- That `Apply` of services/hub/internal/channels/transfer.go is a transfer as the runs of
-- services/hub/internal/cron/emitter.go need it: it leaves the stored rows as they are.
use ainsel.Prelude.{inl, inr, List, [], ◌∷◌, some, if◌then◌else◌, ◌==◌, string_eq, Has, Bool-cases}
use ainsel.Prelude.Time.{Instant}
use ainsel.Queue.Rows.{EventRow, TaskRow}
use ainsel.Queue.Deliveries.{enqueue_task-events}
use ainsel.Queue.Arrivals.{enqueue_task-Has}
use ainsel.Router.{Hub, Headers}
use ainsel.Channels.Rows.{Delivery}
use ainsel.Channels.Walk.{deliveries}
use ainsel.Channels.Transfer.{
  Transfer, birth_channel, transfer_one, transfer_each, apply_each, apply,
}
use ainsel.Channels.Transfer.Keeps.{task_for, transfer_one-queue}
use ainsel.Cron.Publishing.{KeepsRows}

module _ (t : Transfer) (now : Instant) where
  module _ (evt : EventRow) (headers : Headers) where
    transfer_each-Has_task :
        (ds : List Delivery) (hub : Hub) (row : TaskRow)
        → Has row hub.queue.tasks
        → Has row (transfer_each t now evt headers ds hub).0.queue.tasks
    unfolding transfer_each
    transfer_each-Has_task [] hub row m = m
    transfer_each-Has_task (d ∷ ds) hub row m =
        transfer_each-Has_task ds (transfer_one t now evt headers hub d).0 row (
          rw (transfer_one-queue t now evt headers hub d)
            (enqueue_task-Has hub.queue now (task_for t now evt headers hub d) row m))

    transfer_each-Has_event :
        (ds : List Delivery) (hub : Hub) (row : EventRow)
        → Has row hub.queue.events
        → Has row (transfer_each t now evt headers ds hub).0.queue.events
    unfolding transfer_each
    transfer_each-Has_event [] hub row m = m
    transfer_each-Has_event (d ∷ ds) hub row m =
        transfer_each-Has_event ds (transfer_one t now evt headers hub d).0 row (
          rw
            (
              transfer_one-queue t now evt headers hub d,
              enqueue_task-events hub.queue now (task_for t now evt headers hub d),
            )
            m)

  -- The transfer over the bridges takes no stored row away and changes none.
  pub apply-KeepsRows : KeepsRows (some (apply t now))
  unfolding KeepsRows apply apply_each
  apply-KeepsRows hub evt headers delivered = elim (Bool-cases (birth_channel evt == "")) [
    | inl blank ↦ rw (blank, if◌then◌else◌) (λ x m. m, λ x m. m)
    | inr born ↦
        let ds = deliveries t.db t.store (birth_channel evt) delivered in
        rw (born, if◌then◌else◌)
          (transfer_each-Has_task evt headers ds hub, transfer_each-Has_event evt headers ds hub)
  ]
