-- ===== src/Cron/Firing.antt =====
-- What one run of services/hub/internal/cron/emitter.go leaves in the queue, in the invocation log and
-- in the schedule, whether publishing succeeds or not.
use ainsel.Prelude.{
  Bool, ◌≡◌, refl, ◌⊎◌, inl, inr, true, false, List, some, String, if◌then◌else◌, ◌==◌, string_eq,
  Bool-cases, ==_refl,
}
use ainsel.Prelude.Dict.{lookup, lookup-insert}
use ainsel.Prelude.Time.{Instant, is_zero_time}
use ainsel.Queue.{has_event}
use ainsel.Queue.Deliveries.{IsDelivered}
use ainsel.Queue.Arrivals.{IsTask, IsEvent}
use ainsel.Invocations.{
  Invocation, MemoryStore, status_failure, get, record_invocation, or_else, completed_fields,
}
use ainsel.Invocations.Lifecycle.{IsOutcome, record_invocation-complete}
use ainsel.Router.{Hub, start_invocation, fail_invocation}
use ainsel.Cron.Publishing.{KeepsRows, fails, publish-refused, publish-stores}
use ainsel.Cron.{
  Entry, Wiring, cron_invocation, publish, Emitter, advance_found, advance, after_publish, fire_at,
  fire_entry,
}

module _ (Schedule : Type 0) where
  -- The run of an entry at its next time, which succeeded: its event, stamped as routed, and its task
  -- are stored, and the entry that is stored counts as fired at that time.
  pub record IsFired (w : Wiring Schedule) (now fire_time : Instant) (en cur : Entry Schedule)
      (after : Emitter Schedule) : Type 0 where
    pub task :
        IsTask after.hub.queue
          (w.new_event_id en.id now)
          en.agent_ref
          en.id
          (w.encode_data en.id en.prompt)
    pub event :
        IsEvent after.hub.queue now (w.new_event_id en.id now) (w.encode_data en.id en.prompt)
    pub advanced :
        lookup en.id after.entries
        ≡ some (record cur { last_fired = fire_time; next_run = w.next cur.schedule fire_time })

  -- The run failed: no entry has moved, so that it is due again, and its invocation is found in the
  -- log as failed.
  pub record IsAborted (w : Wiring Schedule) (now : Instant) (en : Entry Schedule)
      (before after : Emitter Schedule) : Type 0 where
    pub unmoved : after.entries ≡ before.entries
    pub log : MemoryStore
    pub kept : after.hub.invocations ≡ some log
    pub rec : Invocation
    pub found : get log (w.new_id en.id now) ≡ some rec
    pub failed :
        IsOutcome
          (cron_invocation Schedule (w.new_event_id en.id now) en)
          (w.new_id en.id now)
          now
          now
          status_failure
          w.failure_text
          0
          rec

  module _ (w : Wiring Schedule) (now : Instant) where
    lookup-advance :
        (id : String) (fire_time : Instant) (entries : List (String × Entry Schedule))
        (cur : Entry Schedule)
        → lookup id entries ≡ some cur
        → lookup id (advance Schedule w id fire_time entries)
          ≡ some (record cur { last_fired = fire_time; next_run = w.next cur.schedule fire_time })
    unfolding advance advance_found
    lookup-advance id fire_time entries cur found =
        rw (found, lookup-insert id id _ entries, ==_refl id, if◌then◌else◌) refl

    after_publish-done :
        (entries : List (String × Entry Schedule)) (id : String) (fire_time : Instant)
        (inv_id : String) (r : Hub × Bool)
        → r.1 ≡ true
        → after_publish Schedule w now entries id fire_time inv_id r
          ≡ record { entries = advance Schedule w id fire_time entries; hub = r.0 }
    unfolding after_publish
    after_publish-done entries id fire_time inv_id (hub, true) e = refl
    after_publish-done entries id fire_time inv_id (hub, false) e = cc e

    after_publish-IsAborted :
        (en : Entry Schedule) (e : Emitter Schedule) (fire_time : Instant) (s : MemoryStore)
        (r : Hub × Bool)
        → (w.new_id en.id now == "") ≡ false
        → r.1 ≡ false
        → r.0.invocations
          ≡ some
              (record_invocation s
                (w.new_id en.id now)
                now
                (cron_invocation Schedule (w.new_event_id en.id now) en)).0
        → IsAborted w now en e
            (after_publish Schedule w now e.entries en.id fire_time (w.new_id en.id now) r)
    unfolding after_publish fail_invocation record_invocation completed_fields or_else
        cron_invocation
    after_publish-IsAborted en e fire_time s (hub, true) named refused log = cc refused
    after_publish-IsAborted en e fire_time s (hub, false) named refused log =
        let (_, (rec, found, outcome), _) =
          record_invocation-complete s (w.new_id en.id now) now now
            (cron_invocation Schedule (w.new_event_id en.id now) en) status_failure w.failure_text
            0 in
        record {
          unmoved = refl;
          log = _;
          kept = rw (log, fail_invocation, named, if◌then◌else◌) refl;
          rec = rec;
          found = found;
          failed = outcome;
        }

    run_of :
        (en : Entry Schedule) (e : Emitter Schedule) (s : MemoryStore)
        → is_zero_time (w.next en.schedule en.last_fired) ≡ false
        → e.hub.invocations ≡ some s
        → fire_entry Schedule w now en e
          ≡ after_publish Schedule w now e.entries en.id
              (w.next en.schedule en.last_fired)
              (w.new_id en.id now)
              (publish Schedule w now
                (record e.hub {
                  invocations =
                      some
                        (record_invocation s
                          (w.new_id en.id now)
                          now
                          (cron_invocation Schedule (w.new_event_id en.id now) en)).0;
                })
                (w.new_event_id en.id now)
                en
                (w.new_id en.id now))
    unfolding fire_entry fire_at start_invocation record_invocation completed_fields or_else
        cron_invocation
    run_of en e s runs log = rw (runs, if◌then◌else◌, log, start_invocation) refl

    -- A run of an entry is not lost, and it is retried where it fails. Let the entry be stored, the
    -- hub keep an invocation log, the entry's schedule have a next time, the run's event id be new
    -- (no event and no task for the agent has it), the invocation id not be empty, and the transfer
    -- leave the stored rows as they are. If the database accepts every statement of the run, then
    -- the run's event with its prompt is stored and stamped as routed, a task with the prompt is
    -- stored for the agent, and the stored entry counts as fired at exactly that time, so that its
    -- next run is the first after it. If the database refuses one of them, no entry moves, so that
    -- the run is still due, and the invocation is in the log with the status "failure" and the
    -- error's text.
    pub fire_entry-IsDelivered :
        (en cur : Entry Schedule) (e : Emitter Schedule) (s : MemoryStore)
        → KeepsRows w.transfer
        → is_zero_time (w.next en.schedule en.last_fired) ≡ false
        → lookup en.id e.entries ≡ some cur
        → e.hub.invocations ≡ some s
        → (w.new_id en.id now == "") ≡ false
        → has_event (w.new_event_id en.id now) e.hub.queue.events ≡ false
        → (IsDelivered e.hub.queue (w.new_event_id en.id now) en.agent_ref → ⊥)
        → ((fails Schedule w now (w.new_event_id en.id now) en (w.new_id en.id now) ≡ false)
            × IsFired w now
                (w.next en.schedule en.last_fired)
                en
                cur
                (fire_entry Schedule w now en e))
          ⊎ ((fails Schedule w now (w.new_event_id en.id now) en (w.new_id en.id now) ≡ true)
              × IsAborted w now en e (fire_entry Schedule w now en e))
    fire_entry-IsDelivered en cur e s keeps runs found log named fresh new =
        let fire_time = w.next en.schedule en.last_fired in
        let event_id = w.new_event_id en.id now in
        let inv_id = w.new_id en.id now in
        let logged = record_invocation s inv_id now (cron_invocation Schedule event_id en) in
        let hub : Hub = record e.hub { invocations = some logged.0 } in
        elim (Bool-cases (fails Schedule w now event_id en inv_id)) [
          | inl bad ↦
              let (refused, same) = publish-refused Schedule w now hub event_id en inv_id bad in
              inr (
                bad,
                rw (run_of en e s runs log) (
                    after_publish-IsAborted en e fire_time s
                      (publish Schedule w now hub event_id en inv_id) named refused same),
              )
          | inr calm ↦
              let (went, task, event) =
                publish-stores Schedule w now hub event_id en inv_id keeps calm fresh new in
              inl (
                calm,
                rw
                    (
                      run_of en e s runs log,
                      after_publish-done e.entries en.id fire_time inv_id
                          (publish Schedule w now hub event_id en inv_id) went,
                    )
                    (record {
                      task = task;
                      event = event;
                      advanced = lookup-advance en.id fire_time e.entries cur found;
                    }),
              )
        ]
