-- ===== src/Queue/Redelivery.antt =====
-- What a late or repeated report does to a task of services/hub/internal/eventqueue/store.go: the
-- UPDATEs of `AckTask` and `NakTask` ask for the id alone.
use ainsel.Prelude.{
  ℕ, ◌+◌, ◌<◌, ◌≤◌, ◌≡◌, refl, ap, ◌∙◌, inl, inr, Bool, true, false, List, [], ◌∷◌, some, String,
  if◌then◌else◌, nat_eq, ==_refl, leb, Has, arith, string_eq,
}
use ainsel.Prelude.Time.{Instant}
use ainsel.Queue.Rows.{pending, completed, TaskRow, alter, is_pending}
use ainsel.Queue.{Queue, ack_row, ack_task, give_back, nak_row, nak_task, with_id, is_ready, is_due}
use ainsel.Queue.Preserved.{observe-tasks}

alter-Has :
    (p : TaskRow → Bool) (f : TaskRow → TaskRow) (ts : List TaskRow) (t : TaskRow)
    → Has t ts
    → p t ≡ true
    → Has (f t) (alter p f ts)
unfolding alter
alter-Has p f [] t m h = absurd m
alter-Has p f (x ∷ ts) t (inl e) h =
    let hit : p x ≡ true = ap p e ∙ h in rw (hit, if◌then◌else◌) (inl (ap f e))
alter-Has p f (x ∷ ts) t (inr m) h = inr (alter-Has p f ts t m h)

-- A negative acknowledgement revives a task that is over: also a completed task goes back to pending,
-- ready for its agent once the delay is over, as long as its attempts are below the maximum.
pub nak_task-revives :
    (q : Queue) (now later : Instant) (delay : ℕ) (message : String) (t : TaskRow)
    → Has t q.tasks
    → t.status ≡ completed
    → t.attempts < t.max_attempts
    → now + delay ≤ later
    → (u : TaskRow) × Has u (nak_task q now t.id delay message).tasks
      × (u.id ≡ t.id)
      × (u.status ≡ pending)
      × (is_ready later t.agent_name u ≡ true)
unfolding nak_task nak_row with_id give_back is_ready is_due is_pending
nak_task-revives q now later delay message t m over left due =
    let more : leb t.max_attempts t.attempts ≡ false = ground arith in
    (
      nak_row now delay message t,
      rw (observe-tasks)
          (alter-Has (with_id t.id) (nak_row now delay message) q.tasks t m (==_refl t.id)),
      refl,
      rw (more, if◌then◌else◌) refl,
      rw (more, if◌then◌else◌, ==_refl t.agent_name) (ground arith),
    )

-- An acknowledgement stamps a task that is over again: whatever its status, also completed or failed,
-- the task is completed, at the time of the last acknowledgement.
pub ack_task-restamps :
    (q : Queue) (now : Instant) (t : TaskRow)
    → Has t q.tasks
    → (u : TaskRow) × Has u (ack_task q now t.id).tasks
      × (u.id ≡ t.id)
      × (u.status ≡ completed)
      × (u.completed_at ≡ some now)
unfolding ack_task ack_row with_id
ack_task-restamps q now t m = (
  ack_row now t,
  rw (observe-tasks) (alter-Has (with_id t.id) (ack_row now) q.tasks t m (==_refl t.id)),
  refl,
  refl,
  refl,
)
