-- ===== src/Queue/Calls.antt =====
-- The calls that services/hub/internal/eventqueue/store.go takes, and that every sequence of them
-- leaves a sound queue.
use ainsel.Prelude.{
  ℕ, inl, inr, List, [], ◌∷◌, String, if◌then◌else◌, nat_eq, string_eq, Bool-cases,
}
use ainsel.Prelude.Time.{Instant}
use ainsel.Queue.Rows.{NewTask, NewEvent}
use ainsel.Queue.{
  Queue, insert_event, mark_routed, enqueue_task, with_id, claim_task, ack_row, ack_task, nak_row,
  nak_task, is_stale, reap_row, reap_stale_claims, has_event, agent_of,
}
use ainsel.Queue.Invariant.{Unique, IsSound, alter-IsSound, SoundQueue}
use ainsel.Queue.Preserved.{
  observe-Sound, observe_each-Sound, enqueue_task-Sound, claim_task-Sound, ack_row-Keeps,
  nak_row-Keeps, ack_row-IsTask, nak_row-IsTask,
}

-- A call that changes the store, at its time.
pub data Call : Type 0 where
  inserts : Instant → NewEvent → Call
  marks : Instant → String → Call
  enqueues : Instant → NewTask → Call
  claims : Instant → String → Call
  acks : Instant → ℕ → Call
  naks : Instant → ℕ → ℕ → String → Call
  reaps : Instant → ℕ → Call

unfoldable pub apply_call : Queue → Call → Queue
apply_call q (inserts now evt) = insert_event q now evt
apply_call q (marks now id) = mark_routed q now id
apply_call q (enqueues now task) = (enqueue_task q now task).0
apply_call q (claims now agent) = (claim_task q now agent).0
apply_call q (acks now id) = ack_task q now id
apply_call q (naks now id delay message) = nak_task q now id delay message
apply_call q (reaps now timeout) = (reap_stale_claims q now timeout).0

abbrev pub empty_queue : Queue
empty_queue = record { events = []; tasks = []; next_id = 1; observed = []; notified = [] }

-- The calls, most recent first.
unfoldable pub run : List Call → Queue
run [] = empty_queue
run (c ∷ cs) = apply_call (run cs) c

apply_call-Sound : (c : Call) (q : Queue) → SoundQueue q → SoundQueue (apply_call q c)
unfolding apply_call insert_event mark_routed ack_task nak_task reap_stale_claims reap_row
apply_call-Sound (inserts now evt) q s = elim (Bool-cases (has_event evt.id q.events)) [
  | inl e ↦ rw (e, if◌then◌else◌) s
  | inr e ↦ rw (e, if◌then◌else◌) s
]
apply_call-Sound (marks now id) q s = s
apply_call-Sound (enqueues now task) q s = enqueue_task-Sound q now task s
apply_call-Sound (claims now agent) q s = claim_task-Sound q now agent s
apply_call-Sound (acks now id) q s = observe-Sound _ (agent_of id q.tasks) (
    alter-IsSound (with_id id) (ack_row now) (ack_row-Keeps now) q.next_id q.tasks
      (λ t m h hit. ack_row-IsTask now t h) s)
apply_call-Sound (naks now id delay message) q s = observe-Sound _ _ (
    alter-IsSound (with_id id) (nak_row now delay message) (nak_row-Keeps now delay message)
      q.next_id q.tasks (λ t m h hit. nak_row-IsTask now delay message t h) s)
apply_call-Sound (reaps now timeout) q s = observe_each-Sound [] _ _ (
    alter-IsSound (is_stale now timeout) (reap_row now) (nak_row-Keeps now _ _) q.next_id q.tasks
      (λ t m h hit. nak_row-IsTask now _ _ t h) s)

-- Whatever calls the store takes, at whatever times and in whatever order: no two tasks have one id
-- or are one event's delivery to one agent; every id comes from the sequence; no task was claimed
-- more often than its maximum; a pending task has attempts left, a claimed one was claimed at some
-- time, a completed one completed at some time, and a failed one has used all its attempts.
pub run-IsSound : (cs : List Call) → IsSound (run cs).next_id (run cs).tasks
unfolding run Unique
run-IsSound [] = record { fitting = tt; numbered = tt; unique = tt }
run-IsSound (c ∷ cs) = apply_call-Sound c (run cs) (run-IsSound cs)
