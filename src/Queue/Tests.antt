-- ===== src/Queue/Tests.antt =====
-- Runs of the task store, and the theorems about it at concrete queues.
use ainsel.Prelude.{ℕ, ◌≡◌, ◌≢◌, refl, true, List, [], ◌∷◌, none, some, nat_eq, Has, inl, arith}
use ainsel.Queue.Rows.{Status, pending, completed, TaskRow, NewTask, NewEvent, alter}
use ainsel.Queue.{Queue, claim_task, claim_row, is_ready, nak_task, oldest_ready}
use ainsel.Queue.Invariant.{IsSound}
use ainsel.Queue.Calls.{Call, inserts, enqueues, claims, acks, naks, apply_call, run, run-IsSound}
use ainsel.Queue.Claims.{claim_task-exclusive}
use ainsel.Queue.Counts.{IsReported}
use ainsel.Queue.Signals.{apply_call-IsReported}
use ainsel.Queue.Redelivery.{nak_task-revives}

abbrev row : ℕ → Status → ℕ → ℕ → TaskRow
row id status attempts created = record {
  id = id;
  event_id = "evt";
  agent_name = "reviewer";
  trigger_name = "on-push";
  invocation_id = "";
  headers = "{}";
  payload = "{}";
  status = status;
  attempts = attempts;
  max_attempts = 10;
  retry_after = none;
  claimed_at = none;
  completed_at = none;
  error = "";
  created_at = created;
}

abbrev two_waiting : Queue
two_waiting = record {
  events = [];
  tasks = row 1 pending 0 30 ∷ row 2 pending 0 20 ∷ [];
  next_id = 3;
  observed = [];
  notified = [];
}

abbrev one_done : Queue
one_done = record {
  events = [];
  tasks = row 1 completed 1 30 ∷ [];
  next_id = 2;
  observed = [];
  notified = [];
}

abbrev push_event : NewEvent
push_event = record {
  id = "evt";
  connector = "forge";
  channel_id = "";
  headers = "{}";
  payload = "{}";
  raw = "";
}

abbrev push_task : NewTask
push_task = record {
  event_id = "evt";
  agent_name = "reviewer";
  trigger_name = "on-push";
  invocation_id = "";
  headers = "{}";
  payload = "{}";
}

-- Most recent first.
abbrev workday : List Call
workday =
    acks 90 1
    ∷ claims 80 "reviewer"
    ∷ naks 70 1 10 "busy"
    ∷ claims 60 "reviewer"
    ∷ enqueues 50 push_task
    ∷ enqueues 50 push_task
    ∷ inserts 40 push_event
    ∷ []

run-IsSound_example : IsSound (run workday).next_id (run workday).tasks
run-IsSound_example = run-IsSound workday

-- The older task goes first.
claims_in_order :
    (claim_task two_waiting 40 "reviewer").1 ≡ some (claim_row 40 (row 2 pending 0 20))
unfolding claim_task oldest_ready
claims_in_order = refl

claim_task-exclusive_example :
    (claim_row 40 (row 2 pending 0 20)).id ≢ (claim_row 41 (row 1 pending 0 30)).id
unfolding claim_task claim_row alter oldest_ready
claim_task-exclusive_example =
    claim_task-exclusive two_waiting 40 41 "reviewer" "reviewer"
      {t = claim_row 40 (row 2 pending 0 20)} {u = claim_row 41 (row 1 pending 0 30)} refl refl

nak_task-revives_example :
    (u : TaskRow) × Has u (nak_task one_done 50 1 10 "late").tasks
    × (u.id ≡ 1)
    × (u.status ≡ pending)
    × (is_ready 60 "reviewer" u ≡ true)
nak_task-revives_example =
    nak_task-revives one_done 50 60 10 "late" (row 1 completed 1 30) (inl refl) refl (omega arith)
      (omega arith)

-- One task waits, and the earlier reports were read.
abbrev one_waiting : Queue
one_waiting = record (run (enqueues 50 push_task ∷ inserts 40 push_event ∷ [])) { observed = [] }

apply_call-IsReported_example :
    IsReported "reviewer" one_waiting (apply_call one_waiting (claims 60 "reviewer"))
apply_call-IsReported_example =
    apply_call-IsReported "reviewer" (claims 60 "reviewer") one_waiting
      (run-IsSound (enqueues 50 push_task ∷ inserts 40 push_event ∷ [])) (λ e. cc e) refl
