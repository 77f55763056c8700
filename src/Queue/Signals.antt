-- ===== src/Queue/Signals.antt =====
-- That the queue observer of services/hub/internal/eventqueue/store.go hears of every change of an
-- agent's counts.
use ainsel.Prelude.{
  ℕ, ◌≡◌, ◌≢◌, refl, sym, ap, ◌∙◌, ◌⊎◌, inl, inr, Bool, true, false, List, [], ◌∷◌, none, String,
  if◌then◌else◌, ◌==◌, nat_eq, string_eq, keep, map, Any, Has, arith, Bool-cases, Option-cases,
  subst,
}
use ainsel.Prelude.Dict.{lookup, insert, lookup-insert}
use ainsel.Prelude.Time.{Instant}
use ainsel.Queue.Rows.{TaskRow, NewTask, alter}
use ainsel.Queue.{
  Queue, observe, insert_event, mark_routed, has_event, notify_agent, store_task, enqueue_task,
  oldest_ready, is_ready, claim_row, with_id, claim_found, claim_task, agent_of, ack_row, ack_task,
  nak_row, nak_task, is_stale, reap_row, observe_each, reap_stale_claims, queue_counts,
}
use ainsel.Queue.Invariant.{Keeps, SoundQueue}
use ainsel.Queue.Calls.{Call, inserts, marks, enqueues, claims, acks, naks, reaps, apply_call}
use ainsel.Queue.Preserved.{
  observe-tasks, oldest_ready-Has, Unique-id, claim_row-Keeps, ack_row-Keeps, nak_row-Keeps,
}
use ainsel.Queue.Counts.{
  IsReported, alter-SameCounts, store_task-SameCounts, same_depth, observed_agent, report_one,
  agent_of-Has,
}

module _ (a : String) where
  -- The loop over the reaped rows reports each of their agents.
  reported-keeps :
      (seen : List (String × Bool)) (ts : List TaskRow) (q : Queue)
      → Has a q.observed
      → Has a (observe_each seen ts q).observed
  unfolding observe_each observe
  reported-keeps seen [] q h = h
  reported-keeps seen (t ∷ ts) q h = elim (Option-cases (lookup t.agent_name seen)) [
    | inl e ↦
        rw (e, observe_each)
          (reported-keeps (insert t.agent_name true seen) ts (observe q t.agent_name)
            (elim (Bool-cases (t.agent_name == "")) [
              | inl blank ↦ rw (blank, if◌then◌else◌) h
              | inr named ↦ rw (named, if◌then◌else◌) (inr h)
            ]))
    | inr (b, e) ↦ rw (e, observe_each) (reported-keeps seen ts q h)
  ]

  reported_first :
      (seen : List (String × Bool)) (t : TaskRow) (ts : List TaskRow) (q : Queue)
      → a ≢ ""
      → lookup a seen ≡ none
      → t.agent_name ≡ a
      → Has a (observe_each seen (t ∷ ts) q).observed
  unfolding observe_each
  reported_first seen t ts q named fresh e =
      let here : lookup t.agent_name seen ≡ none = rw e fresh in
      rw (here, observe_each)
        (reported-keeps (insert t.agent_name true seen) ts (observe q t.agent_name)
          (observed_agent a q t.agent_name e named))

  reported :
      (seen : List (String × Bool)) (ts : List TaskRow) (q : Queue)
      → a ≢ ""
      → lookup a seen ≡ none
      → Any (λ t. t.agent_name ≡ a) ts
      → Has a (observe_each seen ts q).observed
  unfolding observe_each
  reported seen [] q named fresh h = absurd h
  reported seen (t ∷ ts) q named fresh (inl e) = reported_first seen t ts q named fresh e
  reported seen (t ∷ ts) q named fresh (inr h) = elim (Bool-cases (t.agent_name == a)) [
    | inl same ↦ reported_first seen t ts q named fresh ((string_eq.beq_iff t.agent_name a).0 same)
    | inr other ↦ elim (Option-cases (lookup t.agent_name seen)) [
      | inl e ↦
          rw (e, observe_each)
            (reported (insert t.agent_name true seen) ts (observe q t.agent_name) named
              (rw (lookup-insert, other, if◌then◌else◌) fresh) h)
      | inr (b, e) ↦ rw (e, observe_each) (reported seen ts q named fresh h)
    ]
  ]

  observe_each-tasks :
      (seen : List (String × Bool)) (ts : List TaskRow) (q : Queue)
      → (observe_each seen ts q).tasks ≡ q.tasks
  unfolding observe_each
  observe_each-tasks seen [] q = refl
  observe_each-tasks seen (t ∷ ts) q = elim (Option-cases (lookup t.agent_name seen)) [
    | inl e ↦
        rw (e, observe_each)
          (observe_each-tasks (insert t.agent_name true seen) ts (observe q t.agent_name)
            ∙ observe-tasks q t.agent_name)
    | inr (b, e) ↦ rw (e, observe_each) (observe_each-tasks seen ts q)
  ]

  -- Some kept row is of the agent, or no kept row is.
  kept_or_none :
      (p : TaskRow → Bool) (f : TaskRow → TaskRow) (ts : List TaskRow)
      → Keeps f
      → Any (λ t. t.agent_name ≡ a) (map f (keep p ts))
        ⊎ ((t : TaskRow) → Has t ts → p t ≡ true → (t.agent_name == a) ≡ false)
  unfolding Keeps
  kept_or_none p f [] keeps = inr (λ t m h. absurd m)
  kept_or_none p f (x ∷ ts) keeps = elim (Bool-cases (p x)) [
    | inl hit ↦ elim (Bool-cases (x.agent_name == a)) [
      | inl same ↦
          inl (
            rw (hit, if◌then◌else◌) (inl ((keeps x).2 ∙ (string_eq.beq_iff x.agent_name a).0 same)))
      | inr other ↦ elim (kept_or_none p f ts keeps) [
        | inl some_ ↦ inl (rw (hit, if◌then◌else◌) (inr some_))
        | inr none_ ↦ inr (λ t m h. elim m [
          | inl e ↦ subst (λ (r : TaskRow). (r.agent_name == a) ≡ false) e other
          | inr later ↦ none_ t later h
        ])
      ]
    ]
    | inr miss ↦ elim (kept_or_none p f ts keeps) [
      | inl some_ ↦ inl (rw (miss, if◌then◌else◌) some_)
      | inr none_ ↦
          inr (λ t m h. elim m [
            | inl e ↦ absurd (cc (miss, h, ap p e))
            | inr later ↦ none_ t later h
          ])
    ]
  ]

agent_when_ready :
    (now : Instant) (agent : String) (t : TaskRow)
    → is_ready now agent t ≡ true
    → t.agent_name ≡ agent
unfolding is_ready
agent_when_ready now agent t h = (string_eq.beq_iff t.agent_name agent).0 (ground arith)

agent_of-alter :
    (id : ℕ) (f : TaskRow → TaskRow) (ts : List TaskRow)
    → Keeps f
    → agent_of id (alter (with_id id) f ts) ≡ agent_of id ts
unfolding agent_of alter with_id Keeps
agent_of-alter id f [] keeps = refl
agent_of-alter id f (t ∷ ts) keeps = elim (Bool-cases (t.id == id)) [
  | inl e ↦ rw (e, if◌then◌else◌, (keeps t).0, e) ((keeps t).2)
  | inr e ↦ rw (e, if◌then◌else◌, e) (agent_of-alter id f ts keeps)
]

module _ (a : String) where
  enqueue_task-IsReported :
      (q : Queue) (now : Instant) (task : NewTask)
      → a ≢ ""
      → IsReported a q (enqueue_task q now task).0
  unfolding enqueue_task notify_agent queue_counts
  enqueue_task-IsReported q now task named = elim (Bool-cases (has_event task.event_id q.events)) [
    | inl e ↦
        rw (e, if◌then◌else◌)
          (report_one a q (store_task q now task) task.agent_name named
            (λ miss. store_task-SameCounts a q now task miss))
    | inr e ↦ rw (e, if◌then◌else◌) (inr refl)
  ]

  claim_task-IsReported :
      (q : Queue) (now : Instant) (agent : String)
      → SoundQueue q
      → a ≢ ""
      → IsReported a q (claim_task q now agent).0
  unfolding claim_task claim_found with_id
  claim_task-IsReported q now agent s named = elim (Option-cases (oldest_ready now agent q.tasks)) [
    | inl e ↦ rw (e, claim_found) (inr refl)
    | inr (t, e) ↦
        let (member, ready) = oldest_ready-Has now agent q.tasks e in
        rw (e, claim_found)
          (report_one a q _ agent named (λ miss.
            alter-SameCounts a (with_id t.id) (claim_row now) q.tasks (claim_row-Keeps now)
              (λ u m hit.
                let same =
                  Unique-id q.tasks t u s.unique member m
                    (sym ((nat_eq.beq_iff u.id t.id).0 hit)) in
                subst (λ (x : TaskRow). (x.agent_name == a) ≡ false) same
                  (rw (agent_when_ready now agent t ready) miss))))
  ]

  ack_task-IsReported :
      (q : Queue) (now : Instant) (id : ℕ)
      → SoundQueue q
      → a ≢ ""
      → IsReported a q (ack_task q now id)
  unfolding ack_task with_id
  ack_task-IsReported q now id s named = report_one a q _ (agent_of id q.tasks) named (λ miss.
      alter-SameCounts a (with_id id) (ack_row now) q.tasks (ack_row-Keeps now)
        (λ u m hit. rw⁻¹ (agent_of-Has a q.tasks u id s.unique m hit) miss))

  nak_task-IsReported :
      (q : Queue) (now : Instant) (id delay : ℕ) (message : String)
      → SoundQueue q
      → a ≢ ""
      → IsReported a q (nak_task q now id delay message)
  unfolding nak_task with_id
  nak_task-IsReported q now id delay message s named = report_one a q _ _ named (λ miss.
      alter-SameCounts a (with_id id) (nak_row now delay message) q.tasks
        (nak_row-Keeps now delay message)
        (λ u m hit. rw⁻¹ (agent_of-Has a q.tasks u id s.unique m hit) (
          rw
            (agent_of-alter id (nak_row now delay message) q.tasks
              (nak_row-Keeps now delay message))
            at miss)))

  reap-IsReported :
      (q : Queue) (now : Instant) (timeout : ℕ)
      → a ≢ ""
      → IsReported a q (reap_stale_claims q now timeout).0
  unfolding reap_stale_claims reap_row lookup
  reap-IsReported q now timeout named =
      elim (kept_or_none a (is_stale now timeout) (reap_row now) q.tasks (nak_row-Keeps now _ _)) [
        | inl some_ ↦ inl (reported a [] _ _ named refl some_)
        | inr none_ ↦ inr (
            same_depth a q _ (
              rw (observe_each-tasks a [] _ _) (
                alter-SameCounts a (is_stale now timeout) (reap_row now) q.tasks
                  (nak_row-Keeps now _ _) none_)))
      ]

-- The operator is told of all work. Whatever call a sound queue takes, an agent with a name is
-- reported to the observer during the call, or its numbers of pending and of claimed tasks are the
-- same after the call as before. (The list of reports is empty when the call begins.)
pub apply_call-IsReported :
    (a : String) (c : Call) (q : Queue)
    → SoundQueue q
    → a ≢ ""
    → q.observed ≡ []
    → IsReported a q (apply_call q c)
unfolding apply_call insert_event mark_routed
apply_call-IsReported a (inserts now evt) q s named clean =
    inr (same_depth a q (insert_event q now evt) (λ g. ground arith))
apply_call-IsReported a (marks now id) q s named clean =
    inr (same_depth a q (mark_routed q now id) (λ g. refl))
apply_call-IsReported a (enqueues now task) q s named clean =
    enqueue_task-IsReported a q now task named
apply_call-IsReported a (claims now agent) q s named clean =
    claim_task-IsReported a q now agent s named
apply_call-IsReported a (acks now id) q s named clean = ack_task-IsReported a q now id s named
apply_call-IsReported a (naks now id delay message) q s named clean =
    nak_task-IsReported a q now id delay message s named
apply_call-IsReported a (reaps now timeout) q s named clean = reap-IsReported a q now timeout named
