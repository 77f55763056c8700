-- ===== src/Queue/Counts.antt =====
-- How the statements of services/hub/internal/eventqueue/store.go change an agent's counts.
use ainsel.Prelude.{
  ℕ, ◌+◌, ◌≡◌, ◌≢◌, refl, sym, ap, ap₂, ◌∙◌, ◌⊎◌, inl, inr, Bool, true, false, ◌&&◌, List, [], ◌∷◌,
  ◌++◌, String, if◌then◌else◌, ◌==◌, nat_eq, string_eq, ==_false, any, Has, arith, Bool-cases,
}
use ainsel.Prelude.Time.{Instant}
use ainsel.Queue.Rows.{Status, TaskRow, NewTask, alter, count_rows, is_pending, is_claimed}
use ainsel.Queue.{
  Queue, observe, same_delivery, new_row, store_task, with_id, agent_of, queue_counts,
}
use ainsel.Queue.Invariant.{Unique, Keeps}
use ainsel.Queue.Preserved.{observe-tasks, Unique-id}

module _ (a : String) where
  -- How many of the rows with a status count for the agent.
  abbrev pub count_of : (Status → Bool) → List TaskRow → ℕ
  count_of g = count_rows (λ (t : TaskRow). t.agent_name == a && g t.status)

  abbrev pub SameCounts : List TaskRow → List TaskRow → Type 0
  SameCounts ts us = (g : Status → Bool) → count_of g ts ≡ count_of g us

  other_agent :
      (g : Status → Bool) (t u : TaskRow)
      → t.agent_name ≡ u.agent_name
      → (u.agent_name == a) ≡ false
      → (t.agent_name == a && g t.status) ≡ (u.agent_name == a && g u.status)
  other_agent g t u e miss = rw (e, miss) refl

  pub alter-SameCounts :
      (p : TaskRow → Bool) (f : TaskRow → TaskRow) (ts : List TaskRow)
      → Keeps f
      → ((t : TaskRow) → Has t ts → p t ≡ true → (t.agent_name == a) ≡ false)
      → SameCounts (alter p f ts) ts
  unfolding count_rows alter Keeps
  alter-SameCounts p f [] keeps others g = refl
  alter-SameCounts p f (t ∷ ts) keeps others g =
      let rest = alter-SameCounts p f ts keeps (λ u m. others u (inr m)) g in
      elim (Bool-cases (p t)) [
        | inl hit ↦
            rw (hit, if◌then◌else◌)
              (ap₂ ◌+◌
                (ap (λ (b : Bool). if b then 1 else 0)
                  (other_agent g (f t) t ((keeps t).2) (others t (inl refl) hit)))
                rest)
        | inr miss ↦ rw (miss, if◌then◌else◌) (ap₂ ◌+◌ refl rest)
      ]

  append-SameCounts :
      (ts : List TaskRow) (u : TaskRow) → (u.agent_name == a) ≡ false → SameCounts (ts ++ u ∷ []) ts
  unfolding count_rows
  append-SameCounts [] u miss g = rw miss (omega arith)
  append-SameCounts (t ∷ ts) u miss g = ap₂ ◌+◌ refl (append-SameCounts ts u miss g)

  pub store_task-SameCounts :
      (q : Queue) (now : Instant) (task : NewTask)
      → (task.agent_name == a) ≡ false
      → SameCounts (store_task q now task).tasks q.tasks
  unfolding store_task new_row
  store_task-SameCounts q now task miss g = elim (Bool-cases (any (same_delivery task) q.tasks)) [
    | inl e ↦ rw (e, if◌then◌else◌) refl
    | inr e ↦ rw (e, if◌then◌else◌) (append-SameCounts q.tasks (new_row q.next_id now task) miss g)
  ]

  -- The agent was reported, or its counts are as before.
  abbrev pub IsReported : Queue → Queue → Type 0
  IsReported before after = Has a after.observed ⊎ (queue_counts after a ≡ queue_counts before a)

  pub same_depth :
      (before after : Queue)
      → SameCounts after.tasks before.tasks
      → queue_counts after a ≡ queue_counts before a
  unfolding queue_counts
  same_depth before after h = rw (h is_pending, h is_claimed) refl

  pub observed_agent :
      (q : Queue) (agent : String) → agent ≡ a → a ≢ "" → Has a (observe q agent).observed
  unfolding observe
  observed_agent q agent e named =
      let miss = ==_false agent "" (λ s. named (sym e ∙ s)) in rw (miss, if◌then◌else◌) (inl e)

  -- An update that reports one agent, and touches rows of no other.
  pub report_one :
      (q changed : Queue) (agent : String)
      → a ≢ ""
      → ((agent == a) ≡ false → SameCounts changed.tasks q.tasks)
      → IsReported q (observe changed agent)
  report_one q changed agent named others = elim (Bool-cases (agent == a)) [
    | inl e ↦ inl (observed_agent changed agent ((string_eq.beq_iff agent a).0 e) named)
    | inr e ↦
        inr (same_depth q (observe changed agent) (rw (observe-tasks changed agent) (others e)))
  ]

  pub agent_of-Has :
      (ts : List TaskRow) (t : TaskRow) (id : ℕ)
      → Unique ts
      → Has t ts
      → (t.id == id) ≡ true
      → agent_of id ts ≡ t.agent_name
  unfolding agent_of with_id Unique
  agent_of-Has [] t id u m h = absurd m
  agent_of-Has (x ∷ ts) t id u m h = elim (Bool-cases (x.id == id)) [
    | inl hit ↦
        rw (hit, if◌then◌else◌)
          (ap (λ (r : TaskRow). r.agent_name)
            (Unique-id (x ∷ ts) x t u (inl refl) m
              ((nat_eq.beq_iff x.id id).0 hit ∙ sym ((nat_eq.beq_iff t.id id).0 h))))
    | inr miss ↦ elim m [
      | inl e ↦ absurd (cc (miss, h, ap (λ (r : TaskRow). r.id == id) e))
      | inr later ↦ rw (miss, if◌then◌else◌) (agent_of-Has ts t id u.1 later h)
    ]
  ]
