-- ===== src/Queue/Invariant.antt =====
-- What every task of services/hub/internal/eventqueue/store.go satisfies at any time.
use ainsel.Prelude.{
  ℕ, ◌<◌, ◌≤◌, ◌≡◌, ◌≢◌, refl, ◌⊎◌, inl, inr, Bool, true, List, [], ◌∷◌, some, nat_eq, string_eq,
  All, Has, Bool-cases,
}
use ainsel.Prelude.Time.{Instant}
use ainsel.Queue.{Queue}
use ainsel.Queue.Rows.{Status, pending, claimed, completed, failed, TaskRow, alter}

-- What a status says of the attempts and the stamps of its task.
unfoldable pub Fits : Status → TaskRow → Type 0
Fits pending t = t.attempts < t.max_attempts
Fits claimed t = (1 ≤ t.attempts) × ((at : Instant) × (t.claimed_at ≡ some at))
Fits completed t = (at : Instant) × (t.completed_at ≡ some at)
Fits failed t = t.max_attempts ≤ t.attempts

unfoldable pub IsTask : TaskRow → Type 0
IsTask t = (t.attempts ≤ t.max_attempts) × Fits t.status t

-- Two rows are two tasks: neither the id nor the delivery is shared.
unfoldable pub Differs : TaskRow → TaskRow → Type 0
Differs t u = (t.id ≢ u.id) × ((t.event_id ≢ u.event_id) ⊎ (t.agent_name ≢ u.agent_name))

unfoldable pub Unique : List TaskRow → Type 0
Unique [] = Unit
Unique (t ∷ ts) = All (Differs t) ts × Unique ts

-- The tasks of a queue: each fits its status, ids come from the sequence, and no task is twice.
pub record IsSound (next_id : ℕ) (tasks : List TaskRow) : Type 0 where
  pub fitting : All IsTask tasks
  pub numbered : All (λ t. t.id < next_id) tasks
  pub unique : Unique tasks

abbrev pub SoundQueue : Queue → Type 0
SoundQueue q = IsSound q.next_id q.tasks

-- An update that leaves the key columns alone.
unfoldable pub Keeps : (TaskRow → TaskRow) → Type 0
Keeps f =
    (t : TaskRow)
    → ((f t).id ≡ t.id) × ((f t).event_id ≡ t.event_id) × ((f t).agent_name ≡ t.agent_name)

module _ (p : TaskRow → Bool) (f : TaskRow → TaskRow) (keeps : Keeps f) where
  -- A predicate of the key columns survives the update.
  pub alter-All {ℓ} :
      (P : TaskRow → Type ℓ) (ts : List TaskRow)
      → ((t : TaskRow) → Has t ts → P t → p t ≡ true → P (f t))
      → All P ts
      → All P (alter p f ts)
  unfolding alter
  alter-All P [] step h = tt
  alter-All P (t ∷ ts) step h =
      let rest = alter-All P ts (λ u m. step u (inr m)) h.1 in
      elim (Bool-cases (p t)) [
        | inl e ↦ rw (e, alter) (step t (inl refl) h.0 e, rest)
        | inr e ↦ rw (e, alter) (h.0, rest)
      ]

  Differs-left : (t u : TaskRow) → Differs t u → Differs (f t) u
  unfolding Differs Keeps
  Differs-left t u h = let (i, e, a) = keeps t in rw (i, e, a) h

  Differs-right : (t u : TaskRow) → Differs t u → Differs t (f u)
  unfolding Differs Keeps
  Differs-right t u h = let (i, e, a) = keeps u in rw (i, e, a) h

  alter-Unique : (ts : List TaskRow) → Unique ts → Unique (alter p f ts)
  unfolding Unique alter
  alter-Unique [] h = tt
  alter-Unique (t ∷ ts) h =
      let rest = alter-Unique ts h.1 in
      elim (Bool-cases (p t)) [
        | inl e ↦
            rw (e, alter)
              (
                alter-All (Differs (f t)) ts (λ u m d hit. Differs-right (f t) u d)
                    (All-left t ts h.0),
                rest,
              )
        | inr e ↦
            rw (e, alter) (alter-All (Differs t) ts (λ u m d hit. Differs-right t u d) h.0, rest)
      ]
    where
      All-left : (t : TaskRow) (us : List TaskRow) → All (Differs t) us → All (Differs (f t)) us
      All-left t [] h = tt
      All-left t (u ∷ us) h = (Differs-left t u h.0, All-left t us h.1)

  pub alter-IsSound :
      (n : ℕ) (ts : List TaskRow)
      → ((t : TaskRow) → Has t ts → IsTask t → p t ≡ true → IsTask (f t))
      → IsSound n ts
      → IsSound n (alter p f ts)
  unfolding Keeps
  alter-IsSound n ts step s = record {
    fitting = alter-All IsTask ts step s.fitting;
    numbered = alter-All (λ t. t.id < n) ts (λ t m h hit. rw ((keeps t).0) h) s.numbered;
    unique = alter-Unique ts s.unique;
  }
