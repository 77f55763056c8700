-- ===== src/Queue/Preserved.antt =====
-- That the statements of services/hub/internal/eventqueue/store.go keep a queue sound.
use mathlib.Core.Option.{some-injective, none-ne-some}
use ainsel.Prelude.{
  ℕ, suc, ◌<◌, ◌≤◌, ◌≡◌, ◌≢◌, refl, sym, ap, ◌∙◌, ◌⊎◌, inl, inr, Bool, true, false, List, [], ◌∷◌,
  ◌++◌, Option, none, some, String, if◌then◌else◌, ◌==◌, nat_eq, string_eq, leb, any, All, Has,
  All-Has, All-imp, arith, Bool-cases, Option-cases, subst,
}
use ainsel.Prelude.Dict.{lookup, insert}
use ainsel.Prelude.Time.{Instant}
use ainsel.Queue.Rows.{Status, pending, claimed, completed, failed, TaskRow, NewTask, is_pending}
use ainsel.Queue.{
  Queue, observe, same_delivery, new_row, notify_agent, store_task, enqueue_task, is_ready, older,
  oldest_ready, claim_row, with_id, claim_found, claim_task, ack_row, give_back, nak_row,
  observe_each, has_event,
}
use ainsel.Queue.Invariant.{Fits, IsTask, Differs, Unique, Keeps, alter-IsSound, SoundQueue}

pub observe-tasks : (q : Queue) (agent : String) → (observe q agent).tasks ≡ q.tasks
unfolding observe
observe-tasks q agent = ground arith

observe-next_id : (q : Queue) (agent : String) → (observe q agent).next_id ≡ q.next_id
unfolding observe
observe-next_id q agent = ground arith

pub observe-Sound : (q : Queue) (agent : String) → SoundQueue q → SoundQueue (observe q agent)
observe-Sound q agent s = rw (observe-tasks q agent, observe-next_id q agent) s

pub observe_each-Sound :
    (seen : List (String × Bool)) (ts : List TaskRow) (q : Queue)
    → SoundQueue q
    → SoundQueue (observe_each seen ts q)
unfolding observe_each
observe_each-Sound seen [] q s = s
observe_each-Sound seen (t ∷ ts) q s = elim (Option-cases (lookup t.agent_name seen)) [
  | inl e ↦
      rw (e, observe_each)
        (observe_each-Sound (insert t.agent_name true seen) ts (observe q t.agent_name)
          (observe-Sound q t.agent_name s))
  | inr (b, e) ↦ rw (e, observe_each) (observe_each-Sound seen ts q s)
]

-- Two rows of one id are one row.
pub Unique-id :
    (ts : List TaskRow) (t u : TaskRow) → Unique ts → Has t ts → Has u ts → t.id ≡ u.id → t ≡ u
unfolding Unique Differs
Unique-id [] t u h mt mu e = absurd mt
Unique-id (x ∷ ts) t u h (inl a) (inl b) e = sym a ∙ b
Unique-id (x ∷ ts) t u h (inl a) (inr m) e =
    absurd ((All-Has (Differs x) ts h.0 m).0 (ap (λ (r : TaskRow). r.id) a ∙ e))
Unique-id (x ∷ ts) t u h (inr m) (inl b) e =
    absurd ((All-Has (Differs x) ts h.0 m).0 (ap (λ (r : TaskRow). r.id) b ∙ sym e))
Unique-id (x ∷ ts) t u h (inr m) (inr n) e = Unique-id ts t u h.1 m n e

append-All {ℓ} :
    (P : TaskRow → Type ℓ) (ts : List TaskRow) (u : TaskRow) → All P ts → P u → All P (ts ++ u ∷ [])
append-All P [] u h p = (p, tt)
append-All P (t ∷ ts) u h p = (h.0, append-All P ts u h.1 p)

append-Unique :
    (ts : List TaskRow) (u : TaskRow)
    → Unique ts
    → All (λ t. Differs t u) ts
    → Unique (ts ++ u ∷ [])
unfolding Unique
append-Unique [] u h d = (tt, tt)
append-Unique (t ∷ ts) u h d = (append-All (Differs t) ts u h.0 d.0, append-Unique ts u h.1 d.1)

none_before :
    (task : NewTask) (t : TaskRow) (ts : List TaskRow)
    → any (same_delivery task) (t ∷ ts) ≡ false
    → ((t.event_id ≢ task.event_id) ⊎ (t.agent_name ≢ task.agent_name))
      × (any (same_delivery task) ts ≡ false)
unfolding same_delivery
none_before task t ts e = elim (Bool-cases (t.event_id == task.event_id)) [
  | inl a ↦ elim (Bool-cases (t.agent_name == task.agent_name)) [
    | inl b ↦ absurd (ground arith)
    | inr b ↦
        (inr (λ s. cc (b, (string_eq.beq_iff t.agent_name task.agent_name).1 s)), ground arith)
  ]
  | inr a ↦ (inl (λ s. cc (a, (string_eq.beq_iff t.event_id task.event_id).1 s)), ground arith)
]

-- A row that is not the delivery, with an id from before, is another task.
new_row-Differs :
    (n : ℕ) (now : Instant) (task : NewTask) (ts : List TaskRow)
    → All (λ t. t.id < n) ts
    → any (same_delivery task) ts ≡ false
    → All (λ t. Differs t (new_row n now task)) ts
unfolding Differs new_row same_delivery
new_row-Differs n now task [] h e = tt
new_row-Differs n now task (t ∷ ts) h e =
    let (first, rest) = none_before task t ts e in
    ((λ s. omega (arith, h.0, s), first), new_row-Differs n now task ts h.1 rest)

pub store_task-Sound :
    (q : Queue) (now : Instant) (task : NewTask) → SoundQueue q → SoundQueue (store_task q now task)
unfolding store_task IsTask Fits new_row
store_task-Sound q now task s = elim (Bool-cases (any (same_delivery task) q.tasks)) [
  | inl e ↦
      rw (e, if◌then◌else◌)
        (record {
          fitting = s.fitting;
          numbered = All-imp q.tasks (λ t h. omega (arith, h)) s.numbered;
          unique = s.unique;
        })
  | inr e ↦
      rw (e, if◌then◌else◌)
        (record {
          fitting =
              append-All IsTask q.tasks (new_row q.next_id now task) s.fitting
                (omega arith, omega arith);
          numbered =
              append-All _ q.tasks (new_row q.next_id now task)
                (All-imp q.tasks (λ t h. omega (arith, h)) s.numbered) (omega arith);
          unique =
              append-Unique q.tasks (new_row q.next_id now task) s.unique
                (new_row-Differs q.next_id now task q.tasks s.numbered e);
        })
]

pub oldest_ready-Has :
    (now : Instant) (agent : String) (ts : List TaskRow) {t : TaskRow}
    → oldest_ready now agent ts ≡ some t
    → Has t ts × (is_ready now agent t ≡ true)
unfolding oldest_ready older
oldest_ready-Has now agent [] e = absurd (none-ne-some _ e)
oldest_ready-Has now agent (u ∷ ts) {t} e = elim (Bool-cases (is_ready now agent u)) [
  | inl ready ↦
      older_one now agent u (oldest_ready now agent ts) ready
        (λ v f. oldest_ready-Has now agent ts f)
        (some-injective _ _ (rw (ready, oldest_ready) at e))
  | inr busy ↦
      let (m, r) = oldest_ready-Has now agent ts (rw (busy, oldest_ready) at e) in (inr m, r)
]
  where
    older_one :
        (now : Instant) (agent : String) (u : TaskRow) (o : Option TaskRow)
        → is_ready now agent u ≡ true
        → ((v : TaskRow) → o ≡ some v → Has v ts × (is_ready now agent v ≡ true))
        → older u o ≡ t
        → Has t (u ∷ ts) × (is_ready now agent t ≡ true)
    older_one now agent u none ready rest e = (inl e, rw⁻¹ e ready)
    older_one now agent u (some v) ready rest e =
        elim (Bool-cases (leb u.created_at v.created_at)) [
          | inl first ↦ let same = rw (first, older) at e in (inl same, rw⁻¹ same ready)
          | inr later ↦
              let same = rw (later, older) at e in
              let (m, r) =
                subst (λ (x : TaskRow). Has x ts × (is_ready now agent x ≡ true)) same
                  (rest v refl) in
              (inr m, r)
        ]

pub claim_row-Keeps : (now : Instant) → Keeps (claim_row now)
unfolding Keeps claim_row
claim_row-Keeps now t = (refl, refl, refl)

pub ack_row-Keeps : (now : Instant) → Keeps (ack_row now)
unfolding Keeps ack_row
ack_row-Keeps now t = (refl, refl, refl)

pub nak_row-Keeps :
    (now : Instant) (delay : ℕ) (message : String) → Keeps (nak_row now delay message)
unfolding Keeps nak_row
nak_row-Keeps now delay message t = (refl, refl, refl)

claim_row-IsTask :
    (now : Instant) (t : TaskRow) → is_pending t.status ≡ true → IsTask t → IsTask (claim_row now t)
unfolding claim_row IsTask Fits is_pending
claim_row-IsTask now t p h = only_pending t.status p h.1
  where
    only_pending :
        (s : Status)
        → is_pending s ≡ true
        → Fits s t
        → (suc t.attempts ≤ t.max_attempts)
          × ((1 ≤ suc t.attempts) × ((at : Instant) × (some now ≡ some at)))
    only_pending pending p h = (omega (arith, h), (omega arith, (now, refl)))
    only_pending claimed p h = absurd (ground arith)
    only_pending completed p h = absurd (ground arith)
    only_pending failed p h = absurd (ground arith)

pub ack_row-IsTask : (now : Instant) (t : TaskRow) → IsTask t → IsTask (ack_row now t)
unfolding ack_row IsTask Fits
ack_row-IsTask now t h = (h.0, (now, refl))

pub nak_row-IsTask :
    (now : Instant) (delay : ℕ) (message : String) (t : TaskRow)
    → IsTask t
    → IsTask (nak_row now delay message t)
unfolding nak_row give_back IsTask Fits
nak_row-IsTask now delay message t h = elim (Bool-cases (leb t.max_attempts t.attempts)) [
  | inl spent ↦ (h.0, rw (spent, if◌then◌else◌) (ground arith))
  | inr left ↦ (h.0, rw (left, if◌then◌else◌) (ground arith))
]

pub pending_when_ready :
    (now : Instant) (agent : String) (t : TaskRow)
    → is_ready now agent t ≡ true
    → is_pending t.status ≡ true
unfolding is_ready
pending_when_ready now agent t h = ground arith

pub claim_task-Sound :
    (q : Queue) (now : Instant) (agent : String)
    → SoundQueue q
    → SoundQueue (claim_task q now agent).0
unfolding claim_task claim_found with_id
claim_task-Sound q now agent s = elim (Option-cases (oldest_ready now agent q.tasks)) [
  | inl e ↦ rw (e, claim_found) s
  | inr (t, e) ↦
      let (member, ready) = oldest_ready-Has now agent q.tasks e in
      rw (e, claim_found)
        (observe-Sound _ agent (
          alter-IsSound (with_id t.id) (claim_row now) (claim_row-Keeps now) q.next_id q.tasks
            (λ u m h hit.
              let same =
                Unique-id q.tasks t u s.unique member m (sym ((nat_eq.beq_iff u.id t.id).0 hit)) in
              claim_row-IsTask now u
                (subst (λ (x : TaskRow). is_pending x.status ≡ true) same
                  (pending_when_ready now agent t ready))
                h)
            s))
]

pub enqueue_task-Sound :
    (q : Queue) (now : Instant) (task : NewTask)
    → SoundQueue q
    → SoundQueue (enqueue_task q now task).0
unfolding enqueue_task notify_agent
enqueue_task-Sound q now task s = elim (Bool-cases (has_event task.event_id q.events)) [
  | inl e ↦
      rw (e, if◌then◌else◌)
        (observe-Sound (store_task q now task) task.agent_name (store_task-Sound q now task s))
  | inr e ↦
      rw (e, if◌then◌else◌)
        (record {
          fitting = s.fitting;
          numbered = All-imp q.tasks (λ t h. omega (arith, h)) s.numbered;
          unique = s.unique;
        })
]
