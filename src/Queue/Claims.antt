-- ===== src/Queue/Claims.antt =====
-- Which task `ClaimTask` of services/hub/internal/eventqueue/store.go hands out.
use mathlib.Core.Option.{some-injective, none-ne-some}
use ainsel.Prelude.{
  ℕ, ◌≤◌, ◌≡◌, ◌≢◌, refl, sym, ap, ◌∙◌, ◌⊎◌, inl, inr, true, false, List, [], ◌∷◌, Option, none,
  some, String, if◌then◌else◌, ◌==◌, nat_eq, string_eq, leb, All, Has, All-Has, arith, Bool-cases,
  Option-cases, subst,
}
use ainsel.Prelude.Time.{Instant}
use ainsel.Queue.Rows.{TaskRow, alter, is_pending}
use ainsel.Queue.{
  Queue, observe, is_ready, older, oldest_ready, claim_row, with_id, claim_found, claim_task,
}
use ainsel.Queue.Preserved.{oldest_ready-Has, pending_when_ready}

-- No ready task is older.
unfoldable pub IsOldest : Instant → String → TaskRow → List TaskRow → Type 0
IsOldest now agent t = All (λ u. is_ready now agent u ≡ true → t.created_at ≤ u.created_at)

oldest_ready-none :
    (now : Instant) (agent : String) (ts : List TaskRow)
    → oldest_ready now agent ts ≡ none
    → All (λ u. is_ready now agent u ≡ false) ts
unfolding oldest_ready
oldest_ready-none now agent [] e = tt
oldest_ready-none now agent (t ∷ ts) e = elim (Bool-cases (is_ready now agent t)) [
  | inl ready ↦ absurd (none-ne-some _ (sym (rw (ready, oldest_ready) at e)))
  | inr busy ↦ (busy, oldest_ready-none now agent ts (rw (busy, oldest_ready) at e))
]

older_than_all :
    (now : Instant) (agent : String) (ts : List TaskRow) (t v : TaskRow)
    → t.created_at ≤ v.created_at
    → IsOldest now agent v ts
    → IsOldest now agent t ts
unfolding IsOldest
older_than_all now agent [] t v h o = tt
older_than_all now agent (u ∷ ts) t v h o =
    (λ ready. omega (arith, h, o.0 ready), older_than_all now agent ts t v h o.1)

none_is_older :
    (now : Instant) (agent : String) (ts : List TaskRow) (t : TaskRow)
    → All (λ u. is_ready now agent u ≡ false) ts
    → IsOldest now agent t ts
unfolding IsOldest
none_is_older now agent [] t h = tt
none_is_older now agent (u ∷ ts) t h =
    (λ ready. absurd (cc (ready, h.0)), none_is_older now agent ts t h.1)

oldest_ready-IsOldest :
    (now : Instant) (agent : String) (ts : List TaskRow) (t : TaskRow)
    → oldest_ready now agent ts ≡ some t
    → IsOldest now agent t ts
unfolding oldest_ready older IsOldest
oldest_ready-IsOldest now agent [] t e = tt
oldest_ready-IsOldest now agent (u ∷ ts) t e = elim (Bool-cases (is_ready now agent u)) [
  | inr busy ↦ (
    λ ready. absurd (cc (ready, busy)),
    oldest_ready-IsOldest now agent ts t (rw (busy, oldest_ready) at e),
  )
  | inl ready ↦
      among (oldest_ready now agent ts) (some-injective _ _ (rw (ready, oldest_ready) at e))
        (λ f. none_is_older now agent ts u (oldest_ready-none now agent ts f))
        (λ v f. oldest_ready-IsOldest now agent ts v f)
]
  where
    among :
        (o : Option TaskRow)
        → older u o ≡ t
        → (o ≡ none → IsOldest now agent u ts)
        → ((v : TaskRow) → o ≡ some v → IsOldest now agent v ts)
        → (is_ready now agent u ≡ true → t.created_at ≤ u.created_at) × IsOldest now agent t ts
    among none e first rest =
        subst
          (λ (x : TaskRow).
            (is_ready now agent u ≡ true → x.created_at ≤ u.created_at) × IsOldest now agent x ts)
          e (λ r. omega arith, first refl)
    among (some v) e first rest = elim (Bool-cases (leb u.created_at v.created_at)) [
      | inl h ↦
          subst
            (λ (x : TaskRow).
              (is_ready now agent u ≡ true → x.created_at ≤ u.created_at) × IsOldest now agent x ts)
            (rw (h, older) at e)
            (λ r. omega arith, older_than_all now agent ts u v (ground arith) (rest v refl))
      | inr h ↦
          subst
            (λ (x : TaskRow).
              (is_ready now agent u ≡ true → x.created_at ≤ u.created_at) × IsOldest now agent x ts)
            (rw (h, older) at e) (λ r. ground arith, rest v refl)
    ]

pub claim_task-IsOldest :
    (q : Queue) (now : Instant) (agent : String)
    → ((claim_task q now agent ≡ (q, none)) × All (λ t. is_ready now agent t ≡ false) q.tasks)
      ⊎ ((t : TaskRow) × Has t q.tasks
          × (is_ready now agent t ≡ true)
          × IsOldest now agent t q.tasks
          × ((claim_task q now agent).1 ≡ some (claim_row now t))
          × ((claim_task q now agent).0.tasks
              ≡ alter (λ (u : TaskRow). u.id == t.id) (claim_row now) q.tasks))
unfolding claim_task claim_found with_id observe
claim_task-IsOldest q now agent = elim (Option-cases (oldest_ready now agent q.tasks)) [
  | inl e ↦ inl (rw (e, claim_found) refl, oldest_ready-none now agent q.tasks e)
  | inr (t, e) ↦
      let (member, ready) = oldest_ready-Has now agent q.tasks e in
      inr (
        t,
        member,
        ready,
        oldest_ready-IsOldest now agent q.tasks t e,
        rw (e, claim_found) refl,
        rw (e, claim_found) (ground arith),
      )
]

claimed_rows :
    (id : ℕ) (now : Instant) (ts : List TaskRow)
    → All (λ u. u.id ≡ id → is_pending u.status ≡ false) (alter (with_id id) (claim_row now) ts)
unfolding alter with_id claim_row is_pending
claimed_rows id now [] = tt
claimed_rows id now (t ∷ ts) = elim (Bool-cases (t.id == id)) [
  | inl e ↦ rw (e, if◌then◌else◌) (λ same. refl, claimed_rows id now ts)
  | inr e ↦
      rw (e, if◌then◌else◌)
        (λ same. absurd (cc (e, (nat_eq.beq_iff t.id id).1 same)), claimed_rows id now ts)
]

-- Two claims in a row, by whichever agents and at whichever times, never hand out one task.
pub claim_task-exclusive :
    (q : Queue) (now now' : Instant) (a b : String) {t u : TaskRow}
    → (claim_task q now a).1 ≡ some t
    → (claim_task (claim_task q now a).0 now' b).1 ≡ some u
    → t.id ≢ u.id
unfolding with_id claim_row
claim_task-exclusive q now now' a b {t} {u} first second same = elim (claim_task-IsOldest q now a) [
  | inl (e, _) ↦ absurd (none-ne-some _ (sym (ap (λ (r : Queue × Option TaskRow). r.1) e) ∙ first))
  | inr (x, mx, rx, ox, ex, stored) ↦ elim (claim_task-IsOldest (claim_task q now a).0 now' b) [
    | inl (e, _) ↦
        absurd (none-ne-some _ (sym (ap (λ (r : Queue × Option TaskRow). r.1) e) ∙ second))
    | inr (y, my, ry, oy, ey, _) ↦
        let tx = some-injective _ _ (sym ex ∙ first) in
        let uy = some-injective _ _ (sym ey ∙ second) in
        let ids : y.id ≡ x.id =
          ap (λ (r : TaskRow). r.id) uy ∙ sym same ∙ sym (ap (λ (r : TaskRow). r.id) tx) in
        let quiet = All-Has _ _ (claimed_rows x.id now q.tasks) (rw stored at my) ids in
        cc (quiet, pending_when_ready now' b y ry)
  ]
]
