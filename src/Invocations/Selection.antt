-- ===== src/Invocations/Selection.antt =====
-- What the filters of services/hub/internal/invocations/store.go select, stated field by field, and
-- what the loop of `ListWithTotal` collects.
use mathlib.Core.Option.{none-ne-some, some-injective}
use ainsel.Prelude.{
  ◌≤◌, ◌<◌, ◌≡◌, ◌↔◌, refl, sym, subst, ◌⊎◌, inl, inr, Bool, true, false, not, ◌&&◌, ◌||◌, List, [],
  ◌∷◌, some, String, if◌then◌else◌, ◌==◌, string_eq, ltb, arith, any_found, any_finds, ==_refl,
  Bool-cases, Option-cases, Has,
}
use ainsel.Prelude.Dict.{lookup}
use ainsel.Prelude.Time.{Instant, is_zero_time}
use ainsel.Invocations.{Invocation, ListOptions, selects, unless_empty, among, keep_found, matching}

-- A field restricts nothing where it is empty, and else wants its own value.
abbrev Wants : String → String → Type 0
Wants wanted given = (wanted ≡ "") ⊎ (given ≡ wanted)

-- The invocation passes every filter of the options: agent, agents, status, trigger, event, and a
-- start that is not before `since` and is before `until`.
pub record IsWanted (opts : ListOptions) (inv : Invocation) : Type 0 where
  pub agent : Wants opts.agent_name inv.agent_name
  pub agents : (opts.agent_names ≡ []) ⊎ Has inv.agent_name opts.agent_names
  pub status : Wants opts.status inv.status
  pub trigger : Wants opts.trigger_name inv.trigger_name
  pub event : Wants opts.event_id inv.event_id
  pub since : (opts.since ≡ 0) ⊎ (opts.since ≤ inv.start_time)
  pub until : (opts.until ≡ 0) ⊎ (inv.start_time < opts.until)

and_iff : (a b : Bool) → ((a && b) ≡ true) ↔ ((a ≡ true) × (b ≡ true))
and_iff true b = (λ h. (refl, h), λ h. h.1)
and_iff false b = (λ h. absurd (false_is h), λ h. h.0)
  where
    false_is : false ≡ true → ⊥
    false_is h = cc h

unless_empty_iff : (w g : String) → (unless_empty w g ≡ true) ↔ Wants w g
unfolding unless_empty
unless_empty_iff w g = (
  λ h. elim (Bool-cases (w == "")) [
    | inl e ↦ inl ((string_eq.beq_iff w "").0 e)
    | inr e ↦ inr ((string_eq.beq_iff g w).0 (rw e at h))
  ],
  λ r. elim r [
    | inl e ↦ ground (arith, (string_eq.beq_iff w "").1 e)
    | inr e ↦ ground (arith, (string_eq.beq_iff g w).1 e)
  ],
)

among_iff : (ns : List String) (g : String) → (among ns g ≡ true) ↔ ((ns ≡ []) ⊎ Has g ns)
unfolding among
among_iff [] g = (λ h. inl refl, λ r. refl)
among_iff (n ∷ ns) g = (
  λ h.
      let (x, m, e) = any_found (λ (k : String). k == g) (n ∷ ns) h in
      inr (subst (λ y. Has y (n ∷ ns)) ((string_eq.beq_iff x g).0 e) m),
  λ r. elim r [
    | inl e ↦ absurd (nonempty e)
    | inr m ↦ any_finds (λ (k : String). k == g) (n ∷ ns) g m (==_refl g)
  ],
)
  where
    nonempty : n ∷ ns ≡ [] → ⊥
    nonempty e = cc e

since_iff :
    (since t : Instant)
    → ((is_zero_time since || not (ltb t since)) ≡ true) ↔ ((since ≡ 0) ⊎ (since ≤ t))
since_iff since t = (λ h. ground (arith, h), λ h. ground (arith, h))

until_iff :
    (until t : Instant) → ((is_zero_time until || ltb t until) ≡ true) ↔ ((until ≡ 0) ⊎ (t < until))
until_iff until t = (λ h. ground (arith, h), λ h. ground (arith, h))

pub selects_iff :
    (opts : ListOptions) (inv : Invocation) → (selects opts inv ≡ true) ↔ IsWanted opts inv
unfolding selects
selects_iff opts inv = (
  λ h.
      let (h, u) = (and_iff _ _).0 h in
      let (h, s) = (and_iff _ _).0 h in
      let (h, e) = (and_iff _ _).0 h in
      let (h, t) = (and_iff _ _).0 h in
      let (h, st) = (and_iff _ _).0 h in
      let (a, n) = (and_iff _ _).0 h in
      record {
        agent = (unless_empty_iff opts.agent_name inv.agent_name).0 a;
        agents = (among_iff opts.agent_names inv.agent_name).0 n;
        status = (unless_empty_iff opts.status inv.status).0 st;
        trigger = (unless_empty_iff opts.trigger_name inv.trigger_name).0 t;
        event = (unless_empty_iff opts.event_id inv.event_id).0 e;
        since = (since_iff opts.since inv.start_time).0 s;
        until = (until_iff opts.until inv.start_time).0 u;
      },
  λ w.
      rw
        (
          (unless_empty_iff opts.agent_name inv.agent_name).1 w.agent,
          (among_iff opts.agent_names inv.agent_name).1 w.agents,
          (unless_empty_iff opts.status inv.status).1 w.status,
          (unless_empty_iff opts.trigger_name inv.trigger_name).1 w.trigger,
          (unless_empty_iff opts.event_id inv.event_id).1 w.event,
          (since_iff opts.since inv.start_time).1 w.since,
          (until_iff opts.until inv.start_time).1 w.until,
        )
        refl,
)

-- The records wanted of a list of ids, in its order: each id gives its record once, if it has one
-- that is wanted, and else nothing.
unfoldable pub IsHits :
    ListOptions → List (String × Invocation) → List String → List Invocation → Type 0
IsHits opts by_id [] out = out ≡ []
IsHits opts by_id (id ∷ order) out =
    ((rec : Invocation) × (rest : List Invocation) × (lookup id by_id ≡ some rec)
      × IsWanted opts rec
      × (out ≡ rec ∷ rest)
      × IsHits opts by_id order rest)
    ⊎ (((rec : Invocation) → lookup id by_id ≡ some rec → IsWanted opts rec → ⊥)
        × IsHits opts by_id order out)

-- The loop collects the hits.
pub matching-IsHits :
    (opts : ListOptions) (by_id : List (String × Invocation)) (order : List String)
    → IsHits opts by_id order (matching (selects opts) by_id order)
unfolding matching IsHits keep_found
matching-IsHits opts by_id [] = refl
matching-IsHits opts by_id (id ∷ order) = elim (Option-cases (lookup id by_id)) [
  | inl e ↦
      rw (e, keep_found) (inr (λ rec held w. none-ne-some _ held, matching-IsHits opts by_id order))
  | inr (rec, e) ↦ elim (Bool-cases (selects opts rec)) [
    | inl yes_ ↦
        rw (e, keep_found, yes_, if◌then◌else◌)
          (inl (
            rec,
            matching (selects opts) by_id order,
            refl,
            (selects_iff opts rec).0 yes_,
            refl,
            matching-IsHits opts by_id order,
          ))
    | inr no_ ↦
        rw (e, keep_found, no_, if◌then◌else◌)
          (inr (
            λ other held w.
                let same : rec ≡ other = some-injective _ _ held in
                unwanted no_ ((selects_iff opts rec).1 (subst (IsWanted opts) (sym same) w)),
            matching-IsHits opts by_id order,
          ))
  ]
]
  where
    unwanted : {b : Bool} → b ≡ false → b ≡ true → ⊥
    unwanted e h = cc (e, h)
