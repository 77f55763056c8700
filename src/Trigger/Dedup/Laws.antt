-- ===== src/Trigger/Dedup/Laws.antt =====
-- What DeduplicateByAgent of services/hub/internal/trigger/index.go keeps.
use mathlib.Core.Logic.Or
use mathlib.Core.List.{Perm, Pairwise, mem-cons, mem-cons_self, not-mem-nil}
use mathlib.Core.List.Perm
use mathlib.Core.List.Permᴰ
use ainsel.Prelude.{
  ◌≡◌, ◌≢◌, refl, sym, ap, inl, inr, Bool, true, false, List, [], ◌∷◌, String, if◌then◌else◌,
  string_eq, String-set, ◌==◌, arith, All, Any, Has, Bool-cases, All-imp, Has-mem, map_right,
  Any-perm,
}
use ainsel.Prelude.Dict.{lookup, insert, lookup-insert}
use ainsel.Prelude.Order.{SortSlice, IsSorted}
use ainsel.Trigger.Text.Laws.{str_ltb_irrefl}
use ainsel.Trigger.Index.{MatchResult}
use ainsel.Trigger.Dedup.{name_less, flag, seen_agent, dedupe_from, deduplicate_by_agent}

pub MatchResult-set : IsSet MatchResult
MatchResult-set = hlevel String-set

pub name_less_irrefl : (m : MatchResult) → name_less m m ≡ false
unfolding name_less
name_less_irrefl m = str_ltb_irrefl m.trigger_name

perm_single : (l : List MatchResult) {m : MatchResult} → Perm l (m ∷ []) → l ≡ m ∷ []
perm_single [] p = Perm.nil-eq p
perm_single (x ∷ xs) {m} p =
    let same =
      Or.elim (MatchResult-set x m) (mem-cons.0 ((Perm.mem_iff p).0 mem-cons_self)) (λ e. e)
        (λ n. absurd (not-mem-nil n)) in
    let rest = Perm.cons_inv (Perm.trans p (Perm.cons' (sym same) Perm.rfl)) in
    cc (same, Perm.eq-nil rest)

-- The shortcut for at most one match changes nothing.
pub deduplicate_by_agent_lem :
    (s : SortSlice name_less) (ms : List MatchResult)
    → deduplicate_by_agent s ms ≡ dedupe_from [] (s.sort ms)
unfolding deduplicate_by_agent lookup
deduplicate_by_agent_lem s [] = rw (Perm.eq-nil ∣ s.sort-perm [] ∣₁) refl
deduplicate_by_agent_lem s (m ∷ []) = rw (perm_single _ ∣ s.sort-perm (m ∷ []) ∣₁) refl
deduplicate_by_agent_lem s (m ∷ n ∷ ms) = refl

seen-insert :
    (a b : String) (seen : List (String × Bool))
    → seen_agent a (insert b true seen) ≡ (if b == a then true else seen_agent a seen)
unfolding seen_agent flag
seen-insert a b seen = rw (lookup-insert, seen_agent) (ground arith)

unseen-insert :
    (a b : String) (seen : List (String × Bool))
    → seen_agent a (insert b true seen) ≡ false
    → (a ≢ b) × (seen_agent a seen ≡ false)
unseen-insert a b seen h =
    let step = seen-insert a b seen in
    (λ e. cc (step, h, (string_eq.beq_iff b a).1 (sym e)), ground (arith, seen-insert a b seen))

unseen_at_first : (a : String) → seen_agent a [] ≡ false
unfolding seen_agent flag lookup
unseen_at_first a = refl

-- An agent that is marked as seen gets nothing more.
dedupe_from-unseen :
    (seen : List (String × Bool)) (ms : List MatchResult)
    → All (λ k. seen_agent k.agent_ref seen ≡ false) (dedupe_from seen ms)
unfolding dedupe_from
dedupe_from-unseen seen [] = tt
dedupe_from-unseen seen (m ∷ ms) = elim (Bool-cases (seen_agent m.agent_ref seen)) [
  | inl old ↦ rw (old, dedupe_from) (dedupe_from-unseen seen ms)
  | inr new ↦
      rw (new, dedupe_from)
        (
          new,
          All-imp (dedupe_from (insert m.agent_ref true seen) ms)
              (λ k h. (unseen-insert k.agent_ref m.agent_ref seen h).1)
              (dedupe_from-unseen (insert m.agent_ref true seen) ms),
        )
]

-- No two matches go to one agent.
abbrev pub IsDistinct : List MatchResult → Type 0
IsDistinct [] = Unit {0}
IsDistinct (m ∷ ms) = All (λ k. k.agent_ref ≢ m.agent_ref) ms × IsDistinct ms

dedupe_from-IsDistinct :
    (seen : List (String × Bool)) (ms : List MatchResult) → IsDistinct (dedupe_from seen ms)
unfolding dedupe_from
dedupe_from-IsDistinct seen [] = tt
dedupe_from-IsDistinct seen (m ∷ ms) = elim (Bool-cases (seen_agent m.agent_ref seen)) [
  | inl old ↦ rw (old, dedupe_from) (dedupe_from-IsDistinct seen ms)
  | inr new ↦
      rw (new, dedupe_from)
        (
          All-imp (dedupe_from (insert m.agent_ref true seen) ms)
              (λ k h. (unseen-insert k.agent_ref m.agent_ref seen h).0)
              (dedupe_from-unseen (insert m.agent_ref true seen) ms),
          dedupe_from-IsDistinct (insert m.agent_ref true seen) ms,
        )
]

dedupe_from-Has :
    (seen : List (String × Bool)) (ms : List MatchResult) (m : MatchResult)
    → Has m (dedupe_from seen ms)
    → Has m ms
unfolding dedupe_from
dedupe_from-Has seen [] m h = h
dedupe_from-Has seen (x ∷ ms) m h = elim (Bool-cases (seen_agent x.agent_ref seen)) [
  | inl old ↦ inr (dedupe_from-Has seen ms m (rw (old, dedupe_from) at h))
  | inr new ↦
      map_right (dedupe_from-Has (insert x.agent_ref true seen) ms m) (rw (new, dedupe_from) at h)
]

-- A match to the same agent, which no match named by `m` precedes.
abbrev pub Covers : MatchResult → MatchResult → Type 0
Covers m k = (k.agent_ref ≡ m.agent_ref) × (name_less m k ≡ false)

module _ (seen : List (String × Bool)) (x : MatchResult) (ms : List MatchResult) (m : MatchResult)
    (unseen : seen_agent m.agent_ref seen ≡ false) where
  Covers-here : x ≡ m → Any (Covers m) (dedupe_from seen (x ∷ ms))
  unfolding dedupe_from
  Covers-here e =
      let new : seen_agent x.agent_ref seen ≡ false = cc in
      rw (new, dedupe_from)
        (inl (ap (λ (k : MatchResult). k.agent_ref) e, rw e (name_less_irrefl m)))

  Covers-later :
      name_less m x ≡ false
      → (seen_agent m.agent_ref (insert x.agent_ref true seen) ≡ false
          → Any (Covers m) (dedupe_from (insert x.agent_ref true seen) ms))
      → Any (Covers m) (dedupe_from seen ms)
      → Any (Covers m) (dedupe_from seen (x ∷ ms))
  unfolding dedupe_from
  Covers-later least with_x without_x = elim (Bool-cases (seen_agent x.agent_ref seen)) [
    | inl old ↦ rw (old, dedupe_from) without_x
    | inr new ↦ elim (Bool-cases (x.agent_ref == m.agent_ref)) [
      | inl same ↦ rw (new, dedupe_from) (inl ((string_eq.beq_iff _ _).0 same, least))
      | inr other ↦
          rw (new, dedupe_from)
            (inr (with_x (ground (arith, seen-insert m.agent_ref x.agent_ref seen))))
    ]
  ]

dedupe_from-Covers :
    (seen : List (String × Bool)) (ms : List MatchResult) (m : MatchResult)
    → IsSorted name_less ms
    → Has m ms
    → seen_agent m.agent_ref seen ≡ false
    → Any (Covers m) (dedupe_from seen ms)
dedupe_from-Covers seen [] m s h u = absurd h
dedupe_from-Covers seen (x ∷ ms) m s (inl e) u = Covers-here seen x ms m u e
dedupe_from-Covers seen (x ∷ ms) m (Pairwise.cons h s) (inr later) u =
    Covers-later seen x ms m u (h m (Has-mem ms later))
      (λ v. dedupe_from-Covers (insert x.agent_ref true seen) ms m s later v)
      (dedupe_from-Covers seen ms m s later u)

-- What a deduplicated list of matches promises.
pub record IsDeduplicated (ms kept : List MatchResult) : Type 0 where
  pub distinct : IsDistinct kept
  pub from_input : (m : MatchResult) → Has m kept → Has m ms
  pub least : (m : MatchResult) → Has m ms → Any (Covers m) kept

-- DeduplicateByAgent keeps one match for each agent that was matched: no agent twice, only matches
-- that were given, and for each given match one with its agent and a trigger name no greater.
pub deduplicate_by_agent-IsDeduplicated :
    (s : SortSlice name_less) (ms : List MatchResult)
    → IsDeduplicated ms (deduplicate_by_agent s ms)
deduplicate_by_agent-IsDeduplicated s ms = rw (deduplicate_by_agent_lem s ms) (record {
  distinct = dedupe_from-IsDistinct [] (s.sort ms);
  from_input = λ m h. Any-perm _ (Permᴰ.symm (s.sort-perm ms)) (dedupe_from-Has [] (s.sort ms) m h);
  least = λ m h.
      dedupe_from-Covers [] (s.sort ms) m (s.sort-IsSorted ms) (Any-perm _ (s.sort-perm ms) h)
        (unseen_at_first m.agent_ref);
})
