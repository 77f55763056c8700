-- ===== src/Trigger/Index/Rearranged.antt =====
-- `Match` of services/hub/internal/trigger/index.go on a rearranged index.
use mathlib.Core.List.{Perm, Permᴰ, Pairwise, Mem, mem-cons, not-mem-nil}
use mathlib.Core.List.Permᴰ
use mathlib.Core.HLevel.{⊥_prop}
use mathlib.Core.Logic.Or
use ainsel.Prelude.{
  ◌≡◌, ◌≢◌, ◌⊎◌, refl, sym, ap, ◌∙◌, inl, inr, List, [], ◌∷◌, none, some, String, All, Bool-cases,
  Option-cases, subst,
}
use ainsel.Prelude.Order.{IsKeyed}
use ainsel.Trigger.Value.{Runtime, Fields}
use ainsel.Trigger.Index.{
  Trigger, Event, MatchResult, Index, accepts, matches_in, match_payload, index_match,
  build_filter_payload,
}
use ainsel.Trigger.Index.History.{IsIndex}

module _ (go : Runtime) (payload : Fields) (evt : Event) where
  abbrev found : Index → List MatchResult
  found = matches_in go payload evt

  found-cons :
      (e : String × Trigger) (idx idx' : Index)
      → Permᴰ (found idx) (found idx')
      → Permᴰ (found (e ∷ idx)) (found (e ∷ idx'))
  unfolding matches_in
  found-cons (k, t) idx idx' p = elim (Bool-cases (accepts go payload evt t)) [
    | inl hit ↦ rw (hit, matches_in) (Permᴰ.cons refl p)
    | inr miss ↦ rw (miss, matches_in) p
  ]

  found-swap :
      (a b : String × Trigger) (idx : Index) → Permᴰ (found (a ∷ b ∷ idx)) (found (b ∷ a ∷ idx))
  unfolding matches_in
  found-swap (j, t) (k, u) idx = elim (Bool-cases (accepts go payload evt t)) [
    | inl hit ↦ elim (Bool-cases (accepts go payload evt u)) [
      | inl also ↦ rw (hit, also, matches_in) (Permᴰ.swap refl refl)
      | inr miss ↦ rw (hit, miss, matches_in) (Permᴰ.refl _)
    ]
    | inr miss ↦ rw (miss, matches_in) (Permᴰ.refl _)
  ]

  found-perm : {idx idx' : Index} → Permᴰ idx idx' → Permᴰ (found idx) (found idx')
  unfolding matches_in
  found-perm Permᴰ.nil = Permᴰ.nil
  found-perm (Permᴰ.cons {a} {l₁} {l₂} e p) =
      subst (λ x. Permᴰ (found (a ∷ l₁)) (found (x ∷ l₂))) e (found-cons a l₁ l₂ (found-perm p))
  found-perm (Permᴰ.swap {a} {b} {a'} {b'} {l} e f) =
      subst (λ x. Permᴰ (found (a ∷ b ∷ l)) (found (x ∷ b' ∷ l))) f
        (subst (λ x. Permᴰ (found (a ∷ b ∷ l)) (found (b ∷ x ∷ l))) e (found-swap a b l))
  found-perm (Permᴰ.trans p q) = Permᴰ.trans (found-perm p) (found-perm q)

  -- A name that no trigger is stored under is not among the results.
  found-absent :
      (k : String) (idx : Index)
      → ((e : String × Trigger) → Mem e idx → k ≢ e.0)
      → All (λ (e : String × Trigger). e.1.id ≡ e.0) idx
      → (m : MatchResult) → Mem m (found idx)
      → k ≢ m.trigger_name
  unfolding matches_in
  found-absent k [] absent stored m h = absurd (not-mem-nil h)
  found-absent k ((j, t) ∷ idx) absent stored m h =
      let rest = found-absent k idx (λ e n. absent e (mem-cons.1 (Or.inr n))) stored.1 m in
      elim (Bool-cases (accepts go payload evt t)) [
        | inl hit ↦ λ same.
            Or.elim ⊥_prop (mem-cons.0 (rw (hit, matches_in) at h))
              (λ e.
                absent (j, t) (mem-cons.1 (Or.inl refl))
                  (same ∙ ap (λ (r : MatchResult). r.trigger_name) e ∙ stored.0))
              (λ n. rest n same)
        | inr miss ↦ rest (rw (miss, matches_in) at h)
      ]

  found-IsKeyed :
      (idx : Index)
      → IsKeyed (λ (e : String × Trigger). e.0) idx
      → All (λ (e : String × Trigger). e.1.id ≡ e.0) idx
      → IsKeyed (λ (m : MatchResult). m.trigger_name) (found idx)
  unfolding matches_in
  found-IsKeyed [] keyed stored = Pairwise.nil
  found-IsKeyed ((j, t) ∷ idx) (Pairwise.cons h keyed) stored =
      elim (Bool-cases (accepts go payload evt t)) [
        | inl hit ↦
            rw (hit, matches_in)
              (Pairwise.cons (λ m n e. found-absent j idx h stored.1 m n (sym stored.0 ∙ e))
                (found-IsKeyed idx keyed stored.1))
        | inr miss ↦ rw (miss, matches_in) (found-IsKeyed idx keyed stored.1)
      ]

pub index_match-perm :
    (go : Runtime) (evt : Event) {idx idx' : Index}
    → IsIndex idx
    → Permᴰ idx idx'
    → ((index_match go idx evt ≡ none) × (index_match go idx' evt ≡ none))
      ⊎ ((ms : List MatchResult) × (ms' : List MatchResult) × (index_match go idx evt ≡ some ms)
          × (index_match go idx' evt ≡ some ms')
          × IsKeyed (λ (m : MatchResult). m.trigger_name) ms
          × Perm ms ms')
unfolding index_match
index_match-perm go evt {idx} {idx'} v p = elim (Option-cases (build_filter_payload go evt)) [
  | inl panics ↦ inl (rw (panics, match_payload), rw (panics, match_payload))
  | inr (payload, built) ↦ inr (
    matches_in go payload evt idx,
    matches_in go payload evt idx',
    rw (built, match_payload),
    rw (built, match_payload),
    found-IsKeyed go payload evt idx v.keyed v.stored,
    ∣ found-perm go payload evt p ∣₁,
  )
]
