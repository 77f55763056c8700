-- ===== src/Channels/Reconcile/Settled.antt =====
-- What `MarkOrphans` of services/hub/internal/channels/store.go leaves of the channels whose entity
-- is gone.
use mathlib.Core.Option.{none-ne-some, some-injective}
use ainsel.Prelude.{
  Bool, true, false, not, ◌||◌, ◌≡◌, ◌≢◌, subst, inl, inr, List, Option, none, some, String,
  if◌then◌else◌, ◌==◌, string_eq, arith, any, Has, Has-map_from, Bool-cases,
}
use ainsel.Prelude.Time.{Instant}
use ainsel.Queue.Rows.{alter}
use ainsel.Channels.Rows.{Kind, kind_custom, valid, Channel}
use ainsel.Channels.{Store, is_gone, is_lost, mark_orphans}
use ainsel.Channels.Invariant.{alter-map}

-- A channel of the kind that is not orphaned belongs to a listed entity.
abbrev pub IsSettled : Kind → List String → Store → Type 0
IsSettled kind refs s =
    (c : Channel) (r : String)
    → Has c s.channels
    → c.kind ≡ kind
    → c.orphaned ≡ false
    → c.entity_ref ≡ some r
    → any (λ ref. ref == r) refs ≡ true

abbrev orphan : Instant → Channel → Channel
orphan now c = record c { orphaned = true; updated_at = now }

-- The row behind a row that is not orphaned after the UPDATE: the same row, which was not lost.
spared :
    (now : Instant) (q : Channel → Bool) (cs : List Channel) (c : Channel)
    → Has c (alter q (orphan now) cs)
    → c.orphaned ≡ false
    → Has c cs × (q c ≡ false)
spared now q cs c m live =
    let (b, mb, e) =
      Has-map_from (λ x. if q x then orphan now x else x) cs c
        (subst (Has c) (alter-map q (orphan now) cs) m) in
    elim (Bool-cases (q b)) [
      | inl lost ↦ absurd (revived b lost e)
      | inr kept ↦
          let same = subst (λ t. (if t then orphan now b else b) ≡ c) kept e in
          (subst (λ x. Has x cs) same mb, subst (λ x. q x ≡ false) same kept)
    ]
  where
    revived : (b : Channel) → q b ≡ true → (if q b then orphan now b else b) ≡ c → ⊥
    revived b lost e =
        let same = subst (λ t. (if t then orphan now b else b) ≡ c) lost e in cc (same, live)

listed_ref :
    (refs : List String) (o : Option String) (r : String)
    → is_gone refs o ≡ false
    → o ≡ some r
    → any (λ ref. ref == r) refs ≡ true
unfolding is_gone
listed_ref refs none r h e = absurd (none-ne-some _ e)
listed_ref refs (some x) r h e =
    subst (λ y. any (λ ref. ref == y) refs ≡ true) (some-injective _ _ e) (ground (arith, h))

module _ (s : Store) (now : Instant) (kind : Kind) (refs : List String) where
  pub mark_orphans-settles :
      valid kind ≡ true → kind ≢ kind_custom → IsSettled kind refs (mark_orphans s now kind refs).0
  unfolding mark_orphans is_lost
  mark_orphans-settles known other =
      let allowed : not (valid kind) || kind == kind_custom ≡ false =
        ground (arith, known, other, string_eq.beq_iff kind kind_custom) in
      rw (allowed, if◌then◌else◌) each
    where
      each :
          IsSettled kind refs
            (record s { channels = alter (is_lost kind refs) (orphan now) s.channels })
      each c r m k live e =
          let kept = (spared now (is_lost kind refs) s.channels c m live).1 in
          listed_ref refs c.entity_ref r
            (ground (arith, kept, k, live, string_eq.beq_iff c.kind kind)) e

  pub mark_orphans-IsSettled :
      (k : Kind) (listed : List String)
      → IsSettled k listed s
      → IsSettled k listed (mark_orphans s now kind refs).0
  unfolding mark_orphans
  mark_orphans-IsSettled k listed settled =
      elim (Bool-cases (not (valid kind) || kind == kind_custom)) [
        | inl bad ↦ rw (bad, if◌then◌else◌) settled
        | inr good ↦ rw (good, if◌then◌else◌) each
      ]
    where
      each :
          IsSettled k listed
            (record s { channels = alter (is_lost kind refs) (orphan now) s.channels })
      each c r m same live e =
          settled c r (spared now (is_lost kind refs) s.channels c m live).0 same live e
