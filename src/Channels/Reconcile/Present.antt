-- ===== src/Channels/Reconcile/Present.antt =====
-- That `Ensure` and `MarkOrphans` of services/hub/internal/channels/store.go keep a channel that is
-- not orphaned.
use mathlib.Core.Option
use mathlib.Core.Option.{none-ne-some, some-injective}
use ainsel.Prelude.{
  Bool, true, false, not, ◌||◌, ◌≡◌, refl, sym, subst, ap, inl, inr, List, [], ◌∷◌, ◌++◌, Option,
  none, some, String, if◌then◌else◌, ◌==◌, string_eq, arith, any, Bool-cases,
}
use ainsel.Prelude.Time.{Instant}
use ainsel.Queue.Rows.{alter}
use ainsel.Channels.Rows.{Kind, kind_custom, valid, Channel}
use ainsel.Channels.{
  Store, ok, find, or_not_found, is_entity, get_by_entity, refresh, insert_channel, entity_row,
  upsert_found, upsert, ensure, has_id, is_ref, is_gone, is_lost, mark_orphans,
}
use ainsel.Channels.Invariant.{find-found}
use ainsel.Channels.Provisioning.{
  ensure-get_by_entity, in_then, in_else, ok-injective, err-IsNotOk, insert_channel-adds,
}

-- The entity has a channel, which is not orphaned.
abbrev pub IsPresent : Kind → String → Store → Type 0
IsPresent kind ref s =
    (d : Channel) × (find (is_entity kind ref) s.channels ≡ some d) × (d.orphaned ≡ false)

-- A statement that keeps identities is seen through a query for one of them.
find-changed :
    (p q : Channel → Bool) (f : Channel → Channel)
    → ((c : Channel) → p (f c) ≡ p c)
    → (cs : List Channel)
    → find p (alter q f cs) ≡ Option.map (λ c. if q c then f c else c) (find p cs)
unfolding find alter
find-changed p q f same [] = refl
find-changed p q f same (c ∷ cs) = elim (Bool-cases (q c)) [
  | inl changes ↦ elim (Bool-cases (p c)) [
    | inl hit ↦ rw (changes, if◌then◌else◌, same c, hit, if◌then◌else◌, changes) refl
    | inr miss ↦ rw (changes, if◌then◌else◌, same c, miss) (find-changed p q f same cs)
  ]
  | inr stays ↦ elim (Bool-cases (p c)) [
    | inl hit ↦ rw (stays, if◌then◌else◌, hit, if◌then◌else◌, stays) refl
    | inr miss ↦ rw (stays, if◌then◌else◌, miss) (find-changed p q f same cs)
  ]
]

find-first :
    (p : Channel → Bool) (cs : List Channel) (c d : Channel)
    → find p cs ≡ some d
    → find p (cs ++ c ∷ []) ≡ some d
unfolding find
find-first p [] c d e = absurd (none-ne-some _ e)
find-first p (b ∷ cs) c d e = elim (Bool-cases (p b)) [
  | inl hit ↦
      rw (hit, if◌then◌else◌) (subst (λ t. (if t then some b else find p cs) ≡ some d) hit e)
  | inr miss ↦
      rw (miss, if◌then◌else◌)
        (find-first p cs c d (subst (λ t. (if t then some b else find p cs) ≡ some d) miss e))
]

no_gone :
    (r : String) (refs : List String) (o : Option String)
    → is_ref r o ≡ true
    → is_gone refs o ≡ true
    → any (λ ref. ref == r) refs ≡ true
    → ⊥
unfolding is_ref is_gone
no_gone r refs none hit gone listed = cc hit
no_gone r refs (some x) hit gone listed =
    let same = (string_eq.beq_iff x r).0 hit in
    let here = subst (λ y. any (λ ref. ref == y) refs ≡ true) (sym same) listed in
    ground (arith, gone, here)

module _ (k : Kind) (r : String) where
  changed-IsPresent :
      (s : Store) (q : Channel → Bool) (f : Channel → Channel)
      → ((c : Channel) → is_entity k r (f c) ≡ is_entity k r c)
      → ((c : Channel)
          → q c ≡ true
          → c.orphaned ≡ false
          → is_entity k r c ≡ true
          → (f c).orphaned ≡ false)
      → IsPresent k r s
      → IsPresent k r (record s { channels = alter q f s.channels })
  changed-IsPresent s q f same stays (d, found, live) = (
    if q d then f d else d,
    rw (find-changed (is_entity k r) q f same s.channels, found) refl,
    elim (Bool-cases (q d)) [
      | inl changes ↦
          rw (changes, if◌then◌else◌)
            (stays d changes live (find-found (is_entity k r) s.channels d found).1)
      | inr other ↦ rw (other, if◌then◌else◌) live
    ],
  )

  insert_channel-IsPresent :
      (s : Store) (c : Channel) → IsPresent k r s → IsPresent k r (insert_channel s c).0
  unfolding insert_channel
  insert_channel-IsPresent s c (d, found, live) = elim (Bool-cases (any (has_id c.id) s.channels)) [
    | inl used ↦ rw (used, if◌then◌else◌) (d, found, live)
    | inr new ↦ rw (new, if◌then◌else◌) (d, find-first (is_entity k r) s.channels c d found, live)
  ]

  upsert_found-IsPresent :
      (s : Store) (now : Instant) (kind : Kind) (ref : String) (row : Channel) (o : Option Channel)
      → IsPresent k r s
      → IsPresent k r (upsert_found s now kind ref row o).0
  unfolding upsert_found refresh is_entity
  upsert_found-IsPresent s now kind ref row none h = insert_channel-IsPresent s row h
  upsert_found-IsPresent s now kind ref row (some c) h =
      changed-IsPresent s (is_entity kind ref) (refresh now row) (λ e. refl) (λ e q l p. refl) h

  -- A call of `Ensure` for another entity, refused or not, leaves the entity its channel.
  pub ensure-keeps :
      (s : Store) (now : Instant) (id : String) (kind : Kind) (ref name description : String)
      → IsPresent k r s
      → IsPresent k r (ensure s now id kind ref name description).0
  unfolding ensure upsert
  ensure-keeps s now id kind ref name description h =
      elim (Bool-cases (not (valid kind) || ref == "" || kind == kind_custom)) [
        | inl bad ↦ rw (bad, if◌then◌else◌) h
        | inr good ↦
            rw (good, if◌then◌else◌)
              (upsert_found-IsPresent s now kind ref (entity_row now id kind ref name description) _
                h)
      ]

  -- An entity that the registry lists keeps its channel when the others are orphaned.
  pub mark_orphans-keeps :
      (s : Store) (now : Instant) (kind : Kind) (refs : List String)
      → (k ≡ kind → any (λ ref. ref == r) refs ≡ true)
      → IsPresent k r s
      → IsPresent k r (mark_orphans s now kind refs).0
  unfolding mark_orphans is_entity is_lost
  mark_orphans-keeps s now kind refs listed h =
      elim (Bool-cases (not (valid kind) || kind == kind_custom)) [
        | inl bad ↦ rw (bad, if◌then◌else◌) h
        | inr good ↦
            rw (good, if◌then◌else◌)
              (changed-IsPresent s (is_lost kind refs)
                (λ (c : Channel). record c { orphaned = true; updated_at = now }) (λ c. refl)
                (λ c lost live hit. absurd (spared c lost hit)) h)
      ]
    where
      spared : (c : Channel) → is_lost kind refs c ≡ true → is_entity k r c ≡ true → ⊥
      spared c lost hit = no_gone r refs c.entity_ref (ground (arith, hit)) (ground (arith, lost)) (
          listed (
            cc (
              (string_eq.beq_iff c.kind k).0 (ground (arith, hit)),
              (string_eq.beq_iff c.kind kind).0 (ground (arith, lost)),
            )))

-- The channel that `Ensure` returns is not orphaned.
upsert_found-live :
    (s : Store) (now : Instant) (kind : Kind) (ref : String) (row d : Channel) (o : Option Channel)
    → row.orphaned ≡ false
    → (upsert_found s now kind ref row o).1 ≡ ok d
    → d.orphaned ≡ false
unfolding upsert_found refresh
upsert_found-live s now kind ref row d none live done =
    let same = (insert_channel-adds s row d done).0 in
    subst (λ (c : Channel). c.orphaned ≡ false) same live
upsert_found-live s now kind ref row d (some c) live done =
    subst (λ (e : Channel). e.orphaned ≡ false) (ok-injective done) refl

some_of : (o : Option Channel) (d : Channel) → or_not_found o ≡ ok d → o ≡ some d
unfolding or_not_found
some_of none d e = absurd (err-IsNotOk e)
some_of (some c) d e = ap some (ok-injective e)

-- An entity has a channel once `Ensure` has returned one.
pub ensure-IsPresent :
    (s : Store) (now : Instant) (id : String) (kind : Kind) (ref name description : String)
    (d : Channel)
    → (ensure s now id kind ref name description).1 ≡ ok d
    → IsPresent kind ref (ensure s now id kind ref name description).0
unfolding ensure upsert get_by_entity entity_row
ensure-IsPresent s now id kind ref name description d done = (
  d,
  some_of _ d (ensure-get_by_entity s now id kind ref name description d done),
  elim (Bool-cases (not (valid kind) || ref == "" || kind == kind_custom)) [
    | inl bad ↦
        absurd (
          err-IsNotOk (in_then _ _ (not (valid kind) || ref == "" || kind == kind_custom) bad done))
    | inr good ↦
        upsert_found-live s now kind ref (entity_row now id kind ref name description) d _ refl
          (in_else _ _ (not (valid kind) || ref == "" || kind == kind_custom) good done)
  ],
)
