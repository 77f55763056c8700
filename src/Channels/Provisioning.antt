-- ===== src/Channels/Provisioning.antt =====
-- `Ensure` of services/hub/internal/channels/store.go: the channel of a registry entity.
use mathlib.Core.Option
use mathlib.Core.Option.{none-ne-some}
use ainsel.Prelude.{
  Bool, true, false, not, ◌||◌, ◌≡◌, ◌≢◌, refl, sym, subst, ap, inl, inr, List, [], ◌∷◌, ◌++◌,
  Option, none, some, String, if◌then◌else◌, ◌==◌, string_eq, arith, any, Bool-cases, ==_refl,
  ==_false,
}
use ainsel.Prelude.Time.{Instant}
use ainsel.Queue.Rows.{alter}
use ainsel.Channels.Rows.{Kind, kind_custom, valid, Channel, unless_empty}
use ainsel.Channels.{
  Store, Result, ok, err, find, or_not_found, is_ref, is_entity, get_by_entity, refresh,
  insert_channel, entity_row, upsert_found, upsert, ensure, has_id, bad_argument, constraint,
}

module _ {A : Type 0} (p : A → Bool) where
  find-alter :
      (f : A → A)
      → ((a : A) → p (f a) ≡ p a)
      → (xs : List A) → find p (alter p f xs) ≡ Option.map f (find p xs)
  unfolding find alter
  find-alter f same [] = refl
  find-alter f same (x ∷ xs) = elim (Bool-cases (p x)) [
    | inl t ↦ rw (t, if◌then◌else◌, same x, t) refl
    | inr u ↦ rw (u, if◌then◌else◌, u) (find-alter f same xs)
  ]

  find-append :
      (xs : List A) (a : A) → find p xs ≡ none → p a ≡ true → find p (xs ++ a ∷ []) ≡ some a
  unfolding find
  find-append [] a e t = rw (t, if◌then◌else◌) refl
  find-append (x ∷ xs) a e t = elim (Bool-cases (p x)) [
    | inl hit ↦
        absurd (none-ne-some _ (sym (subst (λ c. (if c then some x else find p xs) ≡ none) hit e)))
    | inr miss ↦
        rw (miss, if◌then◌else◌)
          (find-append xs a (subst (λ c. (if c then some x else find p xs) ≡ none) miss e) t)
  ]

pub ok-injective : {A : Type 0} {a b : A} → ok a ≡ ok b → a ≡ b
ok-injective e = cc e

pub err-IsNotOk : {A : Type 0} {e : ainsel.Channels.Error} {a : A} → err e ≡ ok a → ⊥
err-IsNotOk e = cc e

pub in_then :
    (p q : Store × Result Channel) {r : Result Channel} (b : Bool)
    → b ≡ true
    → (if b then p else q).1 ≡ r
    → p.1 ≡ r
in_then p q true t h = h
in_then p q false t h = cc t

pub in_else :
    (p q : Store × Result Channel) {r : Result Channel} (b : Bool)
    → b ≡ false
    → (if b then p else q).1 ≡ r
    → q.1 ≡ r
in_else p q true t h = cc t
in_else p q false t h = h

-- An INSERT that succeeds adds the row that it returns.
pub insert_channel-adds :
    (s : Store) (row d : Channel)
    → (insert_channel s row).1 ≡ ok d
    → (row ≡ d) × ((insert_channel s row).0 ≡ record s { channels = s.channels ++ row ∷ [] })
unfolding insert_channel
insert_channel-adds s row d done = elim (Bool-cases (any (has_id row.id) s.channels)) [
  | inl used ↦ absurd (err-IsNotOk (in_then _ _ (any (has_id row.id) s.channels) used done))
  | inr new ↦
      rw (new, if◌then◌else◌)
        (ok-injective (in_else _ _ (any (has_id row.id) s.channels) new done), refl)
]

module _ (s : Store) (now : Instant) (kind : Kind) (ref : String) (row : Channel) where
  upserted :
      (o : Option Channel) (d : Channel)
      → find (is_entity kind ref) s.channels ≡ o
      → is_entity kind ref row ≡ true
      → (upsert_found s now kind ref row o).1 ≡ ok d
      → get_by_entity (upsert_found s now kind ref row o).0 kind ref ≡ ok d
  unfolding upsert_found get_by_entity or_not_found is_entity refresh
  upserted none d missing hit done =
      let (same, added) = insert_channel-adds s row d done in
      rw (added, find-append (is_entity kind ref) s.channels row missing hit) (ap ok same)
  upserted (some c) d found hit done =
      rw (find-alter (is_entity kind ref) (refresh now row) (λ e. refl) s.channels, found) done

module _ (s : Store) (now : Instant) (id : String) (kind : Kind)
    (ref name description : String) where
  -- The channel that `Ensure` returns is the one that is found by its entity afterwards, whether it
  -- was there before or not.
  pub ensure-get_by_entity :
      (d : Channel)
      → (ensure s now id kind ref name description).1 ≡ ok d
      → get_by_entity (ensure s now id kind ref name description).0 kind ref ≡ ok d
  unfolding ensure upsert entity_row is_entity is_ref
  ensure-get_by_entity d done =
      elim (Bool-cases (not (valid kind) || ref == "" || kind == kind_custom)) [
        | inl bad ↦ absurd (
            err-IsNotOk
              (in_then _ _ (not (valid kind) || ref == "" || kind == kind_custom) bad done))
        | inr good ↦
            rw (good, if◌then◌else◌)
              (upserted s now kind ref (entity_row now id kind ref name description) _ d refl
                (rw (==_refl kind, ==_refl ref) refl)
                (in_else _ _ (not (valid kind) || ref == "" || kind == kind_custom) good done))
      ]

-- A call of `Ensure` without a name does not leave the stored name alone: whatever name the entity's
-- channel has, it becomes the entity's ref.
pub ensure-unnamed :
    (s : Store) (now : Instant) (id : String) (kind : Kind) (ref description : String) (c : Channel)
    → valid kind ≡ true
    → kind ≢ kind_custom
    → ref ≢ ""
    → find (is_entity kind ref) s.channels ≡ some c
    → (d : Channel) × ((ensure s now id kind ref "" description).1 ≡ ok d)
      × (d.name ≡ ref)
      × (d.id ≡ c.id)
unfolding ensure upsert upsert_found entity_row refresh unless_empty
ensure-unnamed s now id kind ref description c ok_kind other named found = (
  refresh now (entity_row now id kind ref "" description) c,
  rw (allowed, if◌then◌else◌, found) refl,
  rw (==_false ref "" named, if◌then◌else◌) refl,
  refl,
)
  where
    allowed : not (valid kind) || ref == "" || kind == kind_custom ≡ false
    allowed =
        ground (
          arith,
          ok_kind,
          string_eq.beq_iff ref "",
          string_eq.beq_iff kind kind_custom,
          other,
          named,
        )
