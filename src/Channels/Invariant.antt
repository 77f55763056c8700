-- ===== src/Channels/Invariant.antt =====
-- What the tables of services/hub/internal/channels/store.go hold at all times, and the changes of
-- rows that keep it.
pub mod Preserved
use mathlib.Core.Option.{none-ne-some, some-injective}
use ainsel.Prelude.{
  ℕ, Bool, true, false, not, ◌||◌, ◌≡◌, ◌≢◌, refl, sym, subst, ap, inl, inr, ◌⊎◌, List, [], ◌∷◌,
  ◌++◌, Option, none, some, String, if◌then◌else◌, ◌==◌, string_eq, arith, map, keep, any, Has,
  Has-map, Has-map_from, Has-keep, Has-keep_from, any_finds, Any-append, Any-append_left,
  Any-append_right, Bool-cases, Option-cases, ==_refl,
}
use ainsel.Queue.Rows.{alter}
use ainsel.Channels.Rows.{Kind, kind_custom, valid, Channel, Bridge}
use ainsel.Channels.Graph.Acyclic.{IsAcyclic, subset-IsAcyclic}
use ainsel.Channels.Walk.Found.{IsStored, HasEnds}
use ainsel.Channels.Walk.Inboxes.Exact.{HasKeys}
use ainsel.Channels.{Store, find, has_id, touches, remove_channel}

-- A custom channel has no entity, and every other one has an entity with a name.
pub data IsOfKind (c : Channel) : Type 0 where
  is_grouping : c.kind ≡ kind_custom → c.entity_ref ≡ none → IsOfKind c
  is_provisioned :
      {ref : String}
      → valid c.kind ≡ true
      → c.kind ≢ kind_custom
      → c.entity_ref ≡ some ref
      → ref ≢ ""
      → IsOfKind c

-- The two channels of a bridge, one of which is custom.
pub record IsAttached (s : Store) (b : Bridge) : Type 0 where
  pub from : Channel
  pub to : Channel
  pub from_stored : Has from s.channels
  pub to_stored : Has to s.channels
  pub from_id : from.id ≡ b.from_channel
  pub to_id : to.id ≡ b.to_channel
  pub grouping : (from.kind ≡ kind_custom) ⊎ (to.kind ≡ kind_custom)

pub record IsSound (s : Store) : Type 0 where
  pub keys : HasKeys s
  pub entities :
      (c e : Channel) (ref : String)
      → Has c s.channels
      → Has e s.channels
      → c.kind ≡ e.kind
      → c.entity_ref ≡ some ref
      → e.entity_ref ≡ some ref
      → c.id ≡ e.id
  pub kinds : (c : Channel) → Has c s.channels → IsOfKind c
  pub attached : (b : Bridge) → Has b s.bridges → IsAttached s b
  pub pairs :
      (b c : Bridge)
      → Has b s.bridges
      → Has c s.bridges
      → b.from_channel ≡ c.from_channel
      → b.to_channel ≡ c.to_channel
      → b ≡ c
  pub acyclic : IsAcyclic s.bridges

pub IsSound-HasEnds : (s : Store) → IsSound s → HasEnds s
unfolding HasEnds
IsSound-HasEnds s sound b m =
    let a = sound.attached b m in ((a.from, a.from_stored, a.from_id), (a.to, a.to_stored, a.to_id))

module _ {A : Type 0} (p : A → Bool) where
  pub find-found : (xs : List A) (a : A) → find p xs ≡ some a → Has a xs × (p a ≡ true)
  unfolding find
  find-found [] a e = absurd (none-ne-some _ e)
  find-found (x ∷ xs) a e = elim (Bool-cases (p x)) [
    | inl t ↦
        let same =
          some-injective _ _ (subst (λ c. (if c then some x else find p xs) ≡ some a) t e) in
        (inl same, subst (λ y. p y ≡ true) same t)
    | inr f ↦
        let found = find-found xs a (subst (λ c. (if c then some x else find p xs) ≡ some a) f e) in
        (inr found.0, found.1)
  ]

  pub find-none : (xs : List A) (a : A) → find p xs ≡ none → Has a xs → p a ≡ false
  unfolding find
  find-none [] a e m = absurd m
  find-none (x ∷ xs) a e m = elim (Bool-cases (p x)) [
    | inl t ↦
        absurd (none-ne-some _ (sym (subst (λ c. (if c then some x else find p xs) ≡ none) t e)))
    | inr f ↦ elim m [
      | inl same ↦ subst (λ y. p y ≡ false) same f
      | inr later ↦ find-none xs a (subst (λ c. (if c then some x else find p xs) ≡ none) f e) later
    ]
  ]

  pub any_misses : (xs : List A) (a : A) → any p xs ≡ false → Has a xs → p a ≡ false
  any_misses xs a e m = elim (Bool-cases (p a)) [ inl t ↦ cc (e, any_finds p xs a m t) | inr f ↦ f ]

  pub alter-map : (f : A → A) (xs : List A) → alter p f xs ≡ map (λ x. if p x then f x else x) xs
  unfolding alter
  alter-map f [] = refl
  alter-map f (x ∷ xs) = ap (◌∷◌ (if p x then f x else x)) (alter-map f xs)
