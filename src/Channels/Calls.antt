-- ===== src/Channels/Calls.antt =====
-- The calls that services/hub/internal/channels/store.go takes, and that every sequence of them
-- leaves sound tables.
use mathlib.Core.Option.{none-ne-some, some-injective}
use ainsel.Prelude.{
  Bool, true, false, not, ◌&&◌, ◌||◌, ◌≡◌, ◌≢◌, refl, sym, inl, inr, List, [], ◌∷◌, Option, none,
  some, String, if◌then◌else◌, ◌==◌, nat_eq, string_eq, ltb, arith, any, Has, Bool-cases,
}
use ainsel.Prelude.Time.{Instant}
use ainsel.Queue.Rows.{alter, count_rows}
use ainsel.Channels.Rows.{Kind, kind_custom, valid, Channel}
use ainsel.Channels.{
  Store, has_id, find, is_ref, is_entity, refresh, insert_channel, entity_row, upsert_found, upsert,
  ensure, create, relabel, is_custom, update, touches, delete_found, delete_row, delete, is_lost,
  mark_orphans,
}
use ainsel.Channels.Bridges.{create_bridge, delete_bridge}
use ainsel.Channels.Walk.Inboxes.Exact.{HasKeys}
use ainsel.Channels.Graph.Acyclic.{IsAcyclic}
use ainsel.Channels.Invariant.{
  IsOfKind, is_grouping, is_provisioned, IsSound, find-none, any_misses, alter-map,
}
use ainsel.Channels.Invariant.Preserved.{
  IsSame, map-IsSound, append-IsSound, keep-IsSound, remove_channel-IsSound,
}
use ainsel.Channels.Bridging.{create_bridge-IsSound}

-- A call that changes the store: its time and generated id first, where it has them.
pub data Call : Type 0 where
  ensures : Instant → String → Kind → String → String → String → Call
  creates : Instant → String → String → String → Call
  updates : Instant → String → Option String → Option String → Call
  deletes : String → Call
  orphans : Instant → Kind → List String → Call
  bridges : Instant → String → String → String → String → Call
  unbridges : String → Call

unfoldable pub apply_change : Store → Call → Store
apply_change s (ensures now id kind ref name description) =
    (ensure s now id kind ref name description).0
apply_change s (creates now id name description) = (create s now id name description).0
apply_change s (updates now id name description) = (update s now id name description).0
apply_change s (deletes id) = (delete s id).0
apply_change s (orphans now kind refs) = (mark_orphans s now kind refs).0
apply_change s (bridges now id from_id to_id name) = (create_bridge s now id from_id to_id name).0
apply_change s (unbridges id) = (delete_bridge s id).0

abbrev pub empty_store : Store
empty_store = record { channels = []; bridges = [] }

-- The calls, most recent first.
unfoldable pub changed : List Call → Store
changed [] = empty_store
changed (c ∷ cs) = apply_change (changed cs) c

-- An UPDATE that changes no identity.
alter-IsSound :
    (s : Store) (p : Channel → Bool) (f : Channel → Channel)
    → ((c : Channel) → IsSame c (f c))
    → IsSound s
    → IsSound (record s { channels = alter p f s.channels })
alter-IsSound s p f same sound =
    rw (alter-map p f s.channels) (map-IsSound s (λ c. if p c then f c else c) each sound)
  where
    each : (c : Channel) → IsSame c (if p c then f c else c)
    each c = elim (Bool-cases (p c)) [
      | inl t ↦ rw (t, if◌then◌else◌) (same c)
      | inr u ↦ rw (u, if◌then◌else◌) (record { id = refl; kind = refl; entity_ref = refl })
    ]

insert_channel-IsSound :
    (s : Store) (c : Channel)
    → ((e : Channel) (ref : String)
        → Has e s.channels
        → e.kind ≡ c.kind
        → e.entity_ref ≡ some ref
        → c.entity_ref ≢ some ref)
    → IsOfKind c
    → IsSound s
    → IsSound (insert_channel s c).0
unfolding insert_channel has_id
insert_channel-IsSound s c free kind sound = elim (Bool-cases (any (has_id c.id) s.channels)) [
  | inl used ↦ rw (used, if◌then◌else◌) sound
  | inr new ↦
      rw (new, if◌then◌else◌)
        (append-IsSound s c
          (λ e m same.
            let miss = any_misses (has_id c.id) s.channels e new m in
            ground (arith, miss, string_eq.beq_iff e.id c.id, same))
          free kind sound)
]

no_entity :
    (kind : Kind) (ref : String) (e : Channel) (r : String)
    → is_entity kind ref e ≡ false
    → e.kind ≡ kind
    → e.entity_ref ≡ some r
    → some ref ≢ some r
unfolding is_entity is_ref
no_entity kind ref e r miss same has has_new =
    let hit : is_ref ref e.entity_ref ≡ true =
      rw has ((string_eq.beq_iff r ref).1 (sym (some-injective _ _ has_new))) in
    ground (arith, miss, hit, string_eq.beq_iff e.kind kind, same)

module _ (s : Store) (now : Instant) (id : String) (kind : Kind)
    (ref name description : String) where
  upsert_found-IsSound :
      (o : Option Channel)
      → find (is_entity kind ref) s.channels ≡ o
      → not (valid kind) || ref == "" || kind == kind_custom ≡ false
      → IsSound s
      → IsSound (upsert_found s now kind ref (entity_row now id kind ref name description) o).0
  unfolding upsert_found refresh entity_row
  upsert_found-IsSound none missing good sound =
      insert_channel-IsSound s (entity_row now id kind ref name description)
        (λ e r m. no_entity kind ref e r (find-none (is_entity kind ref) s.channels e missing m))
        (is_provisioned (ground (arith, good))
          (λ e. ground (arith, good, string_eq.beq_iff kind kind_custom)) refl
          (λ e. ground (arith, good, string_eq.beq_iff ref "")))
        sound
  upsert_found-IsSound (some c) found good sound =
      alter-IsSound s (is_entity kind ref)
        (refresh now (entity_row now id kind ref name description))
        (λ e. record { id = refl; kind = refl; entity_ref = refl }) sound

  ensure-IsSound : IsSound s → IsSound (ensure s now id kind ref name description).0
  unfolding ensure upsert
  ensure-IsSound sound = elim (Bool-cases (not (valid kind) || ref == "" || kind == kind_custom)) [
    | inl bad ↦ rw (bad, if◌then◌else◌) sound
    | inr good ↦ rw (good, if◌then◌else◌) (upsert_found-IsSound _ refl good sound)
  ]

create-IsSound :
    (s : Store) (now : Instant) (id name description : String)
    → IsSound s
    → IsSound (create s now id name description).0
unfolding create
create-IsSound s now id name description =
    insert_channel-IsSound s _ (λ e ref m same has new. none-ne-some _ new) (is_grouping refl refl)

update-IsSound :
    (s : Store) (now : Instant) (id : String) (name description : Option String)
    → IsSound s
    → IsSound (update s now id name description).0
unfolding update relabel
update-IsSound s now id name description sound =
    let hit = λ (c : Channel). has_id id c && is_custom c in
    let kept =
      alter-IsSound s hit (relabel now name description)
        (λ e. record { id = refl; kind = refl; entity_ref = refl }) sound in
    elim (Bool-cases (count_rows hit s.channels == 0)) [
      | inl none_hit ↦ rw (none_hit, if◌then◌else◌) kept
      | inr some_hit ↦ rw (some_hit, if◌then◌else◌) kept
    ]

delete_found-IsSound :
    (s : Store) (id : String) (c : Channel) → IsSound s → IsSound (delete_found s id c).0
unfolding delete_found
delete_found-IsSound s id c sound = elim (Bool-cases (is_custom c)) [
  | inl custom ↦
      rw (custom, if◌then◌else◌)
        (elim (Bool-cases (ltb 0 (count_rows (touches id) s.bridges))) [
          | inl used ↦ rw (used, if◌then◌else◌) sound
          | inr unused ↦ rw (unused, if◌then◌else◌) (remove_channel-IsSound s id sound)
        ])
  | inr provisioned ↦ rw (provisioned, if◌then◌else◌) sound
]

delete-IsSound : (s : Store) (id : String) → IsSound s → IsSound (delete s id).0
unfolding delete delete_row
delete-IsSound s id sound = each (find (has_id id) s.channels)
  where
    each : (o : Option Channel) → IsSound (delete_row s id o).0
    each none = sound
    each (some c) = delete_found-IsSound s id c sound

mark_orphans-IsSound :
    (s : Store) (now : Instant) (kind : Kind) (refs : List String)
    → IsSound s
    → IsSound (mark_orphans s now kind refs).0
unfolding mark_orphans
mark_orphans-IsSound s now kind refs sound =
    elim (Bool-cases (not (valid kind) || kind == kind_custom)) [
      | inl bad ↦ rw (bad, if◌then◌else◌) sound
      | inr good ↦
          rw (good, if◌then◌else◌)
            (alter-IsSound s (is_lost kind refs)
              (λ (c : Channel). record c { orphaned = true; updated_at = now })
              (λ e. record { id = refl; kind = refl; entity_ref = refl }) sound)
    ]

apply_change-IsSound : (c : Call) (s : Store) → IsSound s → IsSound (apply_change s c)
unfolding apply_change delete_bridge
apply_change-IsSound (ensures now id kind ref name description) s =
    ensure-IsSound s now id kind ref name description
apply_change-IsSound (creates now id name description) s = create-IsSound s now id name description
apply_change-IsSound (updates now id name description) s = update-IsSound s now id name description
apply_change-IsSound (deletes id) s = delete-IsSound s id
apply_change-IsSound (orphans now kind refs) s = mark_orphans-IsSound s now kind refs
apply_change-IsSound (bridges now id from_id to_id name) s =
    create_bridge-IsSound s now id from_id to_id name
apply_change-IsSound (unbridges id) s = keep-IsSound s (λ b. not (b.id == id))

-- Whatever calls the store takes, one after another and in whatever order: channel ids are unique,
-- and so are the entity of a channel and the ends of a bridge; exactly the custom channels have no
-- entity; every bridge joins two stored channels, one of them custom; and no bridge leads back to
-- its own start, directly or over others.
pub changed-IsSound : (cs : List Call) → IsSound (changed cs)
unfolding changed HasKeys IsAcyclic
changed-IsSound [] = record {
  keys = λ c e m. absurd m;
  entities = λ c e ref m. absurd m;
  kinds = λ c m. absurd m;
  attached = λ b m. absurd m;
  pairs = λ b c m. absurd m;
  acyclic = λ x y (b, m, s, t). absurd m;
}
changed-IsSound (c ∷ cs) = apply_change-IsSound c (changed cs) (changed-IsSound cs)
