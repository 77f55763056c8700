-- ===== src/Access/Staleness.antt =====
-- How old an answer of the group cache of services/hub/internal/authz/cache.go can be, and what an
-- invalidation is worth.
use mathlib.Core.Option.{none-ne-some, some-injective}
use ainsel.Prelude.{
  ℕ, ◌+◌, ◌<◌, ◌≡◌, refl, true, false, List, [], ◌∷◌, Option, none, some, String, if◌then◌else◌,
  ◌==◌, string_eq, ==_refl, ==_false, lt→ltb, ltb→lt, ltb, ◌≢◌, ◌⊎◌, ◌↔◌, inl, inr, sym, ap, subst,
  Bool-cases,
}
use ainsel.Prelude.Dict.{lookup, lookup-insert, lookup-delete}
use ainsel.Prelude.Time.{Instant}
use ainsel.Access.Roles.{role_covers, role_writer}
use ainsel.Access.Cache.{
  RoleMap, CacheEntry, GroupCache, Loader, new_group_cache, fresh_roles, cached, store_roles,
  after_load, after_lookup, user_roles, invalidate, invalidate_all, role_in, with_role, user_role,
}
use ainsel.Access.{
  Checker, ResourceGroup, found, is_admin, can_write, unless_admin, by_group, by_role, decide,
}

-- A write to the cache. A load that `stored` was begun some time before.
pub data Change : Type 0 where
  stored : Instant → String → RoleMap → Change
  invalidated : String → Change
  cleared : Change

unfoldable pub apply_change : GroupCache → Change → GroupCache
apply_change cache (stored t user roles) = store_roles t cache user roles
apply_change cache (invalidated user) = invalidate cache user
apply_change cache cleared = invalidate_all cache

-- The changes, most recent first.
unfoldable pub after_changes : ℕ → List Change → GroupCache
after_changes ttl [] = new_group_cache ttl
after_changes ttl (c ∷ cs) = apply_change (after_changes ttl cs) c

-- The entry last stored for a user, unless it was invalidated since.
unfoldable pub last_stored : ℕ → String → List Change → Option CacheEntry
last_stored ttl user [] = none
last_stored ttl user (stored t u roles ∷ cs) =
    if u == user
    then some (record { roles = roles; expires = t + ttl })
    else last_stored ttl user cs
last_stored ttl user (invalidated u ∷ cs) = if u == user then none else last_stored ttl user cs
last_stored ttl user (cleared ∷ cs) = none

ttl_kept : (ttl : ℕ) (cs : List Change) → (after_changes ttl cs).ttl ≡ ttl
unfolding after_changes apply_change new_group_cache store_roles invalidate invalidate_all
ttl_kept ttl [] = refl
ttl_kept ttl (stored t u roles ∷ cs) = ttl_kept ttl cs
ttl_kept ttl (invalidated u ∷ cs) = ttl_kept ttl cs
ttl_kept ttl (cleared ∷ cs) = ttl_kept ttl cs

items_are :
    (ttl : ℕ) (user : String) (cs : List Change)
    → lookup user (after_changes ttl cs).items ≡ last_stored ttl user cs
unfolding after_changes apply_change new_group_cache store_roles invalidate invalidate_all
    last_stored
items_are ttl user [] = unfold lookup in refl
items_are ttl user (stored t u roles ∷ cs) =
    rw (lookup-insert, items_are ttl user cs, ttl_kept ttl cs) refl
items_are ttl user (invalidated u ∷ cs) = rw (lookup-delete, items_are ttl user cs) refl
items_are ttl user (cleared ∷ cs) = unfold lookup in refl

-- The roles were stored for the user at the time, and no later change stored or invalidated them.
unfoldable pub IsLastStored : String → Instant → RoleMap → List Change → Type 0
IsLastStored user t roles [] = ⊥
IsLastStored user t roles (stored at u given ∷ cs) =
    ((u ≡ user) × (at ≡ t) × (given ≡ roles)) ⊎ ((u ≢ user) × IsLastStored user t roles cs)
IsLastStored user t roles (invalidated u ∷ cs) = (u ≢ user) × IsLastStored user t roles cs
IsLastStored user t roles (cleared ∷ cs) = ⊥

last_stored-found :
    (ttl : ℕ) (user : String) (cs : List Change) (e : CacheEntry)
    → last_stored ttl user cs ≡ some e
    → (t : Instant) × IsLastStored user t e.roles cs × (e.expires ≡ t + ttl)
unfolding last_stored IsLastStored
last_stored-found ttl user [] e h = absurd (none-ne-some _ h)
last_stored-found ttl user (stored at u given ∷ cs) e h = elim (Bool-cases (u == user)) [
  | inl same ↦
      let entry : record { roles = given; expires = at + ttl } ≡ e =
        some-injective _ _ (rw (same, if◌then◌else◌) at h) in
      (
        at,
        inl ((string_eq.beq_iff u user).0 same, refl, ap (λ (x : CacheEntry). x.roles) entry),
        sym (ap (λ (x : CacheEntry). x.expires) entry),
      )
  | inr other ↦
      let (t, last, until) = last_stored-found ttl user cs e (rw (other, if◌then◌else◌) at h) in
      (t, inr (λ same. cc (other, (string_eq.beq_iff u user).1 same), last), until)
]
last_stored-found ttl user (invalidated u ∷ cs) e h = elim (Bool-cases (u == user)) [
  | inl same ↦ absurd (none-ne-some _ (rw (same, if◌then◌else◌) at h))
  | inr other ↦
      let (t, last, until) = last_stored-found ttl user cs e (rw (other, if◌then◌else◌) at h) in
      (t, (λ same. cc (other, (string_eq.beq_iff u user).1 same), last), until)
]
last_stored-found ttl user (cleared ∷ cs) e h = absurd (none-ne-some _ h)

last_stored-finds :
    (ttl : ℕ) (user : String) (t : Instant) (roles : RoleMap) (cs : List Change)
    → IsLastStored user t roles cs
    → last_stored ttl user cs ≡ some (record { roles = roles; expires = t + ttl })
unfolding last_stored IsLastStored
last_stored-finds ttl user t roles [] h = absurd h
last_stored-finds ttl user t roles (stored at u given ∷ cs) (inl (same, when, what)) =
    rw (same, when, what, ==_refl user, if◌then◌else◌) refl
last_stored-finds ttl user t roles (stored at u given ∷ cs) (inr (other, last)) =
    rw (==_false u user other, if◌then◌else◌) (last_stored-finds ttl user t roles cs last)
last_stored-finds ttl user t roles (invalidated u ∷ cs) (other, last) =
    rw (==_false u user other, if◌then◌else◌) (last_stored-finds ttl user t roles cs last)
last_stored-finds ttl user t roles (cleared ∷ cs) h = absurd h

fresh_roles-served :
    (now : Instant) (o : Option CacheEntry) {roles : RoleMap}
    → fresh_roles now o ≡ some roles
    → (e : CacheEntry) × (o ≡ some e) × (now < e.expires) × (e.roles ≡ roles)
unfolding fresh_roles
fresh_roles-served now none h = absurd (none-ne-some _ h)
fresh_roles-served now (some e) h = elim (Bool-cases (ltb now e.expires)) [
  | inl soon ↦
      (e, refl, ltb→lt now e.expires soon, some-injective _ _ (rw (soon, if◌then◌else◌) at h))
  | inr late ↦ absurd (none-ne-some _ (rw (late, if◌then◌else◌) at h))
]

-- Whatever calls changed the cache, in whatever order they finished, a look-up serves some roles for
-- a user if and only if they are the roles stored last for the user, less than the TTL ago, and no
-- invalidation of the user nor one of all users came after.
pub cached-after_changes :
    (ttl : ℕ) (cs : List Change) (now : Instant) (user : String) (roles : RoleMap)
    → (cached now (after_changes ttl cs) user ≡ some roles)
      ↔ ((t : Instant) × IsLastStored user t roles cs × (now < t + ttl))
unfolding cached fresh_roles
cached-after_changes ttl cs now user roles = rw (items_are ttl user cs) (
  λ h.
      let (e, held, soon, same) = fresh_roles-served now (last_stored ttl user cs) h in
      let (t, last, until) = last_stored-found ttl user cs e held in
      (t, subst (λ r. IsLastStored user t r cs) same last, rw⁻¹ until soon),
  λ (t, last, soon).
      rw (last_stored-finds ttl user t roles cs last, fresh_roles, lt→ltb now (t + ttl) soon) refl,
)

-- `UserRoles`, begun at one time and ended at another, where an invalidation of the user comes while
-- its query runs: after the look-up and the load, and before the store.
unfoldable pub overtaken_roles :
    Loader → Instant → Instant → GroupCache → String → GroupCache × Option RoleMap
overtaken_roles load begun ended cache user =
    after_lookup load ended (invalidate cache user) user (cached begun cache user)

-- A stored answer lets a writer write until the TTL has passed.
can_write-stored :
    (c : Checker) (cache : GroupCache) (user kind name : String) (old : RoleMap) (t : Instant)
    {rg : ResourceGroup}
    → is_admin c user ≡ some false
    → c.store.get_resource_group kind name ≡ found rg
    → role_covers (role_in rg.group_id old) role_writer ≡ true
    → c.now < t + cache.ttl
    → (can_write c (store_roles t (invalidate cache user) user old) user kind name).1 ≡ some true
unfolding can_write unless_admin by_group by_role decide user_role with_role user_roles cached
    after_lookup store_roles fresh_roles invalidate
can_write-stored c cache user kind name old t {rg} plain mapped covers soon =
    rw
      (
        plain,
        unless_admin,
        mapped,
        by_group,
        lookup-insert,
        ==_refl user,
        if◌then◌else◌,
        fresh_roles,
        lt→ltb c.now (t + cache.ttl) soon,
        after_lookup,
        with_role,
        decide,
        covers,
      )
      refl

overtaken_roles_lem :
    (load : Loader) (begun ended : Instant) (cache : GroupCache) (user : String) {old : RoleMap}
    → cached begun cache user ≡ none
    → load user ≡ some old
    → (overtaken_roles load begun ended cache user).0
      ≡ store_roles ended (invalidate cache user) user old
unfolding overtaken_roles after_lookup after_load
overtaken_roles_lem load begun ended cache user missed loaded =
    rw (missed, after_lookup, loaded, after_load) refl

-- An invalidation can be lost. A call that missed the cache has loaded roles which make the user a
-- writer of the resource's group; then the role is taken away and the user invalidated. If the call
-- stores its result only after that, the user may still write the resource until the TTL has passed,
-- though the database says no; if the call had finished before the invalidation, the user may not.
pub can_write-revoked :
    (c : Checker) (load : Loader) (begun ended : Instant) (cache : GroupCache)
    (user kind name : String) {old new : RoleMap} {rg : ResourceGroup}
    → is_admin c user ≡ some false
    → c.store.get_resource_group kind name ≡ found rg
    → cached begun cache user ≡ none
    → load user ≡ some old
    → role_covers (role_in rg.group_id old) role_writer ≡ true
    → c.loader user ≡ some new
    → role_covers (role_in rg.group_id new) role_writer ≡ false
    → c.now < ended + cache.ttl
    → ((can_write c (overtaken_roles load begun ended cache user).0 user kind name).1 ≡ some true)
      × ((can_write c (invalidate (user_roles load begun cache user).0 user) user kind name).1
          ≡ some false)
unfolding can_write unless_admin by_group by_role decide user_role with_role user_roles cached
    after_lookup after_load fresh_roles invalidate
can_write-revoked c load begun ended cache user kind name {old} {new} {rg} plain mapped missed
      loaded covers known lacks soon =
    (
      rw (overtaken_roles_lem load begun ended cache user missed loaded)
          (can_write-stored c cache user kind name old ended plain mapped covers soon),
      rw
          (
            plain,
            unless_admin,
            mapped,
            by_group,
            lookup-delete,
            ==_refl user,
            if◌then◌else◌,
            fresh_roles,
            after_lookup,
            known,
            after_load,
            with_role,
            decide,
            lacks,
          )
          refl,
    )
