-- ===== src/Access/Cache.antt =====
-- The group cache of services/hub/internal/authz/cache.go. A load runs outside the lock, so that
-- `UserRoles` is two steps on the cache: the look-up, and the store after a load. The TTL is not
-- negative.
use ainsel.Prelude.{
  ℕ, ◌+◌, List, [], Option, none, some, String, if◌then◌else◌, ltb, string_eq, map,
}
use ainsel.Prelude.Dict.{lookup, insert, delete}
use ainsel.Prelude.Time.{Instant}

-- Group ids with the user's role in each.
abbrev pub RoleMap : Type 0
RoleMap = List (String × String)

pub record CacheEntry : Type 0 where
  pub roles : RoleMap
  pub expires : Instant

pub record GroupCache : Type 0 where
  pub ttl : ℕ
  pub items : List (String × CacheEntry)

-- The database query, `none` for an error.
abbrev pub Loader : Type 0
Loader = String → Option RoleMap

unfoldable pub new_group_cache : ℕ → GroupCache
new_group_cache ttl = record { ttl = ttl; items = [] }

unfoldable pub fresh_roles : Instant → Option CacheEntry → Option RoleMap
fresh_roles now none = none
fresh_roles now (some e) = if ltb now e.expires then some e.roles else none

-- The look-up under the read lock.
unfoldable pub cached : Instant → GroupCache → String → Option RoleMap
cached now cache user = fresh_roles now (lookup user cache.items)

-- The store under the write lock.
unfoldable pub store_roles : Instant → GroupCache → String → RoleMap → GroupCache
store_roles now cache user roles = record cache {
  items = insert user (record { roles = roles; expires = now + cache.ttl }) cache.items;
}

unfoldable pub after_load :
    Instant → GroupCache → String → Option RoleMap → GroupCache × Option RoleMap
after_load now cache user none = (cache, none)
after_load now cache user (some roles) = (store_roles now cache user roles, some roles)

unfoldable pub after_lookup :
    Loader → Instant → GroupCache → String → Option RoleMap → GroupCache × Option RoleMap
after_lookup load now cache user (some roles) = (cache, some roles)
after_lookup load now cache user none = after_load now cache user (load user)

-- `UserRoles`, where no other call touches the cache between its two steps.
unfoldable pub user_roles : Loader → Instant → GroupCache → String → GroupCache × Option RoleMap
user_roles load now cache user = after_lookup load now cache user (cached now cache user)

-- `roles[groupID]`, the empty role for a missing key
unfoldable pub role_in : String → RoleMap → String
role_in group roles = role_or_none (lookup group roles)
  where
    role_or_none : Option String → String
    role_or_none none = ""
    role_or_none (some r) = r

unfoldable pub with_role : String → GroupCache × Option RoleMap → GroupCache × Option String
with_role group (cache, none) = (cache, none)
with_role group (cache, some roles) = (cache, some (role_in group roles))

unfoldable pub user_role :
    Loader → Instant → GroupCache → String → String → GroupCache × Option String
user_role load now cache user group = with_role group (user_roles load now cache user)

unfoldable pub with_ids : GroupCache × Option RoleMap → GroupCache × Option (List String)
with_ids (cache, none) = (cache, none)
with_ids (cache, some roles) = (cache, some (map (λ (e : String × String). e.0) roles))

unfoldable pub group_ids :
    Loader → Instant → GroupCache → String → GroupCache × Option (List String)
group_ids load now cache user = with_ids (user_roles load now cache user)

unfoldable pub invalidate : GroupCache → String → GroupCache
invalidate cache user = record cache { items = delete user cache.items }

unfoldable pub invalidate_all : GroupCache → GroupCache
invalidate_all cache = record cache { items = [] }
