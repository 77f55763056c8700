-- ===== src/Access.antt =====
-- services/hub/internal/authz: the group cache (cache.go), the roles (types.go) and the checks
-- (checker.go). The user table, the resource table and the cache's loader are parameters.
pub mod Roles
pub mod Cache
pub mod Rules
pub mod Staleness
mod Tests
use ainsel.Prelude.{
  ℕ, Bool, true, false, List, Option, none, some, String, if◌then◌else◌, ◌==◌, string_eq,
}
use ainsel.Prelude.Time.{Instant}
use Roles.{role_covers, role_reader, role_writer, role_owner}
use Cache.{GroupCache, Loader, user_role}

-- What a store query returns: `ErrNotFound` is told apart from other errors.
pub data Found (A : Type 0) : Type 0 where
  found : A → Found A
  not_found : Found A
  failed : Found A

-- The fields that the checks read.
pub record User : Type 0 where
  pub id : String
  pub is_admin : Bool

-- The fields that the checks read.
pub record ResourceGroup : Type 0 where
  pub group_id : String
  pub is_public : Bool

pub record CheckerStore : Type 0 where
  pub get_user : String → Found User
  pub get_resource_group : String → String → Found ResourceGroup

-- The store, the loader behind the cache, and the time of the check.
pub record Checker : Type 0 where
  pub store : CheckerStore
  pub loader : Loader
  pub now : Instant

-- An answer, or `none` for an error; with the cache that the check leaves.
abbrev pub Answer : Type 0
Answer = GroupCache × Option Bool

unfoldable pub admin_flag : Found User → Option Bool
admin_flag (found u) = some u.is_admin
admin_flag not_found = none
admin_flag failed = none

unfoldable pub is_admin : Checker → String → Option Bool
is_admin c user = admin_flag (c.store.get_user user)

-- The decision on the role that the cache gave.
unfoldable pub decide : (String → Bool) → GroupCache × Option String → Answer
decide test (cache, none) = (cache, none)
decide test (cache, some role) = (cache, some (test role))

unfoldable pub by_role : Checker → GroupCache → String → String → (String → Bool) → Answer
by_role c cache user group test = decide test (user_role c.loader c.now cache user group)

-- Past the check for administrators, which ends it with an error or with yes.
unfoldable pub unless_admin : Option Bool → GroupCache → Answer → Answer
unless_admin none cache rest = (cache, none)
unless_admin (some true) cache rest = (cache, some true)
unless_admin (some false) cache rest = rest

-- The resource's group decides; a resource without one is closed.
unfoldable pub by_group :
    Checker → GroupCache → String → Found ResourceGroup → (String → Bool) → Answer
by_group c cache user not_found test = (cache, some false)
by_group c cache user failed test = (cache, none)
by_group c cache user (found rg) test = by_role c cache user rg.group_id test

unfoldable pub by_visibility : Checker → GroupCache → String → Found ResourceGroup → Answer
by_visibility c cache user not_found = (cache, some false)
by_visibility c cache user failed = (cache, none)
by_visibility c cache user (found rg) =
    let member = by_role c cache user rg.group_id (λ role. role_covers role role_reader) in
    if rg.is_public then (cache, some true) else member

unfoldable pub can_read : Checker → GroupCache → String → String → String → Answer
can_read c cache user kind name =
    unless_admin (is_admin c user) cache
      (by_visibility c cache user (c.store.get_resource_group kind name))

unfoldable pub can_write : Checker → GroupCache → String → String → String → Answer
can_write c cache user kind name = unless_admin (is_admin c user) cache (
    by_group c cache user (c.store.get_resource_group kind name)
      (λ role. role_covers role role_writer))

unfoldable pub can_manage : Checker → GroupCache → String → String → String → Answer
can_manage c cache user kind name = unless_admin (is_admin c user) cache (
    by_group c cache user (c.store.get_resource_group kind name)
      (λ role. role_covers role role_owner))

unfoldable pub can_manage_group : Checker → GroupCache → String → String → Answer
can_manage_group c cache user group =
    unless_admin (is_admin c user) cache (by_role c cache user group (λ role. role == role_owner))

unfoldable pub can_write_group : Checker → GroupCache → String → String → Answer
can_write_group c cache user group =
    unless_admin (is_admin c user) cache
      (by_role c cache user group (λ role. role_covers role role_writer))
