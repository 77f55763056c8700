-- ===== src/Access/Tests.antt =====
-- The theorems about authorisation at a concrete hub.
use ainsel.Prelude.{◌<◌, ◌+◌, ◌≡◌, ◌↔◌, refl, true, false, List, [], ◌∷◌, some, string_eq, arith}
use ainsel.Prelude.Dict.{lookup, insert, delete}
use ainsel.Prelude.Time.{Instant}
use ainsel.Access.Roles.{role_covers, rank, rank_or_zero}
use ainsel.Access.Cache.{
  RoleMap, Loader, user_roles, new_group_cache, fresh_roles, cached, store_roles, invalidate,
  role_in,
}
use ainsel.Access.{Checker, found, is_admin, can_read, can_write, can_manage, admin_flag}
use ainsel.Access.Rules.{MayRead, MayChange, resource_access_iff}
use ainsel.Access.Staleness.{
  Change, stored, invalidated, after_changes, apply_change, IsLastStored, overtaken_roles,
  cached-after_changes, can_write-revoked,
}

abbrev as_writer : RoleMap
as_writer = ("g1", "writer") ∷ []

-- A plain user, a resource of group g1, and a database that knows no role of the user any more.
abbrev hub : Checker
hub = record {
  store = record {
    get_user = λ u. found (record { id = u; is_admin = false });
    get_resource_group = λ k n. found (record { group_id = "g1"; is_public = false });
  };
  loader = λ u. some [];
  now = 130;
}

resource_access_iff_example :
    (((can_read hub (new_group_cache 60) "eve" "agent" "bot").1 ≡ some true)
      ↔ MayRead hub (new_group_cache 60) "eve" "agent" "bot")
    × (((can_write hub (new_group_cache 60) "eve" "agent" "bot").1 ≡ some true)
        ↔ MayChange 2 hub (new_group_cache 60) "eve" "agent" "bot")
    × (((can_manage hub (new_group_cache 60) "eve" "agent" "bot").1 ≡ some true)
        ↔ MayChange 3 hub (new_group_cache 60) "eve" "agent" "bot")
resource_access_iff_example = resource_access_iff hub (new_group_cache 60) "eve" "agent" "bot"

abbrev changes : List Change
changes = invalidated "bob" ∷ stored 100 "eve" as_writer ∷ stored 90 "bob" as_writer ∷ []

cached-after_changes_example :
    (cached 130 (after_changes 60 changes) "eve" ≡ some as_writer)
    ↔ ((t : Instant) × IsLastStored "eve" t as_writer changes × (130 < t + 60))
cached-after_changes_example = cached-after_changes 60 changes 130 "eve" as_writer

served : cached 130 (after_changes 60 changes) "eve" ≡ some as_writer
unfolding cached fresh_roles after_changes apply_change store_roles invalidate new_group_cache
    lookup insert delete
served = refl

-- The database before the role was taken away.
abbrev earlier : Loader
earlier = λ u. some as_writer

can_write-revoked_example :
    ((can_write hub
        (overtaken_roles earlier 99 100 (new_group_cache 60) "eve").0
        "eve"
        "agent"
        "bot").1
      ≡ some true)
    × ((can_write hub
          (invalidate (user_roles earlier 99 (new_group_cache 60) "eve").0 "eve")
          "eve"
          "agent"
          "bot").1
        ≡ some false)
unfolding is_admin admin_flag role_covers role_in rank rank_or_zero lookup new_group_cache cached
    fresh_roles
can_write-revoked_example =
    can_write-revoked hub earlier 99 100 (new_group_cache 60) "eve" "agent" "bot" {old = as_writer}
      {new = []} {rg = record { group_id = "g1"; is_public = false }} refl refl refl refl refl refl
      refl (omega arith)
