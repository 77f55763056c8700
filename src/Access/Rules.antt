-- ===== src/Access/Rules.antt =====
-- Who may do what by services/hub/internal/authz/checker.go.
use mathlib.Core.Option
use mathlib.Core.Option.{some-injective, none-ne-some}
use ainsel.Prelude.{
  ℕ, ◌≤◌, ◌≡◌, ◌↔◌, refl, sym, ap, ◌∙◌, ◌⊎◌, inl, inr, Bool, true, false, Option, none, some,
  String, if◌then◌else◌, string_eq, arith, Bool-cases,
}
use ainsel.Prelude.Dict.{lookup}
use ainsel.Access.Roles.{role_covers, role_reader, role_writer, role_owner, rank, rank_or_zero}
use ainsel.Access.Cache.{GroupCache, user_role}
use ainsel.Access.{
  Checker, ResourceGroup, Found, found, not_found, failed, Answer, is_admin, unless_admin, by_role,
  by_group, by_visibility, decide, can_read, can_write, can_manage,
}

-- The user's role in a group, as the cache answers it, has at least the given rank.
pub record HasRank (c : Checker) (cache : GroupCache) (user group : String) (n : ℕ) : Type 0 where
  pub role : String
  pub held : (user_role c.loader c.now cache user group).1 ≡ some role
  pub enough : n ≤ rank role

-- The user has the rank in the group of the resource.
pub record HasRankOn (c : Checker) (cache : GroupCache) (user kind name : String) (n : ℕ)
    : Type 0 where
  pub resource : ResourceGroup
  pub mapped : c.store.get_resource_group kind name ≡ found resource
  pub member : HasRank c cache user resource.group_id n

pub IsPublic : Checker → String → String → Type 0
IsPublic c kind name =
    (rg : ResourceGroup) × (c.store.get_resource_group kind name ≡ found rg) × (rg.is_public ≡ true)

covers_iff :
    (o : Option String) (need : String)
    → (Option.map (λ role. role_covers role need) o ≡ some true)
      ↔ ((role : String) × (o ≡ some role) × (rank need ≤ rank role))
unfolding role_covers
covers_iff none need = (λ h. absurd (none-ne-some _ h), λ (r, e, enough). absurd (none-ne-some _ e))
covers_iff (some role) need = (
  λ h. (role, refl, ground (arith, some-injective _ _ h)),
  λ (r, e, enough).
      let same = some-injective role r e in
      let less : rank need ≤ rank role = rw same enough in ap some (ground arith),
)

decide_answer :
    (test : String → Bool) (p : GroupCache × Option String)
    → (decide test p).1 ≡ Option.map test p.1
unfolding decide
decide_answer test (cache, none) = refl
decide_answer test (cache, some role) = refl

by_role_iff :
    (c : Checker) (cache : GroupCache) (user group need : String)
    → ((by_role c cache user group (λ role. role_covers role need)).1 ≡ some true)
      ↔ HasRank c cache user group (rank need)
unfolding by_role
by_role_iff c cache user group need =
    let told = user_role c.loader c.now cache user group in
    let same = decide_answer (λ role. role_covers role need) told in
    let (there, back) = covers_iff told.1 need in
    (
      λ h.
          let (role, held, enough) = there (sym same ∙ h) in
          record { role = role; held = held; enough = enough },
      λ r. same ∙ back (r.role, r.held, r.enough),
    )

-- The answer of `unless_admin` is yes for an administrator, and else as the rest says.
unless_admin_iff :
    (o : Option Bool) (cache : GroupCache) (rest : Answer)
    → ((unless_admin o cache rest).1 ≡ some true)
      ↔ ((o ≡ some true) ⊎ ((o ≡ some false) × (rest.1 ≡ some true)))
unfolding unless_admin
unless_admin_iff none cache rest = (
  λ h. absurd (none-ne-some _ h),
  λ r. elim r [ inl e ↦ absurd (none-ne-some _ e) | inr (e, _) ↦ absurd (none-ne-some _ e) ],
)
unless_admin_iff (some true) cache rest = (λ h. inl refl, λ r. refl)
unless_admin_iff (some false) cache rest = (
  λ h. inr (refl, h),
  λ r. elim r [ inl e ↦ absurd (cc (some-injective _ _ e)) | inr (_, h) ↦ h ],
)

group_of : Found ResourceGroup → String
group_of (found rg) = rg.group_id
group_of _ = ""

visibility_of : Found ResourceGroup → Bool
visibility_of (found rg) = rg.is_public
visibility_of _ = false

by_group_iff :
    (c : Checker) (cache : GroupCache) (user : String) (f : Found ResourceGroup) (need : String)
    → ((by_group c cache user f (λ role. role_covers role need)).1 ≡ some true)
      ↔ ((rg : ResourceGroup) × (f ≡ found rg) × HasRank c cache user rg.group_id (rank need))
unfolding by_group group_of
by_group_iff c cache user not_found need =
    (λ h. absurd (cc (some-injective _ _ h)), λ (rg, e, _). absurd (cc e))
by_group_iff c cache user failed need =
    (λ h. absurd (none-ne-some _ h), λ (rg, e, _). absurd (cc e))
by_group_iff c cache user (found rg) need =
    let (there, back) = by_role_iff c cache user rg.group_id need in
    (λ h. (rg, refl, there h), λ (rg', e, r). back (rw (ap group_of e) r))

public_is_open :
    (c : Checker) (cache : GroupCache) (user : String) (rg : ResourceGroup)
    → rg.is_public ≡ true
    → (by_visibility c cache user (found rg)).1 ≡ some true
unfolding by_visibility
public_is_open c cache user rg h = rw (h, if◌then◌else◌) refl

private_is_by_role :
    (c : Checker) (cache : GroupCache) (user : String) (rg : ResourceGroup)
    → rg.is_public ≡ false
    → (by_visibility c cache user (found rg)).1
      ≡ (by_role c cache user rg.group_id (λ role. role_covers role role_reader)).1
unfolding by_visibility
private_is_by_role c cache user rg h = rw (h, if◌then◌else◌) refl

by_visibility_iff :
    (c : Checker) (cache : GroupCache) (user : String) (f : Found ResourceGroup)
    → ((by_visibility c cache user f).1 ≡ some true) ↔ (
        (rg : ResourceGroup) × (f ≡ found rg)
        × ((rg.is_public ≡ true) ⊎ HasRank c cache user rg.group_id (rank role_reader)))
unfolding by_visibility group_of visibility_of
by_visibility_iff c cache user not_found =
    (λ h. absurd (cc (some-injective _ _ h)), λ (rg, e, _). absurd (cc e))
by_visibility_iff c cache user failed =
    (λ h. absurd (none-ne-some _ h), λ (rg, e, _). absurd (cc e))
by_visibility_iff c cache user (found rg) =
    let (there, back) = by_role_iff c cache user rg.group_id role_reader in
    elim (Bool-cases rg.is_public) [
      | inl shown ↦ (λ h. (rg, refl, inl shown), λ r. public_is_open c cache user rg shown)
      | inr closed ↦
          let same = private_is_by_role c cache user rg closed in
          (
            λ h. (rg, refl, inr (there (sym same ∙ h))),
            λ (rg', e, r). elim r [
              | inl shown ↦ absurd (cc (ap visibility_of e, shown, closed))
              | inr member ↦ same ∙ back (rw (ap group_of e) member)
            ],
          )
    ]

-- Who may read, write and manage a resource.
abbrev pub MayRead : Checker → GroupCache → String → String → String → Type 0
MayRead c cache user kind name =
    (is_admin c user ≡ some true)
    ⊎ ((is_admin c user ≡ some false)
        × ((rg : ResourceGroup) × (c.store.get_resource_group kind name ≡ found rg)
            × ((rg.is_public ≡ true) ⊎ HasRank c cache user rg.group_id 1)))

abbrev pub MayChange : ℕ → Checker → GroupCache → String → String → String → Type 0
MayChange n c cache user kind name =
    (is_admin c user ≡ some true)
    ⊎ ((is_admin c user ≡ some false)
        × ((rg : ResourceGroup) × (c.store.get_resource_group kind name ≡ found rg)
            × HasRank c cache user rg.group_id n))

compose : {A B C D : Type 0} → A ↔ (B ⊎ (C × D)) → {E : Type 0} → D ↔ E → A ↔ (B ⊎ (C × E))
compose (there, back) (on, off) = (
  λ a. elim (there a) [ inl b ↦ inl b | inr (c, d) ↦ inr (c, on d) ],
  λ r. back (elim r [ inl b ↦ inl b | inr (c, e) ↦ inr (c, off e) ]),
)

-- The checks say yes to nobody else: a resource may be read by an administrator, by anyone if it is
-- public, and by members of its group with a role that ranks at least as a reader; written by an
-- administrator and by writers and owners of its group; managed by an administrator and its
-- owners. A resource that no group holds is closed to all but administrators. While the user table
-- cannot be read, everything is closed; while the roles cannot be read, all that is still open to
-- those who are no administrators is to read a public resource.
pub resource_access_iff :
    (c : Checker) (cache : GroupCache) (user kind name : String)
    → (((can_read c cache user kind name).1 ≡ some true) ↔ MayRead c cache user kind name)
      × (((can_write c cache user kind name).1 ≡ some true) ↔ MayChange 2 c cache user kind name)
      × (((can_manage c cache user kind name).1 ≡ some true) ↔ MayChange 3 c cache user kind name)
unfolding can_read can_write can_manage by_group rank role_covers rank_or_zero lookup
resource_access_iff c cache user kind name =
    let f = c.store.get_resource_group kind name in
    (
      compose (unless_admin_iff (is_admin c user) cache _) (by_visibility_iff c cache user f),
      compose (unless_admin_iff (is_admin c user) cache _)
          (by_group_iff c cache user f role_writer),
      compose (unless_admin_iff (is_admin c user) cache _) (by_group_iff c cache user f role_owner),
    )

-- To manage a resource implies to write it, and to write it implies to read it.
pub access_hierarchy :
    (c : Checker) (cache : GroupCache) (user kind name : String)
    → ((can_manage c cache user kind name).1 ≡ some true
        → (can_write c cache user kind name).1 ≡ some true)
      × ((can_write c cache user kind name).1 ≡ some true
          → (can_read c cache user kind name).1 ≡ some true)
access_hierarchy c cache user kind name =
    let (read, write, manage) = resource_access_iff c cache user kind name in
    (
      λ h. write.1 (elim (manage.0 h) [
        | inl admin ↦ inl admin
        | inr (plain, (rg, e, r)) ↦ inr (
          plain,
          (rg, e, record { role = r.role; held = r.held; enough = omega (arith, r.enough) }),
        )
      ]),
      λ h. read.1 (elim (write.0 h) [
        | inl admin ↦ inl admin
        | inr (plain, (rg, e, r)) ↦ inr (
          plain,
          (rg, e, inr (record { role = r.role; held = r.held; enough = omega (arith, r.enough) })),
        )
      ]),
    )
