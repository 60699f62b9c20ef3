-- ===== src/Rbac/Scope.antt =====
-- How far a grant reaches: down the hierarchy, and not across it, nor past its revocation.
use specter_cloud.Prelude.{
  ℕ, suc, ◌<◌, ◌≡◌, ◌≢◌, refl, ap, sym, ◌∙◌, inl, inr, true, Text, codes, none, some, List, All,
  Any, All-at, arith, text_eq→eq, any,
}
use specter_cloud.Models.{Uuid, Org, User}
use specter_cloud.Permissions.{
  Permission, roles_with_permission, contains, developer, platform_only_roles,
}
use specter_cloud.Permissions.Bundles.{is_in, specter_only, specter_only_roles}
use specter_cloud.Store.{Db}
use specter_cloud.Rbac.{max_hierarchy_depth, GrantRow, denied, check_permission}
use specter_cloud.Rbac.Ancestors.{Ancestor, itself, parent}
use specter_cloud.Rbac.Grants.{Reaches}
use specter_cloud.Rbac.Decision.{check_permission-Decides}

is_developer : (name : Text) → is_in name platform_only_roles ≡ true → name ≡ developer
unfolding any
is_developer name h = sym (text_eq→eq developer name (ground arith))

module _ (db : Db) (user : User) (permission : Permission) (target : Uuid) where
  abbrev Reaching : GrantRow → Type 0
  Reaching = Reaches db user.id (roles_with_permission permission) target

  denied_if_unreached :
      ((row : GrantRow) → ¬ Reaching row)
      → check_permission user permission target db ≡ denied (codes "no_matching_role_grant")
  denied_if_unreached none_reaches = elim (check_permission-Decides db user permission target) [
    | inl (row, reaches, _, _) ↦ absurd (none_reaches row reaches)
    | inr (_, e) ↦ e
  ]

  pub allowed_if_reached :
      (row : GrantRow) → Reaching row → (check_permission user permission target db).allowed ≡ true
  allowed_if_reached row reaches = elim (check_permission-Decides db user permission target) [
    | inl (_, _, _, e) ↦ rw e
    | inr (none_reaches, _) ↦ absurd (none_reaches row reaches)
  ]

  -- A user all of whose grants are revoked is denied every permission at every org.
  pub revoked_denies :
      All (λ g. g.user_id ≡ user.id → g.revoked_at ≢ none) db.user_roles
      → check_permission user permission target db ≡ denied (codes "no_matching_role_grant")
  revoked_denies revoked =
      denied_if_unreached (λ row r. All-at revoked r.in_user_roles r.of_user r.active)

  -- A user none of whose grants stands at the target org or above it is denied: a grant at another
  -- customer's org does not reach across.
  pub isolation :
      All
        (λ g.
          g.user_id ≡ user.id
          → (org : Org) (depth : ℕ) → Ancestor db.orgs target org depth
          → org.id ≢ g.org_id)
        db.user_roles
      → check_permission user permission target db ≡ denied (codes "no_matching_role_grant")
  isolation apart =
      denied_if_unreached
        (λ row r. All-at apart r.in_user_roles r.of_user r.org row.depth r.ancestor r.at_org)

  -- A user who has no role named "developer" is denied every Specter-only permission.
  pub specter_only-denied :
      contains specter_only permission ≡ true
      → All
          (λ g. g.user_id ≡ user.id → All (λ r. r.id ≡ g.role_id → r.name ≢ developer) db.roles)
          db.user_roles
      → check_permission user permission target db ≡ denied (codes "no_matching_role_grant")
  specter_only-denied only roles = denied_if_unreached (λ row r.
      All-at (All-at roles r.in_user_roles r.of_user) r.in_roles r.of_role
        (is_developer r.role.name (specter_only_roles permission r.role.name only r.is_eligible)))

-- A step to a child puts one more step before every way up.
Ancestor-child :
    {orgs : List Org} {up : Uuid} (child : Org) {o : Org} {depth : ℕ}
    → Any (λ x. x ≡ child) orgs
    → child.parent_org_id ≡ some up
    → Ancestor orgs up o depth
    → Ancestor orgs child.id o (suc depth)
Ancestor-child child m e (itself {o = p} mp ep) = parent (itself m refl) mp (e ∙ ap some (sym ep))
Ancestor-child child m e (parent a mp ep) = parent (Ancestor-child child m e a) mp ep

module _ (db : Db) (user : User) (permission : Permission) (child : Org) (up : Uuid) where
  -- A grant that allows at an org, from fewer than ten levels up, allows at the org's children too.
  pub allowed_at_child :
      Any (λ x. x ≡ child) db.orgs
      → child.parent_org_id ≡ some up
      → (row : GrantRow) → Reaches db user.id (roles_with_permission permission) up row
      → row.depth < max_hierarchy_depth
      → (check_permission user permission child.id db).allowed ≡ true
  allowed_at_child m e row r h =
      allowed_if_reached db user permission child.id (record row { depth = suc row.depth })
        (record {
          grant = r.grant;
          role = r.role;
          org = r.org;
          in_user_roles = r.in_user_roles;
          in_roles = r.in_roles;
          ancestor = Ancestor-child child m e r.ancestor;
          within = h;
          of_user = r.of_user;
          active = r.active;
          at_org = r.at_org;
          of_role = r.of_role;
          is_eligible = r.is_eligible;
          shown = ap (λ (x : GrantRow). record x { depth = suc row.depth }) r.shown;
        })
