-- ===== src/Rbac/Decision.antt =====
-- What `check_permission` decides.
use specter_cloud.Prelude.{
  true, false, none, ◌++◌, ◌≤◌, ◌≡◌, ◌≢◌, refl, ◌⊎◌, inl, inr, Text, codes, some, List, [], ◌∷◌,
  Option-cases,
}
use specter_cloud.Models.{Uuid, User}
use specter_cloud.Permissions.{Permission, roles_with_permission}
use specter_cloud.Permissions.Bundles.{roles_with_permission-ne-nil}
use specter_cloud.Store.{Db}
use specter_cloud.Rbac.{
  GrantRow, closest_grant, PermissionCheckResult, result_of_row, check_roles, check_permission,
}
use specter_cloud.Rbac.Grants.{Reaches, closest_grant-none, closest_grant-some}

-- The result allows by a closest grant that reaches the target org, and names that grant; or it
-- denies, and no grant reaches the target org.
abbrev pub Decides : Db → User → Permission → Uuid → PermissionCheckResult → Type 0
Decides db user permission target result =
    ((row : GrantRow) × Reaches db user.id (roles_with_permission permission) target row
      × ((other : GrantRow)
          → Reaches db user.id (roles_with_permission permission) target other
          → row.depth ≤ other.depth)
      × (result ≡ record {
        allowed = true;
        matched_role_id = some row.role_id;
        matched_org_id = some row.org_id;
        matched_role_name = some row.name;
        reason = codes "granted_via_" ++ row.name;
      }))
    ⊎ (((row : GrantRow) → ¬ Reaches db user.id (roles_with_permission permission) target row)
        × (result ≡ record {
          allowed = false;
          matched_role_id = none;
          matched_org_id = none;
          matched_role_name = none;
          reason = codes "no_matching_role_grant";
        }))

module _ (db : Db) (user : User) (permission : Permission) (target : Uuid) where
  -- The early return for a permission that no role grants is never taken.
  check_permission-closest_grant :
      check_permission user permission target db
      ≡ result_of_row (closest_grant (roles_with_permission permission) user target db)
  unfolding check_permission
  check_permission-closest_grant =
      go (roles_with_permission permission) (roles_with_permission-ne-nil permission)
    where
      go :
          (names : List Text)
          → names ≢ []
          → check_roles names user target db ≡ result_of_row (closest_grant names user target db)
      go [] h = absurd (h refl)
      go (n ∷ names) h = refl

  -- `check_permission` allows exactly when some active grant of an eligible role to the user stands
  -- at the target org or at an ancestor at most ten levels up; it then names a closest such grant.
  pub check_permission-Decides :
      Decides db user permission target (check_permission user permission target db)
  check_permission-Decides =
      rw check_permission-closest_grant
        (elim (Option-cases (closest_grant (roles_with_permission permission) user target db)) [
          | inl n ↦ inr (closest_grant-none db user _ target n, rw n)
          | inr (row, s) ↦
              let (reaches, closest) = closest_grant-some db user _ target row s in
              inl (row, reaches, closest, rw s)
        ])
