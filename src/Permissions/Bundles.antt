-- ===== src/Permissions/Bundles.antt =====
-- What the bundles of app/auth/permissions.py grant to whom.
use specter_cloud.Prelude.{Text, text_eq, ◌≡◌, ◌≢◌, Bool, true, false, List, [], ◌∷◌, any, arith}
use specter_cloud.Permissions.{
  developer, admin, operator, viewer, Permission, drone_configure_advanced, platform_audit_read,
  platform_org_manage, platform_drone_manage, dev_debug, planner, technician, roles_with_permission,
  platform_only_roles, contains,
}

-- `name in names`
abbrev pub is_in : Text → List Text → Bool
is_in name names = any (λ n. text_eq n name) names

-- The permissions that the catalog lists under "Specter-org-only".
abbrev pub specter_only : List Permission
specter_only =
    drone_configure_advanced ∷ platform_audit_read ∷ platform_org_manage ∷ platform_drone_manage
    ∷ dev_debug ∷ []

-- Every permission of the catalog is in the bundle of some role.
pub roles_with_permission-ne-nil : (p : Permission) → roles_with_permission p ≢ []
unfolding roles_with_permission
roles_with_permission-ne-nil p = ground arith

-- A role that grants a permission of the Specter-only section is a platform-only role.
pub specter_only_roles :
    (p : Permission) (name : Text)
    → contains specter_only p ≡ true
    → is_in name (roles_with_permission p) ≡ true
    → is_in name platform_only_roles ≡ true
unfolding roles_with_permission any
specter_only_roles p name s h = ground arith

-- What a viewer may do, an operator, an admin and a developer may do too.
pub viewer_least :
    (p : Permission)
    → is_in viewer (roles_with_permission p) ≡ true
    → (is_in operator (roles_with_permission p) ≡ true)
      × (is_in admin (roles_with_permission p) ≡ true)
      × (is_in developer (roles_with_permission p) ≡ true)
unfolding roles_with_permission
viewer_least p h = ground arith

-- A planner and a technician are granted nothing.
pub no_gcs_personas :
    (p : Permission)
    → (is_in planner (roles_with_permission p) ≡ false)
      × (is_in technician (roles_with_permission p) ≡ false)
unfolding roles_with_permission
no_gcs_personas p = ground arith
