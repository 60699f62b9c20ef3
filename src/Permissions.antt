-- ===== src/Permissions.antt =====
-- app/auth/permissions.py: the permission catalog and the role bundles.
pub mod Bundles
use specter_cloud.Prelude.{Text, codes, text_eq, Bool, List, [], ◌∷◌, any, if◌then◌else◌}

pub data Permission : Type 0 where
  drone_read telemetry_read video_read mission_read : Permission
  mission_write drone_configure : Permission
  user_invite user_remove user_assign_role org_settings audit_read : Permission
  drone_configure_advanced : Permission
  platform_audit_read platform_org_manage platform_drone_manage dev_debug : Permission

-- the string that the enum member is
unfoldable pub value : Permission → Text
value drone_read = codes "drone:read"
value telemetry_read = codes "telemetry:read"
value video_read = codes "video:read"
value mission_read = codes "mission:read"
value mission_write = codes "mission:write"
value drone_configure = codes "drone:configure"
value user_invite = codes "user:invite"
value user_remove = codes "user:remove"
value user_assign_role = codes "user:assign_role"
value org_settings = codes "org:settings"
value audit_read = codes "audit:read"
value drone_configure_advanced = codes "drone:configure_advanced"
value platform_audit_read = codes "platform:audit_read"
value platform_org_manage = codes "platform:org_manage"
value platform_drone_manage = codes "platform:drone_manage"
value dev_debug = codes "dev:debug"

-- `permission in perms`
unfoldable pub contains : List Permission → Permission → Bool
unfolding value text_eq any
contains perms p = any (λ q. text_eq (value q) (value p)) perms

abbrev pub viewer : Text
viewer = codes "viewer"

abbrev pub operator : Text
operator = codes "operator"

abbrev pub admin : Text
admin = codes "admin"

abbrev pub planner : Text
planner = codes "planner"

abbrev pub technician : Text
technician = codes "technician"

abbrev pub developer : Text
developer = codes "developer"

abbrev pub role_permissions : List (Text × List Permission)
role_permissions =
    (viewer, drone_read ∷ telemetry_read ∷ video_read ∷ mission_read ∷ [])
    ∷ (operator, drone_read ∷ telemetry_read ∷ video_read ∷ mission_read ∷ mission_write ∷ [])
    ∷ (
      admin,
      drone_read ∷ telemetry_read ∷ video_read ∷ mission_read ∷ user_invite ∷ user_remove
          ∷ user_assign_role ∷ org_settings ∷ audit_read ∷ [],
    )
    ∷ (planner, [])
    ∷ (technician, [])
    ∷ (
      developer,
      drone_read ∷ telemetry_read ∷ video_read ∷ mission_read ∷ drone_configure
          ∷ drone_configure_advanced ∷ platform_audit_read ∷ platform_org_manage
          ∷ platform_drone_manage ∷ dev_debug ∷ [],
    )
    ∷ []

abbrev pub platform_only_roles : List Text
platform_only_roles = developer ∷ []

unfoldable pub names_granting : Permission → List (Text × List Permission) → List Text
unfolding contains
names_granting p [] = []
names_granting p ((name, perms) ∷ rest) =
    if contains perms p then name ∷ names_granting p rest else names_granting p rest

unfoldable pub roles_with_permission : Permission → List Text
unfolding names_granting
roles_with_permission p = names_granting p role_permissions
