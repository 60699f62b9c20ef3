-- ===== src/Examples/Permissions.antt =====
-- Examples of the role bundles.
use specter_cloud.Prelude.{◌≡◌, refl, false, [], ◌∷◌}
use specter_cloud.Permissions.{
  mission_read, mission_write, operator, planner, technician, roles_with_permission,
}
use specter_cloud.Permissions.Bundles.{is_in, no_gcs_personas}

roles_with_permission-mission_write : roles_with_permission mission_write ≡ operator ∷ []
unfolding roles_with_permission
roles_with_permission-mission_write = refl

no_gcs_personas_example :
    (is_in planner (roles_with_permission mission_read) ≡ false)
    × (is_in technician (roles_with_permission mission_read) ≡ false)
no_gcs_personas_example = no_gcs_personas mission_read
