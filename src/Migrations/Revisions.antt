-- ===== src/Migrations/Revisions.antt =====
-- The chain of revisions: each is taken back by its downgrade, and the roles that are seeded are those of the
-- bundles.
use specter_cloud.Prelude.{
  arith, ◌||◌, if◌then◌else◌, ◌≡◌, refl, ap, Text, text_eq, Bool, false, some, List, [], ◌∷◌, any,
}
use specter_cloud.Permissions.{
  Permission, viewer, operator, planner, technician, developer, admin, role_permissions,
  platform_only_roles,
}
use specter_cloud.Permissions.Bundles.{is_in}
use specter_cloud.Migrations.Schema.{RoleSeed, Table, Op, migrate}
use specter_cloud.Migrations.Undo.{IsSound, Reverses}
use specter_cloud.Migrations.Restore.{reversal-Reverses, downgrade_restores}
use specter_cloud.Migrations.HumanTables.{role_seeds}
use specter_cloud.Migrations.Initial
use specter_cloud.Migrations.HumanAuth

pub data Revision : Type 0 where
  initial_schema_with_auth human_auth_rbac : Revision

abbrev pub upgrade_of : Revision → List Op
upgrade_of initial_schema_with_auth = Initial.upgrade
upgrade_of human_auth_rbac = HumanAuth.upgrade

abbrev pub downgrade_of : Revision → List Op
downgrade_of initial_schema_with_auth = Initial.downgrade
downgrade_of human_auth_rbac = HumanAuth.downgrade

downgrade_of-Reverses : (r : Revision) → Reverses (upgrade_of r) (downgrade_of r)
downgrade_of-Reverses initial_schema_with_auth = reversal-Reverses Initial.upgrade refl
downgrade_of-Reverses human_auth_rbac = reversal-Reverses HumanAuth.upgrade refl

-- On a schema whose foreign keys refer to tables, a revision whose upgrade succeeds is taken back by its
-- downgrade, which succeeds and leaves the tables, columns, keys and indexes as they were before.
pub revision_restores :
    (r : Revision) (ts last : List Table)
    → IsSound ts
    → migrate (upgrade_of r) ts ≡ some last
    → migrate (downgrade_of r) last ≡ some ts
revision_restores r ts last sound e =
    downgrade_restores (upgrade_of r) (downgrade_of r) ts last (downgrade_of-Reverses r) sound e

abbrev pub seed_names : List RoleSeed → List Text
seed_names [] = []
seed_names (s ∷ seeds) = s.name ∷ seed_names seeds

abbrev pub platform_seeds : List RoleSeed → List Text
platform_seeds [] = []
platform_seeds (s ∷ seeds) =
    if s.is_platform_role then s.name ∷ platform_seeds seeds else platform_seeds seeds

abbrev pub bundle_names : List (Text × List Permission) → List Text
bundle_names [] = []
bundle_names ((name, permissions) ∷ bundles) = name ∷ bundle_names bundles

admin_first :
    (p t d a : Bool) → (p || (t || (d || (a || false)))) ≡ (a || (p || (t || (d || false))))
admin_first p t d a = ground arith

-- A role is seeded exactly when there is a bundle with its name, and it is seeded as a platform role exactly when
-- it is one of the platform-only roles.
pub seeds_match :
    (name : Text)
    → (is_in name (seed_names role_seeds) ≡ is_in name (bundle_names role_permissions))
      × (is_in name (platform_seeds role_seeds) ≡ is_in name platform_only_roles)
unfolding any
seeds_match name = (
  ap (λ b. text_eq viewer name || (text_eq operator name || b))
      (admin_first (text_eq planner name) (text_eq technician name) (text_eq developer name)
        (text_eq admin name)),
  refl,
)
