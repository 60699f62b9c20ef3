-- ===== src/Migrations/HumanAuth.antt =====
-- alembic/versions/c4a72f3b8d91_human_auth_rbac.py.
use specter_cloud.Prelude.{Text, codes, some, List, [], ◌∷◌}
use specter_cloud.Migrations.Schema.{
  uuid, Column, ForeignKey, Index, Op, create_table, create_index, add_column, create_foreign_key,
  bulk_insert, drop_table, drop_index, drop_constraint, drop_column,
}
use specter_cloud.Migrations.Initial.{nullable, to_id, plain_index}
use specter_cloud.Migrations.HumanTables.{
  users_table, roles_table, role_seeds, user_roles_table, sessions_table, audit_log_table,
}

abbrev pub partial_index : Text → List Text → Text → Index
partial_index name columns condition = record {
  name = name;
  columns = columns;
  condition = some condition;
}

abbrev active : Text
active = codes "revoked_at IS NULL"

abbrev pub parent_org_id : Column
parent_org_id = nullable (codes "parent_org_id") uuid

abbrev pub parent_key : ForeignKey
parent_key = to_id (codes "parent_org_id") (codes "orgs") (some (codes "RESTRICT"))

abbrev pub upgrade : List Op
upgrade =
    add_column (codes "orgs") parent_org_id
    ∷ create_foreign_key (codes "fk_orgs_parent_org_id") parent_key (codes "orgs")
    ∷ create_index (codes "orgs")
        (plain_index (codes "ix_orgs_parent_org_id") (codes "parent_org_id" ∷ []))
    ∷ create_table users_table
    ∷ create_index (codes "users") (plain_index (codes "ix_users_org_id") (codes "org_id" ∷ []))
    ∷ create_table roles_table
    ∷ bulk_insert (codes "roles") role_seeds
    ∷ create_table user_roles_table
    ∷ create_index (codes "user_roles") (
        partial_index (codes "ix_user_roles_active") (codes "user_id" ∷ codes "org_id" ∷ []) active)
    ∷ create_index (codes "user_roles")
        (partial_index (codes "ix_user_roles_org_active") (codes "org_id" ∷ []) active)
    ∷ create_table sessions_table
    ∷ create_index (codes "sessions")
        (partial_index (codes "ix_sessions_user_active") (codes "user_id" ∷ []) active)
    ∷ create_index (codes "sessions")
        (plain_index (codes "ix_sessions_token_hash") (codes "token_hash" ∷ []))
    ∷ create_table audit_log_table
    ∷ create_index (codes "audit_log")
        (plain_index (codes "ix_audit_user_time") (codes "user_id" ∷ codes "created_at" ∷ []))
    ∷ create_index (codes "audit_log") (
        plain_index (codes "ix_audit_resource")
          (codes "resource_type" ∷ codes "resource_id" ∷ codes "created_at" ∷ []))
    ∷ create_index (codes "audit_log") (
        partial_index (codes "ix_audit_deny_time") (codes "created_at" ∷ [])
          (codes "decision = 'deny'"))
    ∷ []

abbrev pub downgrade : List Op
downgrade =
    drop_index (codes "ix_audit_deny_time") (codes "audit_log")
    ∷ drop_index (codes "ix_audit_resource") (codes "audit_log")
    ∷ drop_index (codes "ix_audit_user_time") (codes "audit_log")
    ∷ drop_table (codes "audit_log")
    ∷ drop_index (codes "ix_sessions_token_hash") (codes "sessions")
    ∷ drop_index (codes "ix_sessions_user_active") (codes "sessions")
    ∷ drop_table (codes "sessions")
    ∷ drop_index (codes "ix_user_roles_org_active") (codes "user_roles")
    ∷ drop_index (codes "ix_user_roles_active") (codes "user_roles")
    ∷ drop_table (codes "user_roles")
    ∷ drop_table (codes "roles")
    ∷ drop_index (codes "ix_users_org_id") (codes "users")
    ∷ drop_table (codes "users")
    ∷ drop_index (codes "ix_orgs_parent_org_id") (codes "orgs")
    ∷ drop_constraint (codes "fk_orgs_parent_org_id") (codes "orgs")
    ∷ drop_column (codes "orgs") (codes "parent_org_id")
    ∷ []
