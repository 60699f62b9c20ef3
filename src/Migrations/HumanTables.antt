-- ===== src/Migrations/HumanTables.antt =====
-- The tables and the roles of alembic/versions/c4a72f3b8d91_human_auth_rbac.py.
use specter_cloud.Prelude.{codes, true, false, some, List, [], ◌∷◌}
use specter_cloud.Permissions.{viewer, operator, planner, technician, developer, admin}
use specter_cloud.Migrations.Schema.{
  uuid, boolean, datetime, small_integer, integer, big_integer, text, inet, jsonb, string, Table,
  RoleSeed,
}
use specter_cloud.Migrations.Initial.{
  required, nullable, defaulted, created_at, updated_at, is_active, id_column, to_id, unique,
}

abbrev pub users_table : Table
users_table = record {
  name = codes "users";
  columns =
      id_column
      ∷ required (codes "email") (string 254)
      ∷ required (codes "password_hash") (string 128)
      ∷ required (codes "name") (string 120)
      ∷ required (codes "org_id") uuid
      ∷ is_active
      ∷ nullable (codes "last_login_at") datetime
      ∷ nullable (codes "email_verified_at") datetime
      ∷ defaulted (codes "failed_login_count") integer (codes "0")
      ∷ nullable (codes "locked_until") datetime
      ∷ created_at
      ∷ updated_at
      ∷ [];
  primary_key = codes "id" ∷ [];
  uniques = unique (some (codes "uq_users_email")) (codes "email" ∷ []) ∷ [];
  foreign_keys = to_id (codes "org_id") (codes "orgs") (some (codes "RESTRICT")) ∷ [];
  indexes = [];
}

abbrev pub roles_table : Table
roles_table = record {
  name = codes "roles";
  columns =
      required (codes "id") small_integer
      ∷ required (codes "name") (string 40)
      ∷ required (codes "description") text
      ∷ defaulted (codes "is_platform_role") boolean (codes "false")
      ∷ created_at
      ∷ [];
  primary_key = codes "id" ∷ [];
  uniques = unique (some (codes "uq_roles_name")) (codes "name" ∷ []) ∷ [];
  foreign_keys = [];
  indexes = [];
}

abbrev pub role_seeds : List RoleSeed
role_seeds =
    record {
      id = 1;
      name = viewer;
      description = codes "Read-only access to drones, telemetry, video, missions.";
      is_platform_role = false;
    }
    ∷ record {
      id = 2;
      name = operator;
      description = codes "Fly drones, design and execute missions.";
      is_platform_role = false;
    }
    ∷ record {
      id = 3;
      name = planner;
      description = codes "Design missions; GCS-side persona, no cloud permissions in v1.";
      is_platform_role = false;
    }
    ∷ record {
      id = 4;
      name = technician;
      description =
          codes
            "Hardware setup, calibration, firmware, log analysis; GCS-side persona, no cloud permissions in v1.";
      is_platform_role = false;
    }
    ∷ record {
      id = 5;
      name = developer;
      description =
          codes
            "Specter-internal: advanced drone params, platform tooling, dev diagnostics. Granted only at Specter root org.";
      is_platform_role = true;
    }
    ∷ record {
      id = 6;
      name = admin;
      description =
          codes
            "User management, org settings, audit access. Scope determined by org tier of grant.";
      is_platform_role = false;
    }
    ∷ []

abbrev pub user_roles_table : Table
user_roles_table = record {
  name = codes "user_roles";
  columns =
      required (codes "user_id") uuid
      ∷ required (codes "org_id") uuid
      ∷ required (codes "role_id") small_integer
      ∷ nullable (codes "granted_by") uuid
      ∷ defaulted (codes "granted_at") datetime (codes "now()")
      ∷ nullable (codes "revoked_by") uuid
      ∷ nullable (codes "revoked_at") datetime
      ∷ nullable (codes "revoked_reason") text
      ∷ [];
  primary_key = codes "user_id" ∷ codes "org_id" ∷ codes "role_id" ∷ [];
  uniques = [];
  foreign_keys =
      to_id (codes "user_id") (codes "users") (some (codes "CASCADE"))
      ∷ to_id (codes "org_id") (codes "orgs") (some (codes "CASCADE"))
      ∷ to_id (codes "role_id") (codes "roles") (some (codes "RESTRICT"))
      ∷ to_id (codes "granted_by") (codes "users") (some (codes "SET NULL"))
      ∷ to_id (codes "revoked_by") (codes "users") (some (codes "SET NULL"))
      ∷ [];
  indexes = [];
}

abbrev pub sessions_table : Table
sessions_table = record {
  name = codes "sessions";
  columns =
      id_column
      ∷ required (codes "user_id") uuid
      ∷ required (codes "token_hash") (string 64)
      ∷ required (codes "transport") (string 16)
      ∷ nullable (codes "user_agent") (string 500)
      ∷ nullable (codes "ip_address") inet
      ∷ created_at
      ∷ required (codes "expires_at") datetime
      ∷ defaulted (codes "last_seen_at") datetime (codes "now()")
      ∷ nullable (codes "revoked_at") datetime
      ∷ nullable (codes "revoked_reason") (string 40)
      ∷ [];
  primary_key = codes "id" ∷ [];
  uniques = unique (some (codes "uq_sessions_token_hash")) (codes "token_hash" ∷ []) ∷ [];
  foreign_keys = to_id (codes "user_id") (codes "users") (some (codes "CASCADE")) ∷ [];
  indexes = [];
}

abbrev pub audit_log_table : Table
audit_log_table = record {
  name = codes "audit_log";
  columns =
      record (required (codes "id") big_integer) { autoincrement = true }
      ∷ nullable (codes "user_id") uuid
      ∷ nullable (codes "request_id") uuid
      ∷ required (codes "action") (string 60)
      ∷ nullable (codes "permission") (string 60)
      ∷ nullable (codes "resource_type") (string 40)
      ∷ nullable (codes "resource_id") (string 64)
      ∷ nullable (codes "target_org_id") uuid
      ∷ nullable (codes "matched_role_id") small_integer
      ∷ nullable (codes "matched_org_id") uuid
      ∷ required (codes "decision") (string 10)
      ∷ nullable (codes "reason") text
      ∷ nullable (codes "ip_address") inet
      ∷ nullable (codes "user_agent") (string 500)
      ∷ nullable (codes "metadata") jsonb
      ∷ created_at
      ∷ [];
  primary_key = codes "id" ∷ [];
  uniques = [];
  foreign_keys =
      to_id (codes "user_id") (codes "users") (some (codes "SET NULL"))
      ∷ to_id (codes "target_org_id") (codes "orgs") (some (codes "SET NULL"))
      ∷ to_id (codes "matched_role_id") (codes "roles") (some (codes "SET NULL"))
      ∷ to_id (codes "matched_org_id") (codes "orgs") (some (codes "SET NULL"))
      ∷ [];
  indexes = [];
}
