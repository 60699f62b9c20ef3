-- ===== src/Models.antt =====
-- app/models: one record for each table, one field for each column.
use specter_cloud.Prelude.{ℕ, Text, Bool, Option, List}

-- A UUID, only ever compared.
abbrev pub Uuid : Type 0
Uuid = ℕ

-- A moment, in microseconds since the first one that Python's `datetime` has.
abbrev pub Datetime : Type 0
Datetime = ℕ

-- app/models/org.py
pub record Org : Type 0 where
  pub id : Uuid
  pub name : Text
  pub slug : Text
  pub parent_org_id : Option Uuid
  pub created_at : Datetime
  pub updated_at : Datetime
  pub is_active : Bool

-- app/models/drone.py
pub record Drone : Type 0 where
  pub id : Uuid
  pub name : Text
  pub slug : Text
  pub org_id : Uuid
  pub created_at : Datetime
  pub updated_at : Datetime
  pub is_active : Bool

-- app/models/drone_api_key.py
pub record DroneApiKey : Type 0 where
  pub id : Uuid
  pub drone_id : Uuid
  pub prefix : Text
  pub hashed_key : Text
  pub label : Text
  pub created_at : Datetime
  pub last_used_at : Option Datetime
  pub revoked_at : Option Datetime

-- app/models/user.py
pub record User : Type 0 where
  pub id : Uuid
  pub email : Text
  pub password_hash : Text
  pub name : Text
  pub org_id : Uuid
  pub is_active : Bool
  pub last_login_at : Option Datetime
  pub email_verified_at : Option Datetime
  pub failed_login_count : ℕ
  pub locked_until : Option Datetime
  pub created_at : Datetime
  pub updated_at : Datetime

-- app/models/role.py
pub record Role : Type 0 where
  pub id : ℕ
  pub name : Text
  pub description : Text
  pub is_platform_role : Bool
  pub created_at : Datetime

-- app/models/user_role.py
pub record UserRole : Type 0 where
  pub user_id : Uuid
  pub org_id : Uuid
  pub role_id : ℕ
  pub granted_by : Option Uuid
  pub granted_at : Datetime
  pub revoked_by : Option Uuid
  pub revoked_at : Option Datetime
  pub revoked_reason : Option Text

-- app/models/session.py
pub data SessionTransport : Type 0 where
  cookie bearer : SessionTransport

pub record Session : Type 0 where
  pub id : Uuid
  pub user_id : Uuid
  pub token_hash : Text
  pub transport : SessionTransport
  pub user_agent : Option Text
  pub ip_address : Option Text
  pub created_at : Datetime
  pub expires_at : Datetime
  pub last_seen_at : Datetime
  pub revoked_at : Option Datetime
  pub revoked_reason : Option Text

-- app/models/audit_log.py; `extra` is the JSONB column `metadata`
pub record AuditLog : Type 0 where
  pub user_id : Option Uuid
  pub request_id : Option Uuid
  pub action : Text
  pub permission : Option Text
  pub resource_type : Option Text
  pub resource_id : Option Text
  pub target_org_id : Option Uuid
  pub matched_role_id : Option ℕ
  pub matched_org_id : Option Uuid
  pub decision : Text
  pub reason : Option Text
  pub ip_address : Option Text
  pub user_agent : Option Text
  pub extra : Option (List (Text × Text))
