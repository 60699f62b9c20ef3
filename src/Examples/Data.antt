-- ===== src/Examples/Data.antt =====
-- The tables and the values that the examples use.
use specter_cloud.Prelude.{
  ℕ, Text, codes, true, false, Option, none, some, List, [], ◌∷◌, ◌++◌, text_eq, if◌then◌else◌,
}
use specter_cloud.Models.{Uuid, Org, User, Role, UserRole, bearer, Session}
use specter_cloud.Platform.{Platform, verified, verify_mismatch_error}
use specter_cloud.Store.{Db}
use specter_cloud.Sessions.{Issue, new_session}

abbrev pub org : Uuid → Option Uuid → Org
org id parent = record {
  id = id;
  name = codes "org";
  slug = codes "org";
  parent_org_id = parent;
  created_at = 0;
  updated_at = 0;
  is_active = true;
}

-- Org 1 is above 2 and 2 above 3; org 9 is another customer; orgs 5 and 6 are a cycle.
abbrev pub orgs : List Org
orgs =
    org 1 none ∷ org 2 (some 1) ∷ org 3 (some 2) ∷ org 9 none ∷ org 5 (some 6) ∷ org 6 (some 5) ∷ []

abbrev pub user : Uuid → Text → User
user id email = record {
  id = id;
  email = email;
  password_hash = codes "salt:secret";
  name = codes "user";
  org_id = 3;
  is_active = true;
  last_login_at = none;
  email_verified_at = none;
  failed_login_count = 0;
  locked_until = none;
  created_at = 0;
  updated_at = 0;
}

abbrev pub alice : User
alice = user 70 (codes "alice@example.com")

abbrev pub bob : User
bob = user 71 (codes "bob@example.com")

abbrev pub carol : User
carol = user 72 (codes "carol@example.com")

abbrev pub role : ℕ → Text → Role
role id name = record {
  id = id;
  name = name;
  description = [];
  is_platform_role = false;
  created_at = 0;
}

abbrev pub grant : Uuid → Uuid → ℕ → UserRole
grant user_id org_id role_id = record {
  user_id = user_id;
  org_id = org_id;
  role_id = role_id;
  granted_by = none;
  granted_at = 0;
  revoked_by = none;
  revoked_at = none;
  revoked_reason = none;
}

-- Alice is a viewer at org 1 and an operator at org 2. Bob was an admin at org 1.
abbrev pub user_roles : List UserRole
user_roles = grant 70 1 1 ∷ grant 70 2 2 ∷ record (grant 71 1 3) { revoked_at = some 5 } ∷ []

abbrev pub db : Db
db = record {
  orgs = orgs;
  drones = [];
  drone_api_keys = [];
  users = alice ∷ bob ∷ [];
  roles = role 1 (codes "viewer") ∷ role 2 (codes "operator") ∷ role 3 (codes "admin") ∷ [];
  user_roles = user_roles;
  sessions = [];
  audit_log = [];
}

abbrev argon2_toy : Text → Text → Text
argon2_toy salt plain = codes "salt:" ++ plain

abbrev pub platform : Platform
platform = record {
  sha256_hex = λ s. s;
  lower = λ s. s;
  isoformat = λ t. t ∷ [];
  is_decimal = λ c. false;
  argon2_hash = argon2_toy;
  argon2_verify = λ hashed plain.
      if text_eq hashed (argon2_toy [] plain) then verified else verify_mismatch_error;
  check_needs_rehash = λ hashed. false;
}

abbrev pub issue : Uuid → Issue
issue id = record { id = id; drawn = codes "token"; now = 1000; db_now = 1000 }

-- the session that Alice is issued at moment 1000
abbrev pub alices : Session
alices = new_session (codes "token") 70 bearer none none (issue 500)

abbrev pub with_alices : Db
with_alices = record db { sessions = alices ∷ [] }
