-- ===== src/Scripts/Bootstrap.antt =====
-- scripts/bootstrap_specter_org.py.
pub mod Ends
pub mod Again
pub mod Rights
pub mod FirstLogin
pub mod Fresh
use specter_cloud.Prelude.{
  ℕ, Text, codes, strip, non_empty, text_eq, Bool, true, false, not, ◌&&◌, ◌||◌, Option, none, some,
  List, [], ◌∷◌, ◌++◌, scalar, any, length, is_none, leb, ◌==◌, if◌then◌else◌,
}
use specter_cloud.Platform.{Platform}
use specter_cloud.Models.{Uuid, Datetime, Org, User, Role, UserRole}
use specter_cloud.Store.{
  Db, Action, value_error, integrity_error, data_error, pure, raise, query, modify, flush, commit,
  ◌>>=◌, ◌>>◌, user_exists, org_exists, role_exists,
}
use specter_cloud.Sessions.{fail}
use specter_cloud.Permissions.{admin, developer}
use specter_cloud.Password.{hash_password}

-- The arguments, with what the database and `argon2` draw.
pub record Setup : Type 0 where
  pub org_id : Uuid
  pub email : Text
  pub password : Text
  pub name : Text
  pub user_id : Uuid
  pub salt : Text
  pub db_now : Datetime

-- `select(Role).where(Role.name == name)`
unfoldable pub role_named : Text → Db → Option Role
role_named name db = scalar (λ r. text_eq r.name name) db.roles

abbrev pub is_active_grant : Uuid → ℕ → UserRole → Bool
is_active_grant org_id role_id g =
    g.org_id == org_id && g.role_id == role_id && is_none g.revoked_at

unfoldable pub active_grant : Uuid → ℕ → Db → Option UserRole
active_grant org_id role_id db = scalar (is_active_grant org_id role_id) db.user_roles

unfoldable pub get_org : Uuid → Db → Option Org
get_org org_id db = scalar (λ o. o.id == org_id) db.orgs

unfoldable pub user_with_email : Text → Db → Option User
user_with_email email db = scalar (λ u. text_eq u.email email) db.users

-- an INSERT at a flush, by what the database says of the column limits and of the keys
abbrev pub inserting : Bool → Bool → (Db → Db) → Action (Unit {0})
inserting fits accepted append =
    if fits then (if accepted then modify append else fail integrity_error) else fail data_error

abbrev pub specter_org : Setup → Org
specter_org setup = record {
  id = setup.org_id;
  name = codes "Specter";
  slug = codes "specter";
  parent_org_id = none;
  created_at = setup.db_now;
  updated_at = setup.db_now;
  is_active = true;
}

abbrev pub append_org : Org → Db → Db
append_org org db = record db { orgs = db.orgs ++ org ∷ [] }

-- the keys of `orgs`, for a root
unfoldable pub org_refers : Org → Db → Bool
unfolding any text_eq
org_refers org db = not (any (λ o. o.id == org.id || text_eq o.slug org.slug) db.orgs)

unfoldable pub insert_org : Org → Action (Unit {0})
unfolding org_refers
insert_org org = flush >> query (org_refers org) >>= λ accepted.
    inserting (leb (length org.name) 120 && leb (length org.slug) 60) accepted (append_org org)

abbrev pub admin_user : Setup → Text → Text → Text → User
admin_user setup email password_hash name = record {
  id = setup.user_id;
  email = email;
  password_hash = password_hash;
  name = name;
  org_id = setup.org_id;
  is_active = true;
  last_login_at = none;
  email_verified_at = none;
  failed_login_count = 0;
  locked_until = none;
  created_at = setup.db_now;
  updated_at = setup.db_now;
}

abbrev pub append_user : User → Db → Db
append_user user db = record db { users = db.users ++ user ∷ [] }

abbrev pub user_fits : User → Bool
user_fits u =
    leb (length u.email) 254 && leb (length u.password_hash) 128 && leb (length u.name) 120

-- the keys of `users`
unfoldable pub user_refers : User → Db → Bool
unfolding any text_eq
user_refers user db =
    not (any (λ u. u.id == user.id || text_eq u.email user.email) db.users)
    && org_exists db user.org_id

unfoldable pub insert_user : User → Action (Unit {0})
unfolding user_refers
insert_user user = flush >> query (user_refers user) >>= λ accepted.
    inserting (user_fits user) accepted (append_user user)

abbrev pub new_grant : Setup → Role → UserRole
new_grant setup role = record {
  user_id = setup.user_id;
  org_id = setup.org_id;
  role_id = role.id;
  granted_by = none;
  granted_at = setup.db_now;
  revoked_by = none;
  revoked_at = none;
  revoked_reason = none;
}

abbrev pub append_grant : UserRole → Db → Db
append_grant g db = record db { user_roles = db.user_roles ++ g ∷ [] }

-- the keys of `user_roles`, for a grant that nobody made
unfoldable pub grant_refers : UserRole → Db → Bool
unfolding any
grant_refers g db =
    not (
      any (λ h. h.user_id == g.user_id && h.org_id == g.org_id && h.role_id == g.role_id)
        db.user_roles)
    && user_exists db g.user_id
    && org_exists db g.org_id
    && role_exists db g.role_id

-- one of the rows that the commit flushes
unfoldable pub insert_grant : UserRole → Action (Unit {0})
unfolding grant_refers
insert_grant g = query (grant_refers g) >>= λ accepted. inserting true accepted (append_grant g)

-- from the search for the second role on
unfoldable pub grant_both : Setup → Role → Option Role → Action Bool
unfolding insert_grant
grant_both setup admin_role none = raise value_error
grant_both setup admin_role (some developer_role) =
    insert_grant (new_grant setup admin_role)
    >> insert_grant (new_grant setup developer_role)
    >> commit
    >> pure true

unfoldable pub add_admin : Platform → Setup → Role → Option User → Action Bool
unfolding grant_both insert_user role_named
add_admin platform setup admin_role (some existing) = raise value_error
add_admin platform setup admin_role none =
    hash_password platform setup.salt setup.password >>= λ password_hash.
    insert_user
      (admin_user setup (platform.lower (strip setup.email)) password_hash (strip setup.name))
    >> query (role_named developer)
    >>= grant_both setup admin_role

-- the organization, if it is not there
unfoldable pub ensure_org : Setup → Option Org → Action (Unit {0})
unfolding insert_org
ensure_org setup (some org) = pure tt
ensure_org setup none = insert_org (specter_org setup)

-- from the test of the existing grant on
unfoldable pub unless_granted : Platform → Setup → Role → Option UserRole → Action Bool
unfolding ensure_org get_org user_with_email add_admin
unless_granted platform setup admin_role (some existing) = pure false
unless_granted platform setup admin_role none =
    query (get_org setup.org_id)
    >>= ensure_org setup
    >> query (user_with_email (platform.lower (strip setup.email)))
    >>= add_admin platform setup admin_role

unfoldable pub with_admin_role : Platform → Setup → Option Role → Action Bool
unfolding unless_granted active_grant
with_admin_role platform setup none = raise value_error
with_admin_role platform setup (some admin_role) =
    query (active_grant setup.org_id admin_role.id) >>= unless_granted platform setup admin_role

unfoldable pub bootstrap : Platform → Setup → Action Bool
unfolding with_admin_role role_named
bootstrap platform setup = query (role_named admin) >>= with_admin_role platform setup
