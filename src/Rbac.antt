-- ===== src/Rbac.antt =====
-- app/auth/rbac.py: the walk up the org hierarchy, the permission check and the route guard.
pub mod Ancestors
pub mod Rounds
pub mod Grants
pub mod Decision
pub mod Scope
pub mod Guard
use specter_cloud.Prelude.{
  ℕ, zero, suc, ◌+◌, Text, codes, Bool, true, false, ◌&&◌, Option, none, some, List, [], ◌∷◌, ◌++◌,
  map, select, has, is_none, ltb, ◌==◌, if◌then◌else◌,
}
use specter_cloud.Models.{Uuid, Org, User, Role, UserRole, AuditLog}
use specter_cloud.Permissions.{Permission, value, roles_with_permission}
use specter_cloud.Permissions.Bundles.{is_in}
use specter_cloud.Store.{Db, Action, pure, raise, query, http_exception, commit, ◌>>=◌, ◌>>◌}
use specter_cloud.Audit.{allow, deny, entry, write}

abbrev pub max_hierarchy_depth : ℕ
max_hierarchy_depth = 10

-- a row of the recursive query `org_chain`
pub record OrgChainRow : Type 0 where
  pub id : Uuid
  pub parent_org_id : Option Uuid
  pub depth : ℕ

abbrev pub chain_row : ℕ → Org → OrgChainRow
chain_row depth o = record { id = o.id; parent_org_id = o.parent_org_id; depth = depth }

-- the query's first SELECT
unfoldable pub chain_base : List Org → Uuid → List OrgChainRow
chain_base orgs target = map (chain_row 0) (select (λ o. o.id == target) orgs)

-- the rows that the recursive SELECT joins to one row of the working table
unfoldable pub parents : List Org → OrgChainRow → List OrgChainRow
parents orgs c =
    if ltb c.depth max_hierarchy_depth
    then map (chain_row (c.depth + 1)) (select (λ o. has (λ i. o.id == i) c.parent_org_id) orgs)
    else []

-- the recursive SELECT over the working table
unfoldable pub chain_step : List Org → List OrgChainRow → List OrgChainRow
unfolding parents
chain_step orgs [] = []
chain_step orgs (c ∷ working) = parents orgs c ++ chain_step orgs working

-- `WITH RECURSIVE`: each round adds the working table and replaces it. An empty table adds nothing.
unfoldable pub chain_from : ℕ → List Org → List OrgChainRow → List OrgChainRow
unfolding chain_step
chain_from zero orgs working = []
chain_from (suc rounds) orgs working = working ++ chain_from rounds orgs (chain_step orgs working)

-- A row of round n has depth n, so one round more than the greatest depth is enough.
unfoldable pub org_chain : List Org → Uuid → List OrgChainRow
unfolding chain_base chain_from
org_chain orgs target = chain_from (suc max_hierarchy_depth) orgs (chain_base orgs target)

-- a row of the main query, with the depth that orders it
pub record GrantRow : Type 0 where
  pub role_id : ℕ
  pub org_id : Uuid
  pub name : Text
  pub depth : ℕ

abbrev pub grant_row : UserRole → OrgChainRow → Role → GrantRow
grant_row ur c r = record {
  role_id = ur.role_id;
  org_id = ur.org_id;
  name = r.name;
  depth = c.depth;
}

-- `JOIN roles r ON ur.role_id = r.id`, with the condition on the role's name
unfoldable pub join_roles : List Text → UserRole → OrgChainRow → List Role → List GrantRow
join_roles eligible ur c roles =
    map (grant_row ur c) (select (λ r. r.id == ur.role_id && is_in r.name eligible) roles)

-- `JOIN org_chain c ON ur.org_id = c.id`
unfoldable pub join_chain : List Text → List Role → UserRole → List OrgChainRow → List GrantRow
unfolding join_roles
join_chain eligible roles ur [] = []
join_chain eligible roles ur (c ∷ chain) =
    (if c.id == ur.org_id then join_roles eligible ur c roles else [])
    ++ join_chain eligible roles ur chain

-- the rows of the main query: the active grants of the user
unfoldable pub grant_rows :
    Uuid → List Text → List Role → List OrgChainRow → List UserRole → List GrantRow
unfolding join_chain
grant_rows user_id eligible roles chain [] = []
grant_rows user_id eligible roles chain (ur ∷ user_roles) =
    (if ur.user_id == user_id && is_none ur.revoked_at
      then join_chain eligible roles ur chain
      else [])
    ++ grant_rows user_id eligible roles chain user_roles

abbrev closer : GrantRow → Option GrantRow → Option GrantRow
closer r none = some r
closer r (some s) = if ltb s.depth r.depth then some s else some r

-- `ORDER BY c.depth ASC LIMIT 1`. Rows of equal depth are in the order of the tables.
unfoldable pub first_by_depth : List GrantRow → Option GrantRow
first_by_depth [] = none
first_by_depth (r ∷ rows) = closer r (first_by_depth rows)

pub record PermissionCheckResult : Type 0 where
  pub allowed : Bool
  pub matched_role_id : Option ℕ
  pub matched_org_id : Option Uuid
  pub matched_role_name : Option Text
  pub reason : Text

abbrev pub denied : Text → PermissionCheckResult
denied reason = record {
  allowed = false;
  matched_role_id = none;
  matched_org_id = none;
  matched_role_name = none;
  reason = reason;
}

abbrev pub result_of_row : Option GrantRow → PermissionCheckResult
result_of_row none = denied (codes "no_matching_role_grant")
result_of_row (some row) = record {
  allowed = true;
  matched_role_id = some row.role_id;
  matched_org_id = some row.org_id;
  matched_role_name = some row.name;
  reason = codes "granted_via_" ++ row.name;
}

-- the query of `check_permission`, for the eligible roles
unfoldable pub closest_grant : List Text → User → Uuid → Db → Option GrantRow
unfolding org_chain grant_rows first_by_depth
closest_grant eligible user target db =
    first_by_depth (grant_rows user.id eligible db.roles (org_chain db.orgs target) db.user_roles)

abbrev pub check_roles : List Text → User → Uuid → Db → PermissionCheckResult
check_roles [] user target db = denied (codes "permission_not_in_any_role")
check_roles (n ∷ names) user target db = result_of_row (closest_grant (n ∷ names) user target db)

unfoldable pub check_permission : User → Permission → Uuid → Db → PermissionCheckResult
unfolding closest_grant roles_with_permission
check_permission user permission target db =
    check_roles (roles_with_permission permission) user target db

-- What the guard reads of a request: `request.state.request_id`, the peer's address and the
-- User-Agent header.
pub record Request : Type 0 where
  pub state_request_id : Option Text
  pub client_host : Option Text
  pub user_agent : Option Text

-- `_extract_request_id`; `uuid` is the class `UUID`, with None for what it raises.
abbrev pub extract_request_id : (Text → Option Uuid) → Request → Option Uuid
extract_request_id uuid request = elim request.state_request_id [
  | none ↦ none
  | some raw ↦ uuid raw
]

abbrev pub decision_row :
    Option Uuid → Request → User → Permission → Uuid → PermissionCheckResult → AuditLog
decision_row request_id request user permission target result =
    record (entry (if result.allowed then codes "authz.granted" else codes "authz.denied")
      (if result.allowed then allow else deny)) {
        user_id = some user.id;
        request_id = request_id;
        permission = some (value permission);
        target_org_id = some target;
        matched_role_id = result.matched_role_id;
        matched_org_id = result.matched_org_id;
        reason = some result.reason;
        ip_address = request.client_host;
        user_agent = request.user_agent;
      }

-- what follows the audit row
unfoldable pub conclude : PermissionCheckResult → User → Action User
conclude result user =
    if result.allowed
    then pure user
    else commit >> raise (http_exception 403 (codes "Insufficient permissions"))

-- `org_resolver`, or the home org of the user
unfoldable pub resolve : Option (Action Uuid) → User → Action Uuid
resolve none user = pure user.org_id
resolve (some resolver) user = resolver

-- The decision, its audit row and what follows, once the target org is known.
unfoldable pub authorize : Option Uuid → Permission → Request → User → Uuid → Action User
unfolding conclude write
authorize request_id permission request user target = do
  result ← query (check_permission user permission target)
  write (decision_row request_id request user permission target result)
  conclude result user

-- the `checker` that `require_permission` returns
unfoldable pub checker :
    (Text → Option Uuid) → Permission → Option (Action Uuid) → Request → User → Action User
checker uuid permission org_resolver request user = do
  target ← resolve org_resolver user
  authorize (extract_request_id uuid request) permission request user target
