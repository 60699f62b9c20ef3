-- ===== src/Examples/Rbac.antt =====
-- Examples of the permission check.
use specter_cloud.Prelude.{
  ℕ, codes, ◌≡◌, ◌≢◌, refl, sym, ap, none, some, [], ◌∷◌, All, nil, cons, here, there, arith, map,
  select,
}
use specter_cloud.Models.{Org, Role}
use specter_cloud.Permissions.{mission_read, roles_with_permission, developer}
use specter_cloud.Store.{Db}
use specter_cloud.Rbac.{chain_base, chain_from, org_chain, denied, check_permission}
use specter_cloud.Rbac.Ancestors.{Ancestor, itself, parent}
use specter_cloud.Rbac.Rounds.{org_chain_ends}
use specter_cloud.Rbac.Grants.{Reaches}
use specter_cloud.Rbac.Decision.{Decides, check_permission-Decides}
use specter_cloud.Rbac.Scope.{isolation}
use specter_cloud.Examples.Data.{db, alice, carol, org, orgs, grant, role}

-- The closest of Alice's two grants decides.
check_permission-closest :
    (check_permission alice mission_read 3 db).reason ≡ codes "granted_via_operator"
unfolding check_permission select
check_permission-closest = refl

check_permission-above :
    (check_permission alice mission_read 1 db).reason ≡ codes "granted_via_viewer"
unfolding check_permission select
check_permission-above = refl

-- On a cycle the query stops at the depth limit.
org_chain-cycle :
    map (λ c. c.depth) (org_chain orgs 5) ≡ 0 ∷ 1 ∷ 2 ∷ 3 ∷ 4 ∷ 5 ∷ 6 ∷ 7 ∷ 8 ∷ 9 ∷ 10 ∷ []
unfolding org_chain select
org_chain-cycle = refl

check_permission-Decides_example :
    Decides db alice mission_read 3 (check_permission alice mission_read 3 db)
check_permission-Decides_example = check_permission-Decides db alice mission_read 3

org_chain_ends_example : chain_from 31 orgs (chain_base orgs 5) ≡ org_chain orgs 5
org_chain_ends_example = org_chain_ends orgs 5 30 (omega arith)

-- the tables of two customers, with Carol's grant at org 9
abbrev apart : Db
apart = record db { orgs = org 3 none ∷ org 9 none ∷ []; user_roles = grant 72 9 3 ∷ [] }

only_itself : {o : Org} {depth : ℕ} → Ancestor apart.orgs 3 o depth → o ≡ org 3 none
only_itself (itself (here q) e) = sym q
only_itself (itself (there (here q)) e) = absurd (omega (arith, ap (λ (x : Org). x.id) q, e))
only_itself (itself (there (there a)) e) = elim a [ ]
only_itself (parent a m e) = absurd (cc (ap (λ (x : Org). x.parent_org_id) (only_itself a), e))

isolation_example :
    check_permission carol mission_read 3 apart ≡ denied (codes "no_matching_role_grant")
isolation_example =
    isolation apart carol mission_read 3 (
      cons (λ e o depth a q. absurd (omega (arith, ap (λ (x : Org). x.id) (only_itself a), q))) nil)

no_developer : All (λ (r : Role). r.name ≢ developer) db.roles
no_developer = cons (λ e. cc e) (cons (λ e. cc e) (cons (λ e. cc e) nil))

alice-Reaches :
    Reaches db 70
      (roles_with_permission mission_read)
      2
      (record { role_id = 2; org_id = 2; name = codes "operator"; depth = 0 })
unfolding roles_with_permission
alice-Reaches = record {
  grant = grant 70 2 2;
  role = role 2 (codes "operator");
  org = org 2 (some 1);
  in_user_roles = there (here refl);
  in_roles = there (here refl);
  ancestor = itself (there (here refl)) refl;
  within = omega arith;
  of_user = refl;
  active = refl;
  at_org = refl;
  of_role = refl;
  is_eligible = refl;
  shown = refl;
}
