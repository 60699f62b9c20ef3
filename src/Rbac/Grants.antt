-- ===== src/Rbac/Grants.antt =====
-- The main query of `check_permission` joins the active grants to the hierarchy: its rows are the grants
-- that reach the target org, and the row that it returns is a closest one.
use specter_cloud.Prelude.{
  ◌≤◌, ◌≡◌, refl, ap, sym, ◌∙◌, true, ◌&&◌, Text, Option, none, some, List, [], ◌∷◌, All, nil, cons,
  Any, here, there, All-map, Any-map, All-append, All-if, Any-append_left, Any-append_right,
  All-select, Any-select, All-map_fun, Any-map_fun, Any-witness, All-Any, is_none, &&_iff, arith,
  ltb, ◌==◌, ==_iff, ==_refl, Bool-cases, Option-cases, inl, inr,
}
use specter_cloud.Models.{Uuid, Org, User, Role, UserRole}
use specter_cloud.Permissions.Bundles.{is_in}
use specter_cloud.Store.{Db}
use specter_cloud.Rbac.{
  OrgChainRow, chain_row, org_chain, max_hierarchy_depth, GrantRow, grant_row, join_roles,
  join_chain, grant_rows, first_by_depth, closest_grant,
}
use specter_cloud.Rbac.Ancestors.{Ancestor, Shows, org_chain-Shows, Any-org_chain}

-- `row` shows an active grant of an eligible role to the user, at an ancestor of the target org
-- within the depth limit, and the distance of that ancestor.
pub record Reaches (db : Db) (user_id : Uuid) (eligible : List Text) (target : Uuid)
    (row : GrantRow) : Type 0 where
  pub grant : UserRole
  pub role : Role
  pub org : Org
  pub in_user_roles : Any (λ g. g ≡ grant) db.user_roles
  pub in_roles : Any (λ r. r ≡ role) db.roles
  pub ancestor : Ancestor db.orgs target org row.depth
  pub within : row.depth ≤ max_hierarchy_depth
  pub of_user : grant.user_id ≡ user_id
  pub active : grant.revoked_at ≡ none
  pub at_org : org.id ≡ grant.org_id
  pub of_role : role.id ≡ grant.role_id
  pub is_eligible : is_in role.name eligible ≡ true
  pub shown : row ≡ record {
    role_id = grant.role_id;
    org_id = grant.org_id;
    name = role.name;
    depth = row.depth;
  }

first_by_depth-nil : (rows : List GrantRow) → first_by_depth rows ≡ none → rows ≡ []
unfolding first_by_depth
first_by_depth-nil [] e = refl
first_by_depth-nil (r ∷ rows) e = ground arith

-- The row that is chosen is one of the rows, and none is closer.
first_by_depth-closest :
    {P : GrantRow → Type 0} {rows : List GrantRow} (r : GrantRow)
    → All P rows
    → first_by_depth rows ≡ some r
    → P r × All (λ s. r.depth ≤ s.depth) rows
unfolding first_by_depth
first_by_depth-closest r nil e = cc
first_by_depth-closest r (cons {x} {xs} p h) e = elim (Option-cases (first_by_depth xs)) [
  | inl n ↦
      let chosen : x ≡ r = ground arith in
      rw (← chosen) (p, rw (first_by_depth-nil xs n) (cons (omega arith) nil))
  | inr (s, q) ↦
      let (ps, least) = first_by_depth-closest s h q in
      elim (Bool-cases (ltb s.depth x.depth)) [
        | inl lt ↦
            let chosen : s ≡ r = ground arith in rw (← chosen) (ps, cons (ground arith) least)
        | inr ge ↦
            let chosen : x ≡ r = ground arith in
            rw (← chosen) (p, cons (omega arith) (All-map_fun (λ t q. ground arith) least))
      ]
]

is_none→none : {A : Type 0} (o : Option A) → is_none o ≡ true → o ≡ none
is_none→none none h = refl
is_none→none (some a) h = cc

module _ (db : Db) (user_id : Uuid) (eligible : List Text) (target : Uuid) where
  -- Every row of the query reaches the target org.
  join_roles-Reaches :
      (ur : UserRole) (c : OrgChainRow)
      → Any (λ g. g ≡ ur) db.user_roles
      → ur.user_id ≡ user_id
      → ur.revoked_at ≡ none
      → c.id ≡ ur.org_id
      → Shows db.orgs target c
      → All (Reaches db user_id eligible target) (join_roles eligible ur c db.roles)
  unfolding join_roles
  join_roles-Reaches ur c m u a o (org, anc, e, within) =
      All-map (Reaches db user_id eligible target) (grant_row ur c) _ (
        All-select _ _ db.roles (λ r mr t.
          let both = (&&_iff _ _).0 t in
          record {
            grant = ur;
            role = r;
            org = org;
            in_user_roles = m;
            in_roles = mr;
            ancestor = anc;
            within = within;
            of_user = u;
            active = a;
            at_org = ap (λ (x : OrgChainRow). x.id) (sym e) ∙ o;
            of_role = (==_iff _ _).0 both.0;
            is_eligible = both.1;
            shown = refl;
          }))

  join_chain-Reaches :
      (ur : UserRole)
      → Any (λ g. g ≡ ur) db.user_roles
      → ur.user_id ≡ user_id
      → ur.revoked_at ≡ none
      → {chain : List OrgChainRow} → All (Shows db.orgs target) chain
      → All (Reaches db user_id eligible target) (join_chain eligible db.roles ur chain)
  unfolding join_chain
  join_chain-Reaches ur m u a nil = nil
  join_chain-Reaches ur m u a (cons {x = c} s h) =
      All-append
        (All-if (c.id == ur.org_id) (λ t. join_roles-Reaches ur c m u a ((==_iff _ _).0 t) s))
        (join_chain-Reaches ur m u a h)

  grant_rows-Reaches :
      (chain : List OrgChainRow)
      → All (Shows db.orgs target) chain
      → (grants : List UserRole)
      → ((g : UserRole) → Any (λ x. x ≡ g) grants → Any (λ x. x ≡ g) db.user_roles)
      → All (Reaches db user_id eligible target) (grant_rows user_id eligible db.roles chain grants)
  unfolding grant_rows
  grant_rows-Reaches chain s [] sub = nil
  grant_rows-Reaches chain s (ur ∷ grants) sub =
      All-append
        (All-if (ur.user_id == user_id && is_none ur.revoked_at) (λ t.
          let both = (&&_iff (ur.user_id == user_id) (is_none ur.revoked_at)).0 t in
          join_chain-Reaches ur (sub ur (here refl)) ((==_iff _ _).0 both.0)
            (is_none→none ur.revoked_at both.1) s))
        (grant_rows-Reaches chain s grants (λ g a. sub g (there a)))

-- Every grant that reaches the target org is a row of the query.
Any-join_roles :
    (eligible : List Text) (ur : UserRole) (c : OrgChainRow) (r : Role) (roles : List Role)
    → Any (λ x. x ≡ r) roles
    → r.id ≡ ur.role_id
    → is_in r.name eligible ≡ true
    → Any (λ x. x ≡ grant_row ur c r) (join_roles eligible ur c roles)
unfolding join_roles
Any-join_roles eligible ur c r roles m e h =
    Any-map (λ x. x ≡ grant_row ur c r) (grant_row ur c) _
      (Any-select _ _ roles
        (Any-map_fun (λ x q. (ap (grant_row ur c) q, rw (q, e, h) (ground arith))) m))

Any-join_chain :
    (eligible : List Text) (roles : List Role) (ur : UserRole) (c : OrgChainRow) (r : Role)
    (chain : List OrgChainRow)
    → Any (λ x. x ≡ r) roles
    → r.id ≡ ur.role_id
    → is_in r.name eligible ≡ true
    → c.id ≡ ur.org_id
    → Any (λ x. x ≡ c) chain
    → Any (λ x. x ≡ grant_row ur c r) (join_chain eligible roles ur chain)
unfolding join_chain
Any-join_chain eligible roles ur c r [] m e h o a = elim a [ ]
Any-join_chain eligible roles ur c r (d ∷ chain) m e h o (here q) =
    rw (q, o, ==_refl ur.org_id)
      (Any-append_left (join_chain eligible roles ur chain)
        (Any-join_roles eligible ur c r roles m e h))
Any-join_chain eligible roles ur c r (d ∷ chain) m e h o (there a) =
    Any-append_right _ (Any-join_chain eligible roles ur c r chain m e h o a)

Any-grant_rows :
    (user_id : Uuid) (eligible : List Text) (roles : List Role) (chain : List OrgChainRow)
    (ur : UserRole) (c : OrgChainRow) (r : Role) (grants : List UserRole)
    → Any (λ x. x ≡ grant_row ur c r) (join_chain eligible roles ur chain)
    → ur.user_id ≡ user_id
    → ur.revoked_at ≡ none
    → Any (λ x. x ≡ ur) grants
    → Any (λ x. x ≡ grant_row ur c r) (grant_rows user_id eligible roles chain grants)
unfolding grant_rows
Any-grant_rows user_id eligible roles chain ur c r [] j u n a = elim a [ ]
Any-grant_rows user_id eligible roles chain ur c r (g ∷ grants) j u n (here q) =
    rw (q, u, n, ==_refl user_id)
      (Any-append_left (grant_rows user_id eligible roles chain grants) j)
Any-grant_rows user_id eligible roles chain ur c r (g ∷ grants) j u n (there a) =
    Any-append_right _ (Any-grant_rows user_id eligible roles chain ur c r grants j u n a)

module _ (db : Db) (user : User) (eligible : List Text) (target : Uuid) where
  abbrev rows : List GrantRow
  rows = grant_rows user.id eligible db.roles (org_chain db.orgs target) db.user_roles

  rows-Reaches : All (Reaches db user.id eligible target) rows
  rows-Reaches =
      grant_rows-Reaches db user.id eligible target _ (org_chain-Shows db.orgs target) db.user_roles
        (λ g a. a)

  Any-rows : (row : GrantRow) → Reaches db user.id eligible target row → Any (λ x. x ≡ row) rows
  Any-rows row h =
      let c = chain_row row.depth h.org in
      Any-map_fun (λ x q. q ∙ sym h.shown)
        (Any-grant_rows user.id eligible db.roles _ h.grant c h.role db.user_roles
          (Any-join_chain eligible db.roles h.grant c h.role _ h.in_roles h.of_role h.is_eligible
            h.at_org (Any-org_chain db.orgs target h.ancestor h.within))
          h.of_user h.active h.in_user_roles)

  pub closest_grant-none :
      closest_grant eligible user target db ≡ none
      → (row : GrantRow) → ¬ Reaches db user.id eligible target row
  unfolding closest_grant
  closest_grant-none e row = λ h.
      let a : Any (λ x. x ≡ row) [] = rw (first_by_depth-nil rows e) at (Any-rows row h) in
      elim a [ ]

  pub closest_grant-some :
      (r : GrantRow)
      → closest_grant eligible user target db ≡ some r
      → Reaches db user.id eligible target r
        × ((row : GrantRow) → Reaches db user.id eligible target row → r.depth ≤ row.depth)
  unfolding closest_grant
  closest_grant-some r e =
      let (reaches, least) = first_by_depth-closest r rows-Reaches e in
      (
        reaches,
        λ row h.
            let (x, _, q) = Any-witness (All-Any least (Any-rows row h)) in
            omega (arith, ap (λ (y : GrantRow). y.depth) q.0, q.1),
      )
